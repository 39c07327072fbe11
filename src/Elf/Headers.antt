-- ===== src/Elf/Headers.antt =====
-- src/exec/ElfLoader.cc: the loop of ElfLoader::Open over the program headers.
use lbw.Prelude.{
  ℕ, zero, suc, ◌+◌, ◌≤◌, ◌<◌, ◌≡◌, refl, true, false, List, [], ◌∷◌, Option, none, some, arith,
  ◌==◌, ◌⊎◌, inl, inr, ◌∙◌, get_elem?, length, if◌then◌else◌, ltb, ltb→lt, ltb-false→le, Bool-cases,
  sym, subst, ap₂,
}
use lbw.Prelude.Results.{ok, fault, and_then, out_of_fuel}
use lbw.Prelude.Text.{Bytes}
use lbw.Elf.{ProgramHeader, ReadAt, pt_interp, interpreter_of, find_interpreter}

-- The number of a header that is not for an interpreter.
abbrev pub IsOther : List ProgramHeader → ℕ → Type 0
IsOther phs j =
    (ph : ProgramHeader) × (get_elem? phs j ≡ some ph) × ((ph.p_type == pt_interp) ≡ false)

at_or_below : (i n : ℕ) → i ≤ n → (i ≡ n) ⊎ (i < n)
at_or_below i n h = ground arith

-- Behind a number there is no header for an interpreter.
abbrev pub NoneBehind : List ProgramHeader → ℕ → Type 0
NoneBehind phs n =
    (j : ℕ) (ph : ProgramHeader)
    → n < j
    → get_elem? phs j ≡ some ph
    → (ph.p_type == pt_interp) ≡ false

no-elem : (phs : List ProgramHeader) (j : ℕ) → length phs ≤ j → get_elem? phs j ≡ none
no-elem [] j h = refl
no-elem (ph ∷ phs) zero h = absurd (omega arith)
no-elem (ph ∷ phs) (suc j) h = no-elem phs j (omega arith)

module _ (pread : ReadAt) (phs : List ProgramHeader) where
  skip :
      (fuel i : ℕ) (found : Bytes)
      → IsOther phs i
      → find_interpreter pread phs (suc fuel) i found
        ≡ find_interpreter pread phs fuel (suc i) found
  unfolding find_interpreter
  skip fuel i found (other, at, differs) = rw (find_interpreter, at) (rw differs)

  stop :
      (fuel i : ℕ) (found : Bytes)
      → get_elem? phs i ≡ none
      → find_interpreter pread phs (suc fuel) i found ≡ ok found
  unfolding find_interpreter
  stop fuel i found at = rw (find_interpreter, at)

  known : (o : Option ProgramHeader) → (o ≡ none) ⊎ ((ph : ProgramHeader) × (o ≡ some ph))
  known none = inl refl
  known (some ph) = inr (ph, refl)

  -- Without a further header for an interpreter the loop ends with what it has found.
  rest :
      (fuel i n : ℕ) (found : Bytes)
      → NoneBehind phs n
      → n < i
      → length phs ≤ i + fuel
      → find_interpreter pread phs (suc fuel) i found ≡ ok found
  rest zero i n found none_left h e = stop zero i found (no-elem phs i (omega arith))
  rest (suc fuel) i n found none_left h e = elim (known (get_elem? phs i)) [
    | inl gone ↦ stop (suc fuel) i found gone
    | inr (ph, at) ↦
        skip (suc fuel) i found (ph, at, none_left i ph h at)
        ∙ rest fuel (suc i) n found none_left (omega arith) (omega arith)
  ]

module _ (pread : ReadAt) (phs : List ProgramHeader) (n : ℕ) (ph : ProgramHeader) (name : Bytes)
    (there : get_elem? phs n ≡ some ph) (interp : (ph.p_type == pt_interp) ≡ true)
    (was_read : interpreter_of ph.p_filesz (pread ph.p_filesz ph.p_offset) ≡ ok name)
    (before : (j : ℕ) → j < n → IsOther phs j) where
  one_round :
      (fuel : ℕ) (found : Bytes)
      → find_interpreter pread phs (suc fuel) n found
        ≡ find_interpreter pread phs fuel (suc ph.p_filesz) name
  unfolding find_interpreter
  one_round fuel found = rw (find_interpreter, there) (rw interp (rw (was_read, and_then)))

  -- From header i on, d headers before n.
  reach :
      (d rounds fuel i : ℕ) (found : Bytes)
      → rounds ≡ d + fuel
      → i + d ≡ n
      → find_interpreter pread phs rounds i found ≡ find_interpreter pread phs fuel n found
  reach zero rounds fuel i found r e =
      let same : rounds ≡ fuel = omega arith in
      let here : i ≡ n = omega arith in ap₂ (λ f m. find_interpreter pread phs f m found) same here
  reach (suc d) zero fuel i found r e = absurd (omega arith)
  reach (suc d) (suc rounds) fuel i found r e =
      skip pread phs rounds i found (before i (omega arith))
      ∙ reach d rounds fuel (suc i) found (omega arith) (omega arith)

  again :
      (fuel i : ℕ) (found : Bytes)
      → ph.p_filesz < n
      → i ≤ n
      → find_interpreter pread phs fuel i found ≡ fault out_of_fuel
  unfolding find_interpreter
  again zero i found short high = refl
  again (suc fuel) i found short high = elim (at_or_below i n high) [
    | inl e ↦
        subst (λ i. find_interpreter pread phs (suc fuel) i found ≡ fault out_of_fuel) (sym e)
          (one_round fuel found ∙ again fuel (suc ph.p_filesz) name short (omega arith))
    | inr below ↦
        skip pread phs fuel i found (before i below) ∙ again fuel (suc i) found short (omega arith)
  ]

  -- The loop over the program headers uses its counter for the number of bytes read, too. Where
  -- header n is the only one for an interpreter and its name is read without an error: if the name is
  -- shorter than n bytes, the loop comes back to n for ever, whatever number of rounds is allowed;
  -- otherwise it finds that name, and n rounds, two more and one for each header are enough.
  pub find_interpreter_lem :
      (k : ℕ)
      → length phs ≤ k
      → NoneBehind phs n
      → find_interpreter pread phs (n + suc (suc k)) 0 []
        ≡ (if ltb ph.p_filesz n then fault out_of_fuel else ok name)
  find_interpreter_lem k enough none_left = elim (Bool-cases (ltb ph.p_filesz n)) [
    | inl e ↦ rw e (again (n + suc (suc k)) 0 [] (ltb→lt ph.p_filesz n e) (omega arith))
    | inr e ↦ rw e (
        reach n (n + suc (suc k)) (suc (suc k)) 0 [] (omega arith) (omega arith)
        ∙ one_round (suc k) []
        ∙ ends (ltb-false→le ph.p_filesz n e))
  ]
    where
      ends : n ≤ ph.p_filesz → find_interpreter pread phs (suc k) (suc ph.p_filesz) name ≡ ok name
      ends h = rest pread phs k (suc ph.p_filesz) n name none_left (omega arith) (omega arith)
