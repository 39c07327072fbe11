-- ===== src/InitialStack/Startup.antt =====
-- src/user.cc, RunElf: that a program finds its arguments, environment and auxiliary values, read in
-- the way of the ix86 ABI.
use lbw.Prelude.{
  ℕ, ◌+◌, ◌≡◌, ◌≢◌, ◌≤◌, ◌<◌, refl, ap, sym, ◌∙◌, true, false, List, [], ◌∷◌, ◌++◌, Option, none,
  some, ◌==◌, ltb, length, if◌then◌else◌, arith, length-append,
}
use mathlib.Core.List.{append_assoc, append-nil}
use lbw.Prelude.Flags.{All}
use lbw.Prelude.Results.{ok}
use lbw.InitialStack.{
  Loaded, Calldata, put, put_all, count, copy, auxiliary, auxsize, base_of, entry_of, Start,
  calldata_of, run_elf,
}

-- A vector of pointers, which ends with a null pointer, and what stands behind it.
abbrev in_front : ℕ → Option (List ℕ × List ℕ) → Option (List ℕ × List ℕ)
in_front w none = none
in_front w (some (ws, rest)) = some (w ∷ ws, rest)

unfoldable pub read_vector : List ℕ → Option (List ℕ × List ℕ)
read_vector [] = none
read_vector (w ∷ ws) =
    let rest = read_vector ws in if w == 0 then some ([], ws) else in_front w rest

-- Pairs up to the type AT_NULL.
abbrev pair_before : ℕ → ℕ → Option (List (ℕ × ℕ)) → Option (List (ℕ × ℕ))
pair_before t v none = none
pair_before t v (some ps) = some ((t, v) ∷ ps)

unfoldable pub read_auxiliary : List ℕ → Option (List (ℕ × ℕ))
read_auxiliary [] = none
read_auxiliary (t ∷ []) = if t == 0 then some [] else none
read_auxiliary (t ∷ v ∷ ws) =
    let rest = read_auxiliary ws in if t == 0 then some [] else pair_before t v rest

-- What a program reads from its stack.
pub record Arguments : Type 0 where
  pub argc : ℕ
  pub argv : List ℕ
  pub environ : List ℕ
  pub aux : List (ℕ × ℕ)

abbrev with_aux : ℕ → List ℕ → List ℕ → Option (List (ℕ × ℕ)) → Option Arguments
with_aux argc argv environ none = none
with_aux argc argv environ (some aux) =
    some (record { argc = argc; argv = argv; environ = environ; aux = aux })

abbrev with_environ : ℕ → List ℕ → Option (List ℕ × List ℕ) → Option Arguments
with_environ argc argv none = none
with_environ argc argv (some (environ, ws)) = with_aux argc argv environ (read_auxiliary ws)

abbrev with_argv : ℕ → Option (List ℕ × List ℕ) → Option Arguments
with_argv argc none = none
with_argv argc (some (argv, ws)) = with_environ argc argv (read_vector ws)

abbrev pub read_stack : List ℕ → Option Arguments
read_stack [] = none
read_stack (argc ∷ ws) = with_argv argc (read_vector ws)

abbrev NonNull : List ℕ → Type 0
NonNull ws = All (λ w. w ≢ 0) ws

read_vector-end : (ws rest : List ℕ) → NonNull ws → read_vector (ws ++ 0 ∷ rest) ≡ some (ws, rest)
unfolding read_vector
read_vector-end [] rest h = refl
read_vector-end (w ∷ ws) rest (h, hs) =
    let again = read_vector-end ws rest hs in
    let test : (w == 0) ≡ false = ground arith in rw (test, again) refl

count-end : (ws rest : List ℕ) → NonNull ws → count (ws ++ 0 ∷ rest) ≡ ok (length ws)
unfolding count
count-end [] rest h = refl
count-end (w ∷ ws) rest (h, hs) =
    let again = count-end ws rest hs in
    let test : (w == 0) ≡ false = ground arith in rw (test, again) refl

-- What is put in an array that has room for it.
abbrev behind : List ℕ → Calldata → Calldata
behind ws c = record c { written = c.written ++ ws }

put_room :
    (w : ℕ) (c : Calldata) → length c.written < c.arraysize → put w c ≡ ok (behind (w ∷ []) c)
put_room w c room =
    let test : ltb (length c.written) c.arraysize ≡ true = ground arith in rw test refl

-- One word and then others are those words together.
behind_twice :
    (w : ℕ) (ws : List ℕ) (c : Calldata) → behind ws (behind (w ∷ []) c) ≡ behind (w ∷ ws) c
behind_twice w ws c = ap (λ l. record c { written = l }) (append_assoc c.written (w ∷ []) ws)

length-behind : (w : ℕ) (c : Calldata) → length (behind (w ∷ []) c).written ≡ length c.written + 1
length-behind w c = length-append c.written (w ∷ [])

behind_none : (c : Calldata) → c ≡ behind [] c
behind_none c = ap (λ l. record c { written = l }) (sym (append-nil c.written))

copy_room :
    (ws rest : List ℕ) (c : Calldata)
    → length c.written + length ws ≤ c.arraysize
    → copy (length ws) (ws ++ rest) c ≡ ok (behind ws c)
unfolding copy
copy_room [] rest c room = ap ok (behind_none c)
copy_room (w ∷ ws) rest c room =
    let more = copy_room ws rest (behind (w ∷ []) c) (omega (arith, length-behind w c)) in
    rw (put_room w c (omega arith)) (more ∙ ap ok (behind_twice w ws c))

put_all_room :
    (ws : List ℕ) (c : Calldata)
    → length c.written + length ws ≤ c.arraysize
    → put_all ws c ≡ ok (behind ws c)
unfolding put_all
put_all_room [] c room = ap ok (behind_none c)
put_all_room (w ∷ ws) c room =
    let more = put_all_room ws (behind (w ∷ []) c) (omega (arith, length-behind w c)) in
    rw (put_room w c (omega arith)) (more ∙ ap ok (behind_twice w ws c))

-- The auxiliary values in the order in which they stand.
abbrev pub pairs : Loaded → Option Loaded → List (ℕ × ℕ)
pairs executable interpreter =
    (3, executable.program_header)
    ∷ (4, executable.program_header_size)
    ∷ (5, executable.num_program_headers)
    ∷ (9, executable.entrypoint)
    ∷ (6, 0x1000)
    ∷ (7, base_of interpreter)
    ∷ (8, 0)
    ∷ []

module _ (av ra ev re aux : List ℕ) (size : length aux ≡ auxsize) where
  abbrev room : ℕ
  room = length av + 1 + length ev + 1 + auxsize

  abbrev filled : List ℕ → Calldata
  filled ws = record { written = ws; arraysize = room }

  length_av : length (av ++ 0 ∷ []) ≡ length av + 1
  length_av = length-append av (0 ∷ [])

  length_ev : length ((av ++ 0 ∷ []) ++ ev) ≡ length av + 1 + length ev
  length_ev = rw (length-append (av ++ 0 ∷ []) ev, length_av) refl

  length_end : length (((av ++ 0 ∷ []) ++ ev) ++ 0 ∷ []) ≡ length av + 1 + length ev + 1
  length_end = rw (length-append ((av ++ 0 ∷ []) ++ ev) (0 ∷ []), length_ev) refl

  nested : (((av ++ 0 ∷ []) ++ ev) ++ 0 ∷ []) ++ aux ≡ av ++ (0 ∷ (ev ++ (0 ∷ aux)))
  nested =
      rw (append_assoc ((av ++ 0 ∷ []) ++ ev) (0 ∷ []) aux)
        (rw (append_assoc (av ++ 0 ∷ []) ev (0 ∷ aux)) (append_assoc av (0 ∷ []) (ev ++ (0 ∷ aux))))

  -- The array is filled from its first word to its last.
  calldata_lem :
      calldata_of (length av) (length ev) (av ++ 0 ∷ ra) (ev ++ 0 ∷ re) aux
      ≡ ok (filled (av ++ (0 ∷ (ev ++ (0 ∷ aux)))))
  unfolding calldata_of
  calldata_lem = rw (copy_room av (0 ∷ ra) (filled []) (omega arith)) (
      rw (put_room 0 (filled av) (omega arith)) (
        rw (copy_room ev (0 ∷ re) (filled (av ++ 0 ∷ [])) (omega (arith, length_av))) (
          rw (put_room 0 (filled ((av ++ 0 ∷ []) ++ ev)) (omega (arith, length_ev))) (
            put_all_room aux (filled (((av ++ 0 ∷ []) ++ ev) ++ 0 ∷ [])) (omega (arith, length_end))
            ∙ ap (λ ws. ok (filled ws)) nested))))

read_auxiliary-pairs :
    (executable : Loaded) (interpreter : Option Loaded)
    → read_auxiliary (auxiliary executable interpreter) ≡ some (pairs executable interpreter)
unfolding read_auxiliary auxiliary
read_auxiliary-pairs executable interpreter = refl

-- RunElf: for an argv and an environ that end with a null pointer, calldata is written neither
-- beyond its end nor short of it. The program starts at the entry point of the interpreter, if it has
-- one, and reads from its stack the number of its arguments, these, its environment and seven
-- auxiliary values: the program headers, their size and number, the entry point of the program
-- itself, the size of a page, where the interpreter is loaded (0 without one), and no flags.
pub run_elf_lem :
    (executable : Loaded) (interpreter : Option Loaded) (av ra ev re : List ℕ)
    → All (λ w. w ≢ 0) av
    → All (λ w. w ≢ 0) ev
    → (start : Start) × (run_elf executable interpreter (av ++ 0 ∷ ra) (ev ++ 0 ∷ re) ≡ ok start)
      × (start.eip ≡ entry_of executable interpreter)
      × (read_stack start.stack
          ≡ some (record {
            argc = length av;
            argv = av;
            environ = ev;
            aux = pairs executable interpreter;
          }))
      × (length start.stack ≡ 1 + (length av + 1 + length ev + 1 + auxsize))
unfolding run_elf
run_elf_lem executable interpreter av ra ev re h k =
    let aux = auxiliary executable interpreter in
    let filled_in = calldata_lem av ra ev re aux (aux_size executable interpreter) in
    (
      record {
        eip = entry_of executable interpreter;
        stack = length av ∷ av ++ (0 ∷ (ev ++ (0 ∷ aux)));
      },
      rw (count-end av ra h, count-end ev re k, filled_in) refl,
      refl,
      rw (read_vector-end av (ev ++ (0 ∷ aux)) h)
          (rw (read_vector-end ev aux k) (rw (read_auxiliary-pairs executable interpreter) refl)),
      rw
          (
            length-append av (0 ∷ (ev ++ (0 ∷ aux))),
            length-append ev (0 ∷ aux),
            aux_size executable interpreter,
          )
          (omega arith),
    )
  where
    aux_size : (e : Loaded) (i : Option Loaded) → length (auxiliary e i) ≡ auxsize
    aux_size e i = unfold auxiliary in refl
