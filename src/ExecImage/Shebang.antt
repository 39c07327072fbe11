-- ===== src/ExecImage/Shebang.antt =====
-- src/exec/exec.cc, shell_exec: what the parser of the first line of a script takes for the
-- interpreter and its argument, and when it stays within its buffer.
use lbw.Prelude.{
  ℕ, ◌≡◌, refl, true, false, not, ◌&&◌, [], ◌∷◌, ◌++◌, Option, none, some, arith, ◌==◌, Bool-cases,
  inl, inr, ◌⊎◌, ap, ◌∙◌, subst,
}
use lbw.Prelude.Results.{ok, fault, and_then, out_of_bounds}
use lbw.Prelude.Flags.{All}
use lbw.Prelude.Text.{Bytes}
use lbw.ExecImage.{
  isterm, issep, skip_separators, skip_blanks, word, argument_at, argument_after, non_null,
  parse_shebang,
}

abbrev pub IsSeparator : ℕ → Type 0
IsSeparator c = issep c ≡ true

abbrev pub IsBlank : ℕ → Type 0
IsBlank c = (issep c && not (isterm c)) ≡ true

abbrev pub IsLetter : ℕ → Type 0
IsLetter c = issep c ≡ false

-- The buffer ends in the 0 that shell_exec puts there.
abbrev pub zero_ended : Bytes → Bytes
zero_ended cs = cs ++ 0 ∷ []

-- What a first line says. Separators, of which the end of a line is one, may stand before the
-- interpreter; its argument, if there is one, follows on the same line.
pub data Says (b : Bytes) : Bytes → Option Bytes → Type 0 where
  alone :
      {c : ℕ} {cs : Bytes} (seps : Bytes) (t : ℕ) (rest : Bytes)
      → b ≡ seps ++ ((c ∷ cs) ++ t ∷ rest)
      → All IsSeparator seps
      → All IsLetter (c ∷ cs)
      → isterm t ≡ true
      → Says b (c ∷ cs) none
  blanks_only :
      {c : ℕ} {cs : Bytes} (seps : Bytes) (t : ℕ) (blanks : Bytes) (u : ℕ) (rest : Bytes)
      → b ≡ seps ++ ((c ∷ cs) ++ t ∷ (blanks ++ u ∷ rest))
      → All IsSeparator seps
      → All IsLetter (c ∷ cs)
      → IsBlank t
      → All IsBlank blanks
      → isterm u ≡ true
      → Says b (c ∷ cs) none
  with_argument :
      {c d : ℕ} {cs ds : Bytes} (seps : Bytes) (t : ℕ) (blanks : Bytes) (u : ℕ) (rest : Bytes)
      → b ≡ seps ++ ((c ∷ cs) ++ t ∷ (blanks ++ ((d ∷ ds) ++ u ∷ rest)))
      → All IsSeparator seps
      → All IsLetter (c ∷ cs)
      → IsBlank t
      → All IsBlank blanks
      → All IsLetter (d ∷ ds)
      → IsSeparator u
      → Says b (c ∷ cs) (some (d ∷ ds))

-- The loops, over a part of the buffer that ends in 0.
record Skipped (cs : Bytes) : Type 0 where
  seps : Bytes
  c : ℕ
  rest : Bytes
  all : All IsSeparator seps
  letter : IsLetter c
  whole : zero_ended cs ≡ seps ++ zero_ended (c ∷ rest)
  found : skip_separators (zero_ended cs) ≡ ok (zero_ended (c ∷ rest))

skip_separators_lem :
    (cs : Bytes)
    → (All IsSeparator cs × (skip_separators (zero_ended cs) ≡ fault out_of_bounds)) ⊎ Skipped cs
unfolding skip_separators
skip_separators_lem [] = inl (tt, refl)
skip_separators_lem (c ∷ cs) = elim (Bool-cases (issep c)) [
  | inl e ↦ elim (skip_separators_lem cs) [
    | inl (a, f) ↦ inl ((e, a), rw (e, f))
    | inr s ↦ inr (record {
      seps = c ∷ s.seps;
      c = s.c;
      rest = s.rest;
      all = (e, s.all);
      letter = s.letter;
      whole = ap (◌∷◌ c) s.whole;
      found = rw e s.found;
    })
  ]
  | inr e ↦
      inr (record { seps = []; c = c; rest = cs; all = tt; letter = e; whole = refl; found = rw e })
]

record Word (cs : Bytes) : Type 0 where
  letters : Bytes
  t : ℕ
  rest : Bytes
  all : All IsLetter letters
  stop : IsSeparator t
  whole : zero_ended cs ≡ letters ++ t ∷ rest
  found : word (zero_ended cs) ≡ ok (letters, t ∷ rest)
  ended : ((t ≡ 0) × (rest ≡ [])) ⊎ ((more : Bytes) × (rest ≡ zero_ended more))

word_lem : (cs : Bytes) → Word cs
unfolding word
word_lem [] = record {
  letters = [];
  t = 0;
  rest = [];
  all = tt;
  stop = refl;
  whole = refl;
  found = refl;
  ended = inl (refl, refl);
}
word_lem (c ∷ cs) = elim (Bool-cases (issep c)) [
  | inl e ↦ record {
    letters = [];
    t = c;
    rest = zero_ended cs;
    all = tt;
    stop = e;
    whole = refl;
    found = rw e;
    ended = inr (cs, refl);
  }
  | inr e ↦ longer e (word_lem cs)
]
  where
    longer : issep c ≡ false → Word cs → Word (c ∷ cs)
    longer e w = record {
      letters = c ∷ w.letters;
      t = w.t;
      rest = w.rest;
      all = (e, w.all);
      stop = w.stop;
      whole = ap (◌∷◌ c) w.whole;
      found = rw (e, w.found);
      ended = w.ended;
    }

record Blanks (cs : Bytes) : Type 0 where
  blanks : Bytes
  u : ℕ
  rest : Bytes
  all : All IsBlank blanks
  other : (issep u && not (isterm u)) ≡ false
  whole : zero_ended cs ≡ blanks ++ u ∷ rest
  found : skip_blanks (zero_ended cs) ≡ ok (u ∷ rest)
  ended : ((u ≡ 0) × (rest ≡ [])) ⊎ ((more : Bytes) × (rest ≡ zero_ended more))

skip_blanks_lem : (cs : Bytes) → Blanks cs
unfolding skip_blanks
skip_blanks_lem [] = record {
  blanks = [];
  u = 0;
  rest = [];
  all = tt;
  other = refl;
  whole = refl;
  found = refl;
  ended = inl (refl, refl);
}
skip_blanks_lem (c ∷ cs) = elim (Bool-cases (issep c && not (isterm c))) [
  | inl e ↦ longer e (skip_blanks_lem cs)
  | inr e ↦ record {
    blanks = [];
    u = c;
    rest = zero_ended cs;
    all = tt;
    other = e;
    whole = refl;
    found = rw e;
    ended = inr (cs, refl);
  }
]
  where
    longer : (issep c && not (isterm c)) ≡ true → Blanks cs → Blanks (c ∷ cs)
    longer e w = record {
      blanks = c ∷ w.blanks;
      u = w.u;
      rest = w.rest;
      all = (e, w.all);
      other = w.other;
      whole = ap (◌∷◌ c) w.whole;
      found = rw (e, w.found);
      ended = w.ended;
    }

not_zero : (u : ℕ) → u ≡ 0 → isterm u ≡ false → ⊥
not_zero u z e = cc (subst (λ x. isterm x ≡ false) z e)

-- From the end of the interpreter on.
module _ (b seps : Bytes) (c : ℕ) (cs : Bytes) (separated : All IsSeparator seps)
    (letters : All IsLetter (c ∷ cs)) where
  -- The argument's word, or the end of the line, behind the blanks.
  at_argument :
      (t u : ℕ) (blanks rest : Bytes)
      → IsBlank t
      → All IsBlank blanks
      → (issep u && not (isterm u)) ≡ false
      → b ≡ seps ++ ((c ∷ cs) ++ t ∷ (blanks ++ u ∷ rest))
      → ((u ≡ 0) × (rest ≡ [])) ⊎ ((more : Bytes) × (rest ≡ zero_ended more))
      → (a : Option Bytes) × (argument_at (u ∷ rest) ≡ ok a) × Says b (c ∷ cs) a
  at_argument t u blanks rest bt all other whole ended = elim (Bool-cases (isterm u)) [
    | inl e ↦ (none, rw e, Says.blanks_only seps t blanks u rest whole separated letters bt all e)
    | inr e ↦ elim ended [
      | inl (z, n) ↦ absurd (not_zero u z e)
      | inr (more, r) ↦ argument e more r (word_lem more)
    ]
  ]
    where
      letter : isterm u ≡ false → IsLetter u
      letter e = ground (arith, other)

      argument :
          isterm u ≡ false
          → (more : Bytes) → rest ≡ zero_ended more
          → Word more
          → (a : Option Bytes) × (argument_at (u ∷ rest) ≡ ok a) × Says b (c ∷ cs) a
      argument e more r w = (
        some (u ∷ w.letters),
        rw (e, r, w.found),
        Says.with_argument seps t blanks w.t w.rest
            (whole ∙ ap (λ x. seps ++ ((c ∷ cs) ++ t ∷ (blanks ++ u ∷ x))) (r ∙ w.whole)) separated
            letters bt all (letter e, w.all) w.stop,
      )

  at_end :
      (t : ℕ) (rest : Bytes)
      → IsSeparator t
      → b ≡ seps ++ ((c ∷ cs) ++ t ∷ rest)
      → ((t ≡ 0) × (rest ≡ [])) ⊎ ((more : Bytes) × (rest ≡ zero_ended more))
      → (a : Option Bytes) × (argument_after (t ∷ rest) ≡ ok a) × Says b (c ∷ cs) a
  at_end t rest stop whole ended = elim (Bool-cases (isterm t)) [
    | inl e ↦ (none, rw e, Says.alone seps t rest whole separated letters e)
    | inr e ↦ elim ended [
      | inl (z, n) ↦ absurd (not_zero t z e)
      | inr (more, r) ↦ blanks e more r (skip_blanks_lem more)
    ]
  ]
    where
      blanks :
          isterm t ≡ false
          → (more : Bytes) → rest ≡ zero_ended more
          → Blanks more
          → (a : Option Bytes) × (argument_after (t ∷ rest) ≡ ok a) × Says b (c ∷ cs) a
      blanks e more r w =
          let (a, found, says) =
            at_argument t w.u w.blanks w.rest (rw (stop, e)) w.all w.other
              (whole ∙ ap (λ x. seps ++ ((c ∷ cs) ++ t ∷ x)) (r ∙ w.whole)) w.ended in
          (a, rw (e, r, w.found) found, says)

-- Over every buffer that ends in 0: if it has only separators, the parser reads on behind its end.
-- Otherwise it stays within the buffer and succeeds, and gives exactly what the line says: the first
-- run of letters as the interpreter, wherever that stands, and the next run of letters on the same
-- line, if there is one, as its argument.
pub parse_shebang_lem :
    (cs : Bytes)
    → (All IsSeparator cs × (parse_shebang (zero_ended cs) ≡ fault out_of_bounds))
      ⊎ ((w : Bytes) × (a : Option Bytes) × (parse_shebang (zero_ended cs) ≡ ok (w, a))
          × Says (zero_ended cs) w a)
unfolding parse_shebang
parse_shebang_lem cs = elim (skip_separators_lem cs) [
  | inl (all, f) ↦ inl (all, rw f)
  | inr s ↦ inr (found s (word_lem s.rest))
]
  where
    found :
        (s : Skipped cs)
        → Word s.rest
        → (w : Bytes) × (a : Option Bytes) × (parse_shebang (zero_ended cs) ≡ ok (w, a))
          × Says (zero_ended cs) w a
    found s w =
        let (a, argument, says) =
          at_end (zero_ended cs) s.seps s.c w.letters s.all (s.letter, w.all) w.t w.rest w.stop
            (s.whole ∙ ap (λ x. s.seps ++ s.c ∷ x) w.whole) w.ended in
        (
          s.c ∷ w.letters,
          a,
          rw (s.found, and_then, non_null, not_null s) (rw (w.found, and_then) (rw argument)),
          says,
        )
      where
        not_null : (s : Skipped cs) → (s.c == 0) ≡ false
        not_null s = ground (arith, s.letter)
