-- ===== src/Prelude/Flags.antt =====
-- Words of flags: `x & m` as a test, and the chains of `if (x & from) y |= to;` by which the
-- program copies flags between the Linux and the Interix encodings (the COPYBIT macros of
-- src/syscalls/signals.cc and src/filesystem/termios.cc, and written out elsewhere).
use Prim.Native.Nat.{ℕ, bit_and, bit_or}
use mathlib.Core.Path.{◌≡◌, refl, ap}
use mathlib.Core.Bool.{Bool, true, false, not, ◌||◌, ◌&&◌}
use mathlib.Core.Logic.{inl, inr}
use mathlib.Core.List.{List, [], ◌∷◌}
use native.Mathlib.Omega.{arith}
use lbw.Prelude.Tests.{◌==◌, if◌then◌else◌, Bool-cases}
use lbw.Prelude.Bits.{and-zero-left, and-or, or-eq-zero, or-zero, or-zero-left}

-- `if (x & m)`.
abbrev pub test : ℕ → ℕ → Bool
test x m = not (bit_and x m == 0)

pub or-eq-zero_iff : (x y : ℕ) → (bit_or x y == 0) ≡ true → (x ≡ 0) × (y ≡ 0)
or-eq-zero_iff x y h = or-eq-zero x y (ground arith)

pub test-or : (x y m : ℕ) → test (bit_or x y) m ≡ (test x m || test y m)
test-or x y m = rw and-or (pieces (bit_and x m) (bit_and y m))
  where
    pieces : (a b : ℕ) → not (bit_or a b == 0) ≡ (not (a == 0) || not (b == 0))
    pieces a b = ground (arith, or-eq-zero a b, or-zero-left b, ap (λ t. bit_or t b))

-- `if (x & from) y |= to;`
pub record Rule : Type 0 where
  pub from : ℕ
  pub to : ℕ

unfoldable pub copy_bits : List Rule → ℕ → ℕ → ℕ
copy_bits [] x y = y
copy_bits (r ∷ rs) x y = copy_bits rs x (if test x r.from then bit_or y r.to else y)

-- Whether a rule of the list that fires sets a bit of `m`.
abbrev pub fires : List Rule → ℕ → ℕ → Bool
fires [] x m = false
fires (r ∷ rs) x m = (test x r.from && test r.to m) || fires rs x m

-- A copied word has a flag exactly if it had it before or a rule sets it.
pub test-copy_bits :
    (rs : List Rule) (x y m : ℕ) → test (copy_bits rs x y) m ≡ (test y m || fires rs x m)
unfolding copy_bits
test-copy_bits [] x y m = ground arith
test-copy_bits (r ∷ rs) x y m = elim (Bool-cases (test x r.from)) [
  | inl e ↦
      rw (e, test-copy_bits rs x (bit_or y r.to) m, test-or y r.to m)
        (or_assoc (test y m) (test r.to m) (fires rs x m))
  | inr e ↦ rw (e, test-copy_bits rs x y m)
]
  where
    or_assoc : (a b c : Bool) → ((a || b) || c) ≡ (a || (b || c))
    or_assoc a b c = ground arith

module _ {ℓ} {A : Type ℓ} where
  abbrev pub All : (A → Type 0) → List A → Type 0
  All P [] = Unit
  All P (x ∷ xs) = P x × All P xs

  pub All-map : (P Q : A → Type 0) (xs : List A) → ((x : A) → P x → Q x) → All P xs → All Q xs
  All-map P Q [] f h = tt
  All-map P Q (x ∷ xs) f h = (f x h.0, All-map P Q xs f h.1)

  pub All-zip :
      (P Q R : A → Type 0) (xs : List A)
      → ((x : A) → P x → Q x → R x)
      → All P xs
      → All Q xs
      → All R xs
  All-zip P Q R [] f h k = tt
  All-zip P Q R (x ∷ xs) f h k = (f x h.0 k.0, All-zip P Q R xs f h.1 k.1)

-- The flags that a table sets are single bits that differ from one another: what the encodings
-- of flags promise of the constants that a table names.
abbrev pub Apart : List Rule → Type 0
Apart [] = Unit
Apart (r ∷ rs) =
    (test r.to r.to ≡ true)
    × All (λ s. (test r.to s.to ≡ false) × (test s.to r.to ≡ false)) rs
    × Apart rs

fires-apart : (rs : List Rule) (x m : ℕ) → All (λ s. test s.to m ≡ false) rs → fires rs x m ≡ false
fires-apart [] x m h = refl
fires-apart (r ∷ rs) x m h = ground (arith, fires-apart rs x m h.1)

-- Each rule of such a table sets its flag exactly if its source flag is there.
pub fires-own : (rs : List Rule) (x : ℕ) → Apart rs → All (λ r. fires rs x r.to ≡ test x r.from) rs
fires-own [] x h = tt
fires-own (r ∷ rs) x h = (
  ground (arith, fires-apart rs x r.to below, h.0),
  All-zip _ _ _ rs others h.1 (fires-own rs x h.2),
)
  where
    below : All (λ s. test s.to r.to ≡ false) rs
    below = All-map _ _ rs (λ s e. e.1) h.1

    others :
        (s : Rule)
        → (test r.to s.to ≡ false) × (test s.to r.to ≡ false)
        → fires rs x s.to ≡ test x s.from
        → fires (r ∷ rs) x s.to ≡ test x s.from
    others s e ih = ground (arith, ih)

-- The table for the way back, and the table that keeps the flags which a table knows.
unfoldable pub swap : List Rule → List Rule
swap [] = []
swap (r ∷ rs) = record { from = r.to; to = r.from } ∷ swap rs

unfoldable pub keep : List Rule → List Rule
keep [] = []
keep (r ∷ rs) = record { from = r.from; to = r.from } ∷ keep rs

pub copy_back :
    (rs : List Rule) (x z y : ℕ)
    → All (λ r. test z r.to ≡ test x r.from) rs
    → copy_bits (swap rs) z y ≡ copy_bits (keep rs) x y
unfolding copy_bits swap keep
copy_back [] x z y h = refl
copy_back (r ∷ rs) x z y h =
    rw (h.0, copy_bits) (copy_back rs x z (if test x r.from then bit_or y r.from else y) h.1)

-- There and back: with a start that has none of the table's target flags, exactly the flags
-- that the table knows are left.
pub copy_bits-copy_bits :
    (rs : List Rule) (x start y : ℕ)
    → Apart rs
    → All (λ r. test start r.to ≡ false) rs
    → copy_bits (swap rs) (copy_bits rs x start) y ≡ copy_bits (keep rs) x y
copy_bits-copy_bits rs x start y h clear =
    copy_back rs x (copy_bits rs x start) y (All-zip _ _ _ rs seen clear (fires-own rs x h))
  where
    seen :
        (r : Rule)
        → test start r.to ≡ false
        → fires rs x r.to ≡ test x r.from
        → test (copy_bits rs x start) r.to ≡ test x r.from
    seen r c e = rw (test-copy_bits rs x start r.to, c, e)

-- A field that no rule of a table touches is left as it was.
pub and-copy_bits :
    (rs : List Rule) (x y m : ℕ)
    → All (λ r. test r.to m ≡ false) rs
    → bit_and (copy_bits rs x y) m ≡ bit_and y m
unfolding copy_bits
and-copy_bits [] x y m h = refl
and-copy_bits (r ∷ rs) x y m h = elim (Bool-cases (test x r.from)) [
  | inl e ↦ rw (
    e,
    and-copy_bits rs x (bit_or y r.to) m h.1,
    and-or,
    test-false r.to m h.0,
    or-zero (bit_and y m),
  )
  | inr e ↦ rw (e, and-copy_bits rs x y m h.1)
]
  where
    test-false : (a m : ℕ) → test a m ≡ false → bit_and a m ≡ 0
    test-false a m e = ground arith

-- The promises as tests, for constants that are known.
abbrev pub all_clear : (Rule → Bool) → List Rule → Bool
all_clear p [] = true
all_clear p (r ∷ rs) = not (p r) && all_clear p rs

abbrev pub apart : List Rule → Bool
apart [] = true
apart (r ∷ rs) = test r.to r.to && all_clear (λ s. test r.to s.to || test s.to r.to) rs && apart rs

pub all_clear-All :
    (p : Rule → Bool) (rs : List Rule) → all_clear p rs ≡ true → All (λ r. p r ≡ false) rs
all_clear-All p [] h = tt
all_clear-All p (r ∷ rs) h = (ground arith, all_clear-All p rs (ground arith))

pub apart-Apart : (rs : List Rule) → apart rs ≡ true → Apart rs
apart-Apart [] h = tt
apart-Apart (r ∷ rs) h = (
  ground arith,
  All-map _ _ rs (λ s e. (ground arith, ground arith))
      (all_clear-All (λ s. test r.to s.to || test s.to r.to) rs (ground arith)),
  apart-Apart rs (ground arith),
)

pub test-zero : (m : ℕ) → test 0 m ≡ false
test-zero m = rw (and-zero-left m)

-- A word that a table fills has each of its flags exactly if the source flag was there.
pub copy_bits-Apart :
    (rs : List Rule) (x : ℕ) → Apart rs → All (λ r. test (copy_bits rs x 0) r.to ≡ test x r.from) rs
copy_bits-Apart rs x h = All-map _ _ rs seen (fires-own rs x h)
  where
    seen :
        (r : Rule) → fires rs x r.to ≡ test x r.from → test (copy_bits rs x 0) r.to ≡ test x r.from
    seen r e = rw (test-copy_bits rs x 0 r.to, test-zero r.to, e)
