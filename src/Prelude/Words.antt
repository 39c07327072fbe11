-- ===== src/Prelude/Words.antt =====
-- Bytes in memory: a prefix of a given length, and 32-bit words, whose lowest byte comes first.
use Prim.Native.Nat.{ℕ, zero, suc, ◌+◌, ◌*◌, ◌/◌, ◌%◌, ◌<◌}
use mathlib.Core.Path.{◌≡◌, refl}
use mathlib.Core.Bool.{Bool, true, ◌&&◌}
use mathlib.Core.Option.{Option, none, some}
use mathlib.Core.List.{[], ◌∷◌, ◌++◌}
use native.Mathlib.Omega.{arith}
use lbw.Prelude.Text.{Bytes}

abbrev pub behind : ℕ → Option (Bytes × Bytes) → Option (Bytes × Bytes)
behind c none = none
behind c (some (a, b)) = some (c ∷ a, b)

-- The first n bytes, if there are so many, and the rest.
abbrev pub cut : ℕ → Bytes → Option (Bytes × Bytes)
cut zero cs = some ([], cs)
cut (suc n) [] = none
cut (suc n) (c ∷ cs) = behind c (cut n cs)

abbrev pub Appends : ℕ → Bytes → Type 0
Appends n cs = (a b more : Bytes) → cut n cs ≡ some (a, b) → cut n (a ++ more) ≡ some (a, more)

Appends-behind : (n c : ℕ) (cs : Bytes) → Appends n cs → Appends (suc n) (c ∷ cs)
Appends-behind n c cs rec a b more h = inner (cut n cs) refl h
  where
    inner :
        (r : Option (Bytes × Bytes))
        → cut n cs ≡ r
        → behind c r ≡ some (a, b)
        → cut (suc n) (a ++ more) ≡ some (a, more)
    inner none e k = cc
    inner (some (a', b')) e k = let same : a ≡ c ∷ a' = cc in rw same (rw (rec a' b' more e) refl)

pub cut-append : (n : ℕ) (cs : Bytes) → Appends n cs
cut-append zero cs = λ a b more h. let same : a ≡ [] = cc in rw same refl
cut-append (suc n) [] = λ a b more h. cc
cut-append (suc n) (c ∷ cs) = Appends-behind n c cs (cut-append n cs)

-- The bytes of a word, and the word that four bytes are.
abbrev pub bytes32 : ℕ → Bytes
bytes32 n = n % 256 ∷ n / 256 % 256 ∷ n / 65536 % 256 ∷ n / 16777216 % 256 ∷ []

abbrev pub word32 : ℕ → ℕ → ℕ → ℕ → ℕ
word32 a b c d = a + 256 * b + 65536 * c + 16777216 * d

pub word32-bytes32 :
    (n : ℕ)
    → word32 (n % 256) (n / 256 % 256) (n / 65536 % 256) (n / 16777216 % 256) ≡ n % 4294967296
word32-bytes32 n = omega arith

-- Every number below a bound.
unfoldable pub all_below : ℕ → (ℕ → Bool) → Bool
all_below zero p = true
all_below (suc n) p = p n && all_below n p

pub all_below_lem : (n : ℕ) (p : ℕ → Bool) (x : ℕ) → all_below n p ≡ true → x < n → p x ≡ true
unfolding all_below
all_below_lem zero p x h lt = absurd (omega arith)
all_below_lem (suc n) p x h lt = ground (arith, all_below_lem n p x)
