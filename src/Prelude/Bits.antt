-- ===== src/Prelude/Bits.antt =====
-- Laws of `bit_and` and `bit_or` at variables, from the digit recursion of the native operations.
use Prim.Native.Nat.{
  ℕ, zero, suc, ◌+◌, ◌-◌, ◌*◌, ◌/◌, ◌%◌, ◌^◌, ◌≤◌, ◌<◌, min, max, bit_and, bit_or, digits,
  bit_and-bitwise, bit_or-bitwise,
}
use mathlib.Core.Path.{◌≡◌, refl, ap, ap₂, ◌∙◌}
use native.Mathlib.Omega.{arith}
use native.Mathlib.Nat.{pow-suc, one-le-pow, add-mul-mod_self_left, mod-eq_of_lt}

-- The recursion on digits does not depend on its fuel, once that covers the first number.
module _ (rest : ℕ → ℕ) (digit : ℕ → ℕ → ℕ) where
  enough_fuel : (a b n m : ℕ) → a ≤ n → a ≤ m → digits rest digit n a b ≡ digits rest digit m a b
  enough_fuel zero b zero zero p q = refl
  enough_fuel zero b zero (suc m) p q = refl
  enough_fuel zero b (suc n) zero p q = refl
  enough_fuel zero b (suc n) (suc m) p q = refl
  enough_fuel (suc a) b zero m p q = absurd (omega arith)
  enough_fuel (suc a) b (suc n) zero p q = absurd (omega arith)
  enough_fuel (suc a) b (suc n) (suc m) p q =
      rw (enough_fuel (suc a / 2) (b / 2) n m (omega arith) (omega arith))

pub and_step : (a b : ℕ) → bit_and a b ≡ bit_and (a / 2) (b / 2) * 2 + min (a % 2) (b % 2)
and_step zero b = simp bit_and-bitwise (omega arith)
and_step (suc a) b = simp bit_and-bitwise (
    omega (
      arith,
      enough_fuel (λ y. 0) min (suc a / 2) (b / 2) a (suc a / 2) (omega arith) (omega arith),
    ))

pub or_step : (a b : ℕ) → bit_or a b ≡ bit_or (a / 2) (b / 2) * 2 + max (a % 2) (b % 2)
or_step zero b = simp bit_or-bitwise (omega arith)
or_step (suc a) b = simp bit_or-bitwise (
    omega (
      arith,
      enough_fuel (λ y. y) max (suc a / 2) (b / 2) a (suc a / 2) (omega arith) (omega arith),
    ))

pub and-zero-left : (b : ℕ) → bit_and 0 b ≡ 0
and-zero-left b = bit_and-bitwise 0 b

pub or-zero-left : (b : ℕ) → bit_or 0 b ≡ b
or-zero-left b = bit_or-bitwise 0 b

and-zero_fuel : (n a : ℕ) → a ≤ n → bit_and a 0 ≡ 0
and-zero_fuel n zero h = and-zero-left 0
and-zero_fuel zero (suc a) h = absurd (omega arith)
and-zero_fuel (suc n) (suc a) h =
    omega (arith, and_step (suc a) 0, and-zero_fuel n (suc a / 2) (omega arith))

pub and-zero : (a : ℕ) → bit_and a 0 ≡ 0
and-zero a = and-zero_fuel a a (omega arith)

half_ones : (k : ℕ) → (2 ^ suc k - 1) / 2 ≡ 2 ^ k - 1
half_ones k = omega (arith, pow-suc 2 k)

low_ones : (k : ℕ) → (2 ^ suc k - 1) % 2 ≡ 1
low_ones k = omega (arith, pow-suc 2 k, one-le-pow k 2 (omega arith))

mod-double : (m a : ℕ) → 1 ≤ m → a % (m * 2) ≡ a / 2 % m * 2 + a % 2
mod-double m a h =
    ap (λ t. t % (m * 2)) split
    ∙ add-mul-mod_self_left (a / 2 % m * 2 + a % 2) (m * 2) (a / 2 / m)
    ∙ mod-eq_of_lt (omega arith)
  where
    split : a ≡ (a / 2 % m * 2 + a % 2) + m * 2 * (a / 2 / m)
    split = grind arith

-- A mask of k ones is the remainder by 2 ^ k.
pub and-ones : (k a : ℕ) → bit_and a (2 ^ k - 1) ≡ a % 2 ^ k
and-ones zero a = omega (arith, and-zero a)
and-ones (suc k) a = omega (
  arith,
  pow-suc 2 k,
  one-le-pow k 2 (omega arith),
  and_step a (2 ^ suc k - 1),
  ap (bit_and (a / 2)) (half_ones k),
  low_ones k,
  ap (λ t. a % t) (pow-suc 2 k),
  and-ones k (a / 2),
  mod-double (2 ^ k) a (one-le-pow k 2 (omega arith)),
)

-- A mask and its complement split a word of k bits.
pub and-complement : (k a m n : ℕ) → a < 2 ^ k → m + n + 1 ≡ 2 ^ k → bit_and a m + bit_and a n ≡ a
and-complement zero a m n h e =
    let z : a ≡ 0 = omega arith in rw z (omega (arith, and-zero-left m, and-zero-left n))
and-complement (suc k) a m n h e = omega (
  arith,
  pow-suc 2 k,
  and_step a m,
  and_step a n,
  and-complement k (a / 2) (m / 2) (n / 2) (omega (arith, pow-suc 2 k))
      (omega (arith, pow-suc 2 k)),
)

or_half : (a b : ℕ) → bit_or a b / 2 ≡ bit_or (a / 2) (b / 2)
or_half a b = omega (arith, or_step a b)

and_half : (a b : ℕ) → bit_and a b / 2 ≡ bit_and (a / 2) (b / 2)
and_half a b = omega (arith, and_step a b)

and-or_fuel :
    (f x y z : ℕ) → x ≤ f → y ≤ f → bit_and (bit_or x y) z ≡ bit_or (bit_and x z) (bit_and y z)
and-or_fuel f zero y z p q = rw (or-zero-left y, and-zero-left z, or-zero-left (bit_and y z))
and-or_fuel zero (suc x) y z p q = absurd (omega arith)
and-or_fuel (suc f) (suc x) y z p q = omega (
  arith,
  and_step (bit_or (suc x) y) z,
  or_step (suc x) y,
  or_step (bit_and (suc x) z) (bit_and y z),
  and_step (suc x) z,
  and_step y z,
  ap (λ t. bit_and t (z / 2)) (or_half (suc x) y),
  ap₂ bit_or (and_half (suc x) z) (and_half y z),
  and-or_fuel f (suc x / 2) (y / 2) (z / 2) (omega arith) (omega arith),
)

pub and-or : (x y z : ℕ) → bit_and (bit_or x y) z ≡ bit_or (bit_and x z) (bit_and y z)
and-or x y z = and-or_fuel (x + y) x y z (omega arith) (omega arith)

or-eq-zero_fuel : (f x y : ℕ) → x ≤ f → bit_or x y ≡ 0 → (x ≡ 0) × (y ≡ 0)
or-eq-zero_fuel f zero y p e = omega (arith, or-zero-left y)
or-eq-zero_fuel zero (suc x) y p e = absurd (omega arith)
or-eq-zero_fuel (suc f) (suc x) y p e = omega (
  arith,
  or_step (suc x) y,
  or-eq-zero_fuel f (suc x / 2) (y / 2) (omega arith) (omega (arith, or_step (suc x) y)),
)

pub or-eq-zero : (x y : ℕ) → bit_or x y ≡ 0 → (x ≡ 0) × (y ≡ 0)
or-eq-zero x y = or-eq-zero_fuel x x y (omega arith)

or-zero_fuel : (n a : ℕ) → a ≤ n → bit_or a 0 ≡ a
or-zero_fuel n zero h = or-zero-left 0
or-zero_fuel zero (suc a) h = absurd (omega arith)
or-zero_fuel (suc n) (suc a) h =
    omega (arith, or_step (suc a) 0, or-zero_fuel n (suc a / 2) (omega arith))

pub or-zero : (a : ℕ) → bit_or a 0 ≡ a
or-zero a = or-zero_fuel a a (omega arith)
