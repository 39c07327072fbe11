-- ===== src/MemOp/Laws.antt =====
-- src/MemOp.h: what the address operations compute, for every power of two as SIZE.
use lbw.Prelude.{ℕ, ◌+◌, ◌-◌, ◌*◌, ◌/◌, ◌%◌, ◌^◌, ◌≤◌, ◌<◌, ◌≡◌, arith, ◌==◌, ◌∙◌, ap}
use lbw.Prelude.Bits.{and-ones, and-complement}
use native.Mathlib.Nat.{one-le-pow, pow-le-pow_right, mul-mod_right, mod-eq_of_lt, mod-lt}
use lbw.MemOp.{align, align_up, offset, aligned, add32, not32, u32_mod}

pub offset-eq-mod : (k a : ℕ) → offset (2 ^ k) a ≡ a % 2 ^ k
unfolding offset
offset-eq-mod k a = and-ones k a

power_bounds : (k : ℕ) → k ≤ 32 → (1 ≤ 2 ^ k) × (2 ^ k ≤ u32_mod)
power_bounds k hk = (one-le-pow k 2 (omega arith), pow-le-pow_right (omega arith) hk)

pub align-add-offset : (k a : ℕ) → k ≤ 32 → a < u32_mod → align (2 ^ k) a + offset (2 ^ k) a ≡ a
unfolding align offset
align-add-offset k a hk ha =
    and-complement 32 a (not32 (2 ^ k - 1)) (2 ^ k - 1) ha (omega (arith, power_bounds k hk))

rounded_down : (m a : ℕ) → (a - a % m) % m ≡ 0
rounded_down m a = ap (λ t. t % m) multiple ∙ mul-mod_right m (a / m)
  where
    multiple : a - a % m ≡ m * (a / m)
    multiple = omega arith

-- Align rounds down to a multiple of SIZE, Offset is the distance rounded off, and the two
-- together give the address back.
pub align_lem :
    (k a : ℕ)
    → k ≤ 32
    → a < u32_mod
    → (align (2 ^ k) a ≡ a - a % 2 ^ k)
      × (align (2 ^ k) a % 2 ^ k ≡ 0)
      × (align (2 ^ k) a + offset (2 ^ k) a ≡ a)
align_lem k a hk ha =
    let whole = align-add-offset k a hk ha in
    let down : align (2 ^ k) a ≡ a - a % 2 ^ k = omega (arith, whole, offset-eq-mod k a) in
    (down, rw down (rounded_down (2 ^ k) a), whole)

-- Aligned says whether SIZE divides the address.
pub aligned-eq : (k a : ℕ) → aligned (2 ^ k) a ≡ (a % 2 ^ k == 0)
unfolding aligned
aligned-eq k a = rw offset-eq-mod

-- AlignUp rounds up to the next multiple of SIZE, if that does not wrap around 32 bits.
pub align_up_lem :
    (k a : ℕ)
    → k ≤ 32
    → a + (2 ^ k - 1) < u32_mod
    → (a ≤ align_up (2 ^ k) a) × (align_up (2 ^ k) a < a + 2 ^ k) × (align_up (2 ^ k) a % 2 ^ k ≡ 0)
unfolding align_up align
align_up_lem k a hk ha =
    let exact : add32 a (2 ^ k - 1) ≡ a + (2 ^ k - 1) = mod-eq_of_lt ha in
    let parts = align_lem k (a + (2 ^ k - 1)) hk ha in
    let rest = mod-lt (a + (2 ^ k - 1)) (power_bounds k hk).0 in
    rw exact (
      omega (arith, parts.0, power_bounds k hk, rest),
      omega (arith, parts.0, rest, power_bounds k hk),
      parts.1,
    )
