-- ===== src/MemOp.antt =====
-- src/MemOp.h: aligning and splitting 32-bit addresses. `SIZE` is a power of two.
pub mod Laws
use lbw.Prelude.{ℕ, ◌+◌, ◌-◌, ◌%◌, ◌^◌, Bool, bit_and, ◌==◌}

-- The values of u32.
abbrev pub u32_mod : ℕ
u32_mod = 2 ^ 32

-- u32 a + b, and ~a.
abbrev pub add32 : ℕ → ℕ → ℕ
add32 a b = (a + b) % u32_mod

abbrev pub not32 : ℕ → ℕ
not32 a = u32_mod - 1 - a

-- (u32)address & ~(SIZE-1)
unfoldable pub align : ℕ → ℕ → ℕ
align size address = bit_and address (not32 (size - 1))

-- ((u32)address + (SIZE-1)) & ~(SIZE-1)
unfoldable pub align_up : ℕ → ℕ → ℕ
align_up size address = bit_and (add32 address (size - 1)) (not32 (size - 1))

-- (u32)address & (SIZE-1)
unfoldable pub offset : ℕ → ℕ → ℕ
offset size address = bit_and address (size - 1)

unfoldable pub aligned : ℕ → ℕ → Bool
unfolding offset
aligned size address = offset size address == 0
