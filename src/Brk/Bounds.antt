-- ===== src/Brk/Bounds.antt =====
-- src/syscalls/memory.cc: where the break lies, and what becomes of a buffer that could not be
-- mapped.
use lbw.Prelude.{ℕ, ◌+◌, ◌≤◌, ◌<◌, ◌≡◌, none, some, arith, ◌==◌, leb, if◌then◌else◌}
use lbw.MemOp.{u32_mod}
use lbw.Brk.{Brk, brk_size, map_failed, sys_brk, clear_brk}

-- The buffer is there, does not wrap around, and the break lies in it or at its end.
pub record IsValid (b : ℕ) (s : Brk) : Type 0 where
  pub buffer : s.brkbuf ≡ some b
  pub fits : b + brk_size < u32_mod
  pub above : b ≤ s.pos
  pub below : s.pos ≤ b + brk_size

-- With the buffer mapped, every request returns the new break and keeps it within the buffer; a
-- request for 0 leaves it, one for an address in the buffer sets it there, and one below or above
-- sets it to the end of the buffer that is nearer.
pub sys_brk-IsValid :
    (result b addr : ℕ) (s : Brk)
    → IsValid b s
    → IsValid b (sys_brk result addr s).1
      × ((sys_brk result addr s).0 ≡ (sys_brk result addr s).1.pos)
      × ((sys_brk result addr s).0 ≡ (
          if addr == 0
          then s.pos
          else if leb addr b
          then b
          else if leb addr (b + brk_size)
          then addr
          else b + brk_size))
unfolding sys_brk
sys_brk-IsValid result b addr s v = ground arith

-- When the first mapping fails, sys_brk does not report it: every request, then and later, returns
-- the address 0xffffffff.
sys_brk-failed :
    (result addr later : ℕ) (s : Brk)
    → s.brkbuf ≡ none
    → addr < u32_mod
    → later < u32_mod
    → ((sys_brk map_failed addr s).0 ≡ map_failed)
      × ((sys_brk result later (sys_brk map_failed addr s).1).0 ≡ map_failed)
unfolding sys_brk
sys_brk-failed result addr later s e h k = ground arith

-- ClearBrk puts the break back to the bottom of the buffer.
clear_brk-IsValid :
    (b : ℕ) (s : Brk) → IsValid b s → IsValid b (clear_brk s) × ((clear_brk s).pos ≡ b)
unfolding clear_brk
clear_brk-IsValid b s v = ground arith
