-- ===== src/Brk.antt =====
-- src/syscalls/memory.cc: sys_brk, over one buffer of a megabyte.
pub mod Bounds
use lbw.Prelude.{ℕ, ◌+◌, ◌%◌, Option, none, some, ltb, ◌==◌, if◌then◌else◌}
use lbw.MemOp.{u32_mod, add32}

abbrev pub brk_size : ℕ
brk_size = 0x10_0000

-- MAP_FAILED, (void*) -1.
abbrev pub map_failed : ℕ
map_failed = 0xffff_ffff

-- `brkbuf` is none while it is NULL.
pub record Brk : Type 0 where
  pub brkbuf : Option ℕ
  pub pos : ℕ

unfoldable pub clear_brk : Brk → Brk
clear_brk s = elim s.brkbuf [ none ↦ record s { pos = 0 } | some b ↦ record s { pos = b } ]

-- `pos = addr`, held between the buffer's ends, of which the upper is computed in 32 bits.
unfoldable pub clamp : ℕ → ℕ → ℕ
clamp brkbuf addr =
    let top = add32 brkbuf brk_size in
    let lowered = if ltb top addr then top else addr in
    if ltb lowered brkbuf then brkbuf else lowered

-- `if (addr) { pos = ...; } return pos;`
unfoldable pub move_to : ℕ → ℕ → ℕ → ℕ × Brk
move_to b pos addr =
    if addr == 0
    then (pos, record { brkbuf = some b; pos = pos })
    else (clamp b addr, record { brkbuf = some b; pos = clamp b addr })

-- sys_brk, where `result` is what mmap returns for a new buffer. The test for MAP_FAILED is of
-- `brkbuf`, which is NULL there, so it does not fire.
unfoldable pub sys_brk : ℕ → ℕ → Brk → ℕ × Brk
unfolding clamp move_to
sys_brk result addr s = elim s.brkbuf [
  | none ↦ move_to result result addr
  | some b ↦ move_to b s.pos addr
]
