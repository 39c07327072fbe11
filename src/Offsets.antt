-- ===== src/Offsets.antt =====
-- src/filesystem/RealFD.cc, Seek and Truncate, and the calls of src/syscalls/fd.cc that use them, once
-- FD::Get has found the object. Words are numbers below 2 ^ 32, and an int64_t is one below 2 ^ 64.
pub mod Sizes
use lbw.Prelude.{
  ℕ, ◌+◌, ◌-◌, ◌*◌, ◌%◌, ◌^◌, Bool, true, false, ◌&&◌, Option, none, some, ltb, if◌then◌else◌,
}
use lbw.Prelude.Results.{Result, ok, throw, fault, and_then, efbig}

-- An int as an int64_t or an off_t.
abbrev pub extend : ℕ → ℕ
extend n = if ltb n 0x8000_0000 then n else n + 0xffff_ffff_0000_0000

-- The call of Interix, from the descriptor, the offset and whence.
module _ (lseek : ℕ → ℕ → ℕ → Result ℕ) where
  -- RealFD::Seek, from an int and an int64_t, which it calls whence and offset, and passes on in this
  -- order.
  unfoldable pub seek : ℕ → ℕ → ℕ → Result ℕ
  seek fd whence offset = lseek fd (extend whence) (offset % 2 ^ 32)

  -- The calls put the offset first. A system call returns an int32_t.
  unfoldable pub sys32_lseek : ℕ → ℕ → ℕ → Result ℕ
  unfolding seek
  sys32_lseek fd offset whence = and_then (seek fd offset whence) (λ i. ok (i % 2 ^ 32))

  -- What sys_llseek returns, and what it stores at its argument `result`, if it does.
  abbrev pub stored : Result ℕ → Result ℕ × Option ℕ
  stored (ok i) = (ok 0, some i)
  stored (throw e) = (throw e, none)
  stored (fault x) = (fault x, none)

  unfoldable pub sys_llseek : ℕ → ℕ → ℕ → ℕ → Result ℕ × Option ℕ
  unfolding seek
  sys_llseek fd high low whence =
      let offset = (high * 2 ^ 32 + low) % 2 ^ 64 in stored (seek fd (offset % 2 ^ 32) whence)

-- The call of Interix, from the descriptor and the length.
module _ (ftruncate : ℕ → ℕ → Result (Unit {0})) where
  -- RealFD::Truncate
  unfoldable pub truncate : ℕ → ℕ → Result (Unit {0})
  truncate fd offset =
      if ltb offset 0x8000_0000_0000_0000 && ltb 0xffff_ffff offset
      then throw efbig
      else ftruncate fd offset

  unfoldable pub sys_ftruncate : ℕ → ℕ → Result (Unit {0})
  unfolding truncate
  sys_ftruncate fd length = truncate fd length

  unfoldable pub sys32_ftruncate64 : ℕ → ℕ → ℕ → Result (Unit {0})
  unfolding truncate
  sys32_ftruncate64 fd low high = truncate fd ((low + high * 2 ^ 32) % 2 ^ 64)
