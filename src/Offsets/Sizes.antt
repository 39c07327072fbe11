-- ===== src/Offsets/Sizes.antt =====
-- src/filesystem/RealFD.cc and src/syscalls/fd.cc: which offsets and lengths get to Interix.
use lbw.Prelude.{none, some, ℕ, ◌+◌, ◌*◌, ◌%◌, ◌^◌, ◌≡◌, ◌≤◌, ◌<◌, refl, false, ltb, arith}
use lbw.Prelude.Results.{Errno, Result, ok, throw, efbig}
use lbw.Offsets.{extend, sys32_lseek, sys_llseek, sys_ftruncate, sys32_ftruncate64}

module _ (lseek : ℕ → ℕ → ℕ → Result ℕ) (fd : ℕ) where
  -- sys32_lseek and sys_llseek: although RealFD::Seek has its parameters in the other order, lseek
  -- gets from both the offset as its offset and whence as whence. The offset is the low word, taken
  -- as a signed one, whatever the high word of sys_llseek is. Of the position that lseek says,
  -- sys32_lseek returns the low word, and sys_llseek stores the whole and returns 0; an errno of lseek
  -- is thrown by both, and then nothing is stored.
  pub sys_llseek-sys32_lseek :
      (high low whence : ℕ)
      → low < 2 ^ 32
      → high < 2 ^ 32
      → whence < 2 ^ 32
      → ((i : ℕ)
          → lseek fd (extend low) whence ≡ ok i
          → (sys32_lseek lseek fd low whence ≡ ok (i % 2 ^ 32))
            × (sys_llseek lseek fd high low whence ≡ (ok 0, some i)))
        × ((e : Errno)
            → lseek fd (extend low) whence ≡ throw e
            → (sys32_lseek lseek fd low whence ≡ throw e)
              × (sys_llseek lseek fd high low whence ≡ (throw e, none)))
  unfolding sys32_lseek sys_llseek
  sys_llseek-sys32_lseek high low whence a b c =
      let small : whence % 2 ^ 32 ≡ whence = omega arith in
      let only : (high * 2 ^ 32 + low) % 2 ^ 64 % 2 ^ 32 ≡ low = omega arith in
      (
        λ i h. (rw small (rw h refl), rw (only, small) (rw h refl)),
        λ e h. (rw small (rw h refl), rw (only, small) (rw h refl)),
      )

module _ (ftruncate : ℕ → ℕ → Result (Unit {0})) (fd : ℕ) where
  -- sys32_ftruncate64: a length below 4 GB is passed on, as sys_ftruncate does; one below 2 ^ 63 is
  -- refused with EFBIG; and a larger one, which is negative, is passed on to Interix.
  pub sys32_ftruncate64_lem :
      (low high : ℕ)
      → low < 2 ^ 32
      → high < 2 ^ 32
      → (high ≡ 0 → sys32_ftruncate64 ftruncate fd low high ≡ ftruncate fd low)
        × (sys_ftruncate ftruncate fd low ≡ ftruncate fd low)
        × (0 < high → high < 2 ^ 31 → sys32_ftruncate64 ftruncate fd low high ≡ throw efbig)
        × (2 ^ 31 ≤ high
            → sys32_ftruncate64 ftruncate fd low high ≡ ftruncate fd (low + high * 2 ^ 32))
  unfolding sys32_ftruncate64 sys_ftruncate
  sys32_ftruncate64_lem low high a b =
      let whole : (low + high * 2 ^ 32) % 2 ^ 64 ≡ low + high * 2 ^ 32 = omega arith in
      (
        λ h.
            (let none_high : low + high * 2 ^ 32 ≡ low = omega arith in
              let test : ltb 0xffff_ffff low ≡ false = ground arith in
              rw whole (rw none_high (ground arith))),
        ground arith,
        λ h k. rw whole (ground arith),
        λ h. rw whole (ground arith),
      )
