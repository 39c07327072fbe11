-- ===== src/Interix.antt =====
-- The memory calls of Interix, which src/syscalls/mmap.cc stands on: mmap, munmap, pread, fstat,
-- msync and memory itself. They are not part of the program, so they are the fields of a record
-- that the model takes as a parameter; the laws that a theorem needs are hypotheses of it.
use lbw.Prelude.{ℕ, Bool, List, Option}
use lbw.Prelude.Results.{Errno}

-- The arguments with which a file is mapped: `shared`, `w` and `x` give its flags and protection.
pub record FileMapping : Type 0 where
  pub fd : ℕ
  pub offset : ℕ
  pub shared : Bool
  pub w : Bool
  pub x : Bool

pub record Interix : Type 1 where
  -- The address space and what the kernel keeps beside it.
  pub Memory : Type 0
  -- mmap(address, length, rwx, MAP_FIXED | MAP_PRIVATE | MAP_ANONYMOUS, -1, 0): the address that
  -- it returns, or none for MAP_FAILED.
  pub mmap_anonymous : ℕ → ℕ → Memory → Option ℕ × Memory
  -- mmap(address, length, prot, MAP_FIXED | ..., fd, offset)
  pub mmap_file : ℕ → ℕ → FileMapping → Memory → Option ℕ × Memory
  -- munmap(address, length): whether it returns 0.
  pub munmap : ℕ → ℕ → Memory → Bool × Memory
  -- The bytes from an address on, and a write of bytes to an address.
  pub read : ℕ → ℕ → Memory → List ℕ
  pub write : ℕ → List ℕ → Memory → Memory
  -- pread(fd, address, length, offset): none where it returns -1.
  pub pread : ℕ → ℕ → ℕ → ℕ → Memory → Option ℕ × Memory
  -- st_size of fstat(fd), as u32.
  pub file_size : ℕ → Memory → ℕ
  -- msync(address, length, flags): whether it returns -1.
  pub msync : ℕ → ℕ → ℕ → Memory → Bool × Memory
  pub last_errno : Memory → Errno
  -- MS_ASYNC, MS_SYNC and MS_INVALIDATE of Interix.
  pub ms_async : ℕ
  pub ms_sync : ℕ
  pub ms_invalidate : ℕ
