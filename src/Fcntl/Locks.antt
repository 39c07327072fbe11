-- ===== src/Fcntl/Locks.antt =====
-- src/filesystem/RealFD_Fnctl.cc: which locks reach Interix, and how those that do not are reported.
use lbw.Prelude.{zero, suc, refl, ℕ, ◌≡◌, ◌≤◌, ◌<◌, arith, if◌then◌else◌, leb, ◌||◌, ◌^◌}
use lbw.Prelude.Results.{Errno, einval, enolck, ok, throw, fault, aborted}
use lbw.FileFlags.{OpenFlags}
use lbw.Errno.{finish}
use lbw.Errno.Results.{finish-unknown}
use lbw.Fcntl.{
  LinuxFlock, Flock, LockType, f_rdlck, f_wrlck, f_unlck, f_getfd, Files, lock_type, lock_type64,
  convert_flock, convert_flock64, fd_fcntl, real_fcntl,
}

-- The types of locks: what each number in Linux means in Interix.
pub data SameType : ℕ → LockType → Type 0 where
  same_rdlck : {n : ℕ} → n ≡ 0 → SameType n f_rdlck
  same_wrlck : {n : ℕ} → n ≡ 1 → SameType n f_wrlck
  same_unlck : {n : ℕ} → n ≡ 2 → SameType n f_unlck

-- That a lock of Interix is a given lock of Linux.
abbrev pub SameLock : LinuxFlock → Flock → Type 0
SameLock lfl f =
    SameType lfl.l_type f.i_type
    × (f.i_whence ≡ lfl.l_whence)
    × (f.i_start ≡ lfl.l_start)
    × (f.i_len ≡ lfl.l_len)
    × (f.i_pid ≡ lfl.l_pid)

-- convert, of both kinds of locks: those of the three types are converted to the same lock of
-- Interix, with its type, whence, start, length and pid, by both alike; but from 64 bits one whose
-- start or length does not fit 32 bits is refused with ENOLCK. A lock of another type is refused with
-- EINVAL by both.
pub convert_flock64_lem :
    (lfl : LinuxFlock)
    → (lfl.l_type < 3
        → (f : Flock) × SameLock lfl f
          × (convert_flock lfl ≡ ok f)
          × (convert_flock64 lfl ≡ (
              if leb (2 ^ 32) lfl.l_start || leb (2 ^ 32) lfl.l_len then throw enolck else ok f)))
      × (3 ≤ lfl.l_type → (convert_flock lfl ≡ throw einval) × (convert_flock64 lfl ≡ throw einval))
unfolding convert_flock64 convert_flock lock_type lock_type64
convert_flock64_lem lfl = (by_type lfl.l_type refl, λ h. (ground arith, ground arith))
  where
    copied : LockType → Flock
    copied t = record {
      i_type = t;
      i_whence = lfl.l_whence;
      i_start = lfl.l_start;
      i_len = lfl.l_len;
      i_pid = lfl.l_pid;
    }

    by_type :
        (n : ℕ)
        → lfl.l_type ≡ n
        → lfl.l_type < 3
        → (f : Flock) × SameLock lfl f
          × (convert_flock lfl ≡ ok f)
          × (convert_flock64 lfl
              ≡ (if leb (2 ^ 32) lfl.l_start || leb (2 ^ 32) lfl.l_len then throw enolck else ok f))
    by_type zero e h =
        (copied f_rdlck, (same_rdlck e, refl, refl, refl, refl), ground arith, ground arith)
    by_type (suc zero) e h =
        (copied f_wrlck, (same_wrlck e, refl, refl, refl, refl), ground arith, ground arith)
    by_type (suc (suc zero)) e h =
        (copied f_unlck, (same_unlck e, refl, refl, refl, refl), ground arith, ground arith)
    by_type (suc (suc (suc n))) e h = absurd (omega arith)

refused_huge :
    (lfl : LinuxFlock) → lfl.l_type < 3 → 2 ^ 32 ≤ lfl.l_start → convert_flock64 lfl ≡ throw enolck
unfolding convert_flock64 lock_type64
refused_huge lfl known huge = ground arith

module _ (c : OpenFlags) (files : Files) where
  -- A lock whose start or length does not fit 32 bits does not reach Interix: F_SETLK64 and
  -- F_SETLKW64 throw an errno that has no Linux number, so that the process ends.
  real_fcntl-huge :
      (address : ℕ) (s : files.State)
      → (files.flock64_at address).l_type < 3
      → 2 ^ 32 ≤ (files.flock64_at address).l_start
      → (real_fcntl c files 13 address s ≡ (throw enolck, s))
        × (real_fcntl c files 14 address s ≡ (throw enolck, s))
        × (finish (real_fcntl c files 13 address s).0 ≡ fault aborted)
  unfolding real_fcntl
  real_fcntl-huge address s known huge =
      let refused : convert_flock64 (files.flock64_at address) ≡ throw enolck =
        refused_huge (files.flock64_at address) known huge in
      (rw refused, rw refused, rw refused ((finish-unknown 0).1))

  -- A failure of F_GETFD is not reported: the program is told that the descriptor is closed on exec.
  real_fcntl-getfd :
      (argument : ℕ) (s s' : files.State) (e : Errno)
      → files.call f_getfd s ≡ (throw e, s')
      → finish (real_fcntl c files 1 argument s).0 ≡ ok 1
  unfolding real_fcntl fd_fcntl finish
  real_fcntl-getfd argument s s' e h = rw h
