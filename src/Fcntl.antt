-- ===== src/Fcntl.antt =====
-- src/filesystem/RealFD_Fnctl.cc, and Dup and Fcntl of src/filesystem/FD.cc: fcntl on a file of
-- Interix, with its locks.
pub mod Locks
use lbw.Prelude.{ℕ, ◌-◌, Bool, List, ◌||◌, ltb, bit_and, ◌==◌, if◌then◌else◌}
use lbw.Prelude.Results.{einval, enolck, Result, ok, throw, fault, aborted, Exec, and_then}
use lbw.MemOp.{u32_mod}
use lbw.FileFlags.{OpenFlags, file_flags_i2l, file_flags_l2i}

-- struct linux_flock and struct linux_flock64, which differ in the width of l_start and l_len.
pub record LinuxFlock : Type 0 where
  pub l_type : ℕ
  pub l_whence : ℕ
  pub l_start : ℕ
  pub l_len : ℕ
  pub l_pid : ℕ

-- F_RDLCK, F_WRLCK and F_UNLCK of Interix.
pub data LockType : Type 0 where
  f_rdlck f_wrlck f_unlck : LockType

-- struct flock of Interix.
pub record Flock : Type 0 where
  pub i_type : LockType
  pub i_whence : ℕ
  pub i_start : ℕ
  pub i_len : ℕ
  pub i_pid : ℕ

-- convert, from struct linux_flock, with its switch on l_type.
unfoldable pub lock_type : ℕ → Result LockType
lock_type l_type =
    if l_type == 0
    then ok f_rdlck
    else if l_type == 1
    then ok f_wrlck
    else if l_type == 2
    then ok f_unlck
    else throw einval

unfoldable pub convert_flock : LinuxFlock → Result Flock
convert_flock lfl = and_then (lock_type lfl.l_type) (λ t. ok (record {
  i_type = t;
  i_whence = lfl.l_whence;
  i_start = lfl.l_start;
  i_len = lfl.l_len;
  i_pid = lfl.l_pid;
}))

-- convert, from struct linux_flock64, with its switch on l_type.
unfoldable pub lock_type64 : ℕ → Result LockType
lock_type64 l_type =
    if l_type == 0
    then ok f_rdlck
    else if l_type == 1
    then ok f_wrlck
    else if l_type == 2
    then ok f_unlck
    else throw einval

unfoldable pub convert_flock64 : LinuxFlock → Result Flock
convert_flock64 lfl = and_then (lock_type64 lfl.l_type) (λ t.
    if ltb 0xffff_ffff lfl.l_start || ltb 0xffff_ffff lfl.l_len
    then throw enolck
    else ok (record {
      i_type = t;
      i_whence = lfl.l_whence;
      i_start = lfl.l_start;
      i_len = lfl.l_len;
      i_pid = lfl.l_pid;
    }))

-- What is asked of fcntl(2), dup(2) and dup2(2) of Interix for the file's descriptor.
pub data Request : Type 0 where
  f_getfl f_getfd dup : Request
  f_setfl f_setfd dup2 : ℕ → Request
  f_setlk f_setlkw : Flock → Request

-- The calls of Interix, whose failure is a thrown errno, and the structs at an address.
pub record Files : Type 1 where
  pub State : Type 0
  pub call : Request → Exec State ℕ
  pub flock_at : ℕ → LinuxFlock
  pub flock64_at : ℕ → LinuxFlock

module _ (c : OpenFlags) (files : Files) where
  open files use {State, call, flock_at, flock64_at}

  -- FD::Dup; destfd is a signed int, whose -1 is 0xffffffff here.
  unfoldable pub fd_dup : ℕ → Exec State ℕ
  fd_dup destfd = if destfd == u32_mod - 1 then call dup else call (dup2 destfd)

  -- `int i = fcntl(_fd, F_GETFD, 0) ? LINUX_FD_CLOEXEC : 0;` also for the -1 of a failure.
  abbrev pub get_cloexec : Result ℕ × State → Result ℕ × State
  get_cloexec (ok r, s) = (ok (if r == 0 then 0 else 1), s)
  get_cloexec (throw e, s) = (ok 1, s)
  get_cloexec (fault x, s) = (fault x, s)

  abbrev set_cloexec : Result ℕ × State → Result ℕ × State
  set_cloexec (r, s) = (and_then r (λ _. ok 0), s)

  -- FD::Fcntl; a command that it does not know ends in error().
  unfoldable pub fd_fcntl : ℕ → ℕ → Exec State ℕ
  unfolding fd_dup
  fd_fcntl cmd argument s =
      if cmd == 0
      then fd_dup (u32_mod - 1) s
      else if cmd == 1
      then get_cloexec (call f_getfd s)
      else if cmd == 2
      then set_cloexec (call (f_setfd (bit_and argument 1)) s)
      else (fault aborted, s)

  abbrev flags_to_linux : Result ℕ × State → Result ℕ × State
  flags_to_linux (r, s) = (and_then r (λ flags. ok (file_flags_i2l c flags)), s)

  -- `convert(lfl, ifl); int result = fcntl(fd, ..., &ifl);`
  abbrev pub lock : Result Flock → (Flock → Request) → Exec State ℕ
  lock (ok ifl) request s = call (request ifl) s
  lock (throw e) request s = (throw e, s)
  lock (fault x) request s = (fault x, s)

  -- RealFD::Fcntl
  unfoldable pub real_fcntl : ℕ → ℕ → Exec State ℕ
  real_fcntl cmd argument s =
      if cmd == 3
      then flags_to_linux (call f_getfl s)
      else if cmd == 4
      then call (f_setfl (file_flags_l2i c argument)) s
      else if cmd == 6
      then lock (convert_flock (flock_at argument)) f_setlk s
      else if cmd == 7
      then lock (convert_flock (flock_at argument)) f_setlkw s
      else if cmd == 13
      then lock (convert_flock64 (flock64_at argument)) f_setlk s
      else if cmd == 14
      then lock (convert_flock64 (flock64_at argument)) f_setlkw s
      else fd_fcntl cmd argument s
