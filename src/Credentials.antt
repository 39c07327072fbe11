-- ===== src/Credentials.antt =====
-- src/syscalls/process.cc: user and group ids, with the FakeRoot option, and the options of waitpid.
pub mod Identity
use lbw.Prelude.{ℕ, Bool, Option, none, some, List, [], ◌∷◌, ltb, if◌then◌else◌}
use lbw.Prelude.Results.{Errno, enosys, ok, throw, Exec, pure, raise}
use lbw.Prelude.Flags.{Rule, copy_bits}

-- overflowuid, overflowgid
abbrev pub overflowuid : ℕ
overflowuid = 65534

abbrev pub overflowgid : ℕ
overflowgid = 65534

unfoldable pub high2lowuid : ℕ → ℕ
high2lowuid uid = if ltb 0x1_0000 uid then overflowuid else uid

unfoldable pub high2lowgid : ℕ → ℕ
high2lowgid gid = if ltb 0x1_0000 gid then overflowgid else gid

-- What Interix knows of a process: a call that changes it may fail with an errno.
pub record Kernel : Type 1 where
  pub Process : Type 0
  pub getuid : Process → ℕ
  pub geteuid : Process → ℕ
  pub getgid : Process → ℕ
  pub getegid : Process → ℕ
  pub setuid : ℕ → Process → Option Errno × Process
  pub setgid : ℕ → Process → Option Errno × Process
  pub setreuid : ℕ → ℕ → Process → Option Errno × Process
  pub setregid : ℕ → ℕ → Process → Option Errno × Process
  pub setpgid : ℕ → ℕ → Process → Option Errno × Process
  pub setsid : Process → Option Errno × Process
  pub getpgrp : Process → ℕ

module _ (k : Kernel) where
  open k use {
    Process, getuid, geteuid, getgid, getegid, setuid, setgid, setreuid, setregid, setpgid, setsid,
    getpgrp,
  }

  abbrev pub Call : Type 0 → Type 0
  Call A = Exec Process A

  -- `if (i == -1) throw errno; return r;`
  abbrev pub check_error : ℕ → Option Errno × Process → Call ℕ
  check_error r (none, p') p = (ok r, p')
  check_error r (some e, p') p = (throw e, p')

  unfoldable pub sys_setsid : Call ℕ
  sys_setsid p = check_error (getpgrp (setsid p).1) (setsid p) p

  unfoldable pub sys_getpgrp : Call ℕ
  sys_getpgrp p = (ok (getpgrp p), p)

  unfoldable pub sys_setpgid : ℕ → ℕ → Call ℕ
  sys_setpgid pid pgrp p = check_error 0 (setpgid pid pgrp p) p

  -- `fake_root` is Options.FakeRoot.
  module _ (fake_root : Bool) where
    unfoldable pub sys_getuid : Call ℕ
    sys_getuid p = if fake_root then (ok 0, p) else (ok (getuid p), p)

    unfoldable pub sys_setuid : ℕ → Call ℕ
    sys_setuid uid p = if fake_root then (ok 0, p) else check_error 0 (setuid uid p) p

    unfoldable pub sys_getuid16 : Call ℕ
    sys_getuid16 p = if fake_root then (ok 0, p) else (ok (high2lowuid (getuid p)), p)

    unfoldable pub sys_geteuid : Call ℕ
    sys_geteuid p = if fake_root then (ok 0, p) else (ok (geteuid p), p)

    unfoldable pub sys_geteuid16 : Call ℕ
    sys_geteuid16 p = if fake_root then (ok 0, p) else (ok (high2lowuid (geteuid p)), p)

    unfoldable pub sys_getgid : Call ℕ
    sys_getgid p = if fake_root then (ok 0, p) else (ok (getgid p), p)

    unfoldable pub sys_setgid : ℕ → Call ℕ
    sys_setgid gid p = if fake_root then (ok 0, p) else check_error 0 (setgid gid p) p

    unfoldable pub sys_getgid16 : Call ℕ
    sys_getgid16 p = if fake_root then (ok 0, p) else (ok (high2lowgid (getgid p)), p)

    unfoldable pub sys_getegid : Call ℕ
    sys_getegid p = if fake_root then (ok 0, p) else (ok (getegid p), p)

    unfoldable pub sys_getegid16 : Call ℕ
    sys_getegid16 p = if fake_root then (ok 0, p) else (ok (high2lowgid (getegid p)), p)

    unfoldable pub sys_setreuid : ℕ → ℕ → Call ℕ
    sys_setreuid ruid euid p =
        if fake_root then (ok 0, p) else check_error 0 (setreuid ruid euid p) p

    unfoldable pub sys_setregid : ℕ → ℕ → Call ℕ
    sys_setregid rgid egid p =
        if fake_root then (ok 0, p) else check_error 0 (setregid rgid egid p) p

    -- The saved id is only warned of.
    unfoldable pub sys_setresuid : ℕ → ℕ → ℕ → Call ℕ
    sys_setresuid ruid euid suid p =
        if fake_root then (ok 0, p) else check_error 0 (setreuid ruid euid p) p

    unfoldable pub sys_setresgid : ℕ → ℕ → ℕ → Call ℕ
    sys_setresgid rgid egid sgid p =
        if fake_root then (ok 0, p) else check_error 0 (setregid rgid egid p) p

    -- The ids that the call stores: real, effective, saved.
    unfoldable pub sys_getresuid : Call (ℕ × ℕ × ℕ)
    sys_getresuid p =
        if fake_root then (ok (0, 0, 0), p) else (ok (getuid p, geteuid p, getuid p), p)

    unfoldable pub sys_getresgid : Call (ℕ × ℕ × ℕ)
    sys_getresgid p =
        if fake_root then (ok (0, 0, 0), p) else (ok (getgid p, getegid p, getgid p), p)

-- The system calls of limits and usage do nothing.
unfoldable pub compat_sys_getrlimit : {S : Type 0} → Exec S ℕ
compat_sys_getrlimit = raise enosys

unfoldable pub compat_sys_setrlimit : {S : Type 0} → Exec S ℕ
compat_sys_setrlimit = raise enosys

unfoldable pub compat_sys_getrusage : {S : Type 0} → Exec S ℕ
compat_sys_getrusage = raise enosys

-- WNOHANG and WUNTRACED of Interix are parameters.
abbrev pub wait_rules : ℕ → ℕ → List Rule
wait_rules wnohang wuntraced =
    record { from = 1; to = wnohang } ∷ record { from = 2; to = wuntraced } ∷ []

unfoldable pub convert_waitoptions_l2i : ℕ → ℕ → ℕ → ℕ
convert_waitoptions_l2i wnohang wuntraced options =
    copy_bits (wait_rules wnohang wuntraced) options 0
