-- ===== src/Signals.antt =====
-- src/syscalls/signals.cc: signal numbers, signal sets and the flags of sigaction between Linux and
-- Interix.
pub mod Sets
use lbw.Prelude.{
  ℕ, suc, ◌-◌, ◌^◌, Bool, true, false, Option, none, some, List, [], ◌∷◌, ◌==◌, if◌then◌else◌,
  bit_and, bit_or,
}
use lbw.Prelude.Flags.{test, Rule, copy_bits, swap}
use lbw.Prelude.Results.{Errno, einval, Result, ok, throw}
use lbw.MemOp.{u32_mod}

-- The signals of Interix that the program names.
pub data Signal : Type 0 where
  sighup sigint sigquit sigill sigtrap sigabrt sigbus sigfpe sigkill sigusr1 sigsegv sigusr2 sigpipe
        sigalrm sigterm :
      Signal
  sigchld sigcont sigstop sigtstp sigttin sigttou sigurg sigxcpu sigxfsz sigvtalrm sigprof sigwinch
        sigio sigsys :
      Signal

-- LINUX_SIGHUP and so on.
unfoldable pub linux_signal : Signal → ℕ
linux_signal sighup = 1
linux_signal sigint = 2
linux_signal sigquit = 3
linux_signal sigill = 4
linux_signal sigtrap = 5
linux_signal sigabrt = 6
linux_signal sigbus = 7
linux_signal sigfpe = 8
linux_signal sigkill = 9
linux_signal sigusr1 = 10
linux_signal sigsegv = 11
linux_signal sigusr2 = 12
linux_signal sigpipe = 13
linux_signal sigalrm = 14
linux_signal sigterm = 15
linux_signal sigchld = 17
linux_signal sigcont = 18
linux_signal sigstop = 19
linux_signal sigtstp = 20
linux_signal sigttin = 21
linux_signal sigttou = 22
linux_signal sigurg = 23
linux_signal sigxcpu = 24
linux_signal sigxfsz = 25
linux_signal sigvtalrm = 26
linux_signal sigprof = 27
linux_signal sigwinch = 28
linux_signal sigio = 29
linux_signal sigsys = 31

-- The signals in the order in which the CONVERT_SIG lists name them.
abbrev pub signals : List Signal
signals =
    sighup ∷ sigint ∷ sigquit ∷ sigill ∷ sigtrap ∷ sigabrt ∷ sigbus ∷ sigfpe ∷ sigkill ∷ sigusr1
    ∷ sigsegv ∷ sigusr2 ∷ sigpipe ∷ sigalrm ∷ sigterm ∷ sigchld ∷ sigcont ∷ sigstop ∷ sigtstp
    ∷ sigttin ∷ sigttou ∷ sigurg ∷ sigxcpu ∷ sigxfsz ∷ sigvtalrm ∷ sigprof ∷ sigwinch ∷ sigio
    ∷ sigsys ∷ []

-- The switch of convert_signal_l2i over a list of cases; none is its -1.
abbrev pub case_of : List Signal → ℕ → Option Signal
case_of [] n = none
case_of (s ∷ ss) n = if n == linux_signal s then some s else case_of ss n

unfoldable pub convert_signal_l2i : ℕ → Option Signal
unfolding linux_signal
convert_signal_l2i n = case_of signals n

-- linux_sigismember, linux_sigaddset
unfoldable pub linux_sigismember : ℕ → ℕ → Bool
linux_sigismember ls member = test ls (2 ^ (member - 1))

unfoldable pub linux_sigaddset : ℕ → ℕ → ℕ
linux_sigaddset ls member = bit_or ls (2 ^ (member - 1))

-- The signal sets of Interix.
pub record SignalSets : Type 1 where
  pub SigSet : Type 0
  pub sigemptyset : SigSet
  pub sigaddset : SigSet → Signal → SigSet
  pub sigismember : SigSet → Signal → Bool

module _ (sets : SignalSets) where
  open sets use {SigSet, sigemptyset, sigaddset, sigismember}

  -- The CONVERT_SIG_L2I list.
  unfoldable pub add_l2i : List Signal → ℕ → SigSet → SigSet
  add_l2i [] ls is = is
  add_l2i (s ∷ ss) ls is =
      add_l2i ss ls (if linux_sigismember ls (linux_signal s) then sigaddset is s else is)

  -- convert_sigset_l2i, with the set that it writes.
  unfoldable pub convert_sigset_l2i : ℕ → SigSet
  convert_sigset_l2i ls = add_l2i signals ls sigemptyset

  -- The CONVERT_SIG_I2L list.
  unfoldable pub add_i2l : List Signal → SigSet → ℕ → ℕ
  add_i2l [] is ls = ls
  add_i2l (s ∷ ss) is ls =
      add_i2l ss is (if sigismember is s then linux_sigaddset ls (linux_signal s) else ls)

  -- convert_sigset_i2l, from both arguments to both: it begins by sigemptyset(&is).
  unfoldable pub convert_sigset_i2l : SigSet → ℕ → SigSet × ℕ
  convert_sigset_i2l is ls = (sigemptyset, add_i2l signals sigemptyset ls)

-- SA_NOCLDSTOP, SA_RESETHAND and SA_RESTART of Interix.
pub record ActionFlags : Type 0 where
  pub sa_nocldstop : ℕ
  pub sa_resethand : ℕ
  pub sa_restart : ℕ

module _ (c : ActionFlags) where
  unfoldable pub action_rules : List Rule
  action_rules =
      record { from = 0x0000_0001; to = c.sa_nocldstop }
      ∷ record { from = 0x8000_0000; to = c.sa_resethand }
      ∷ record { from = 0x1000_0000; to = c.sa_restart }
      ∷ []

-- struct linux_sigaction32, with the handler as an address.
pub record LinuxAction : Type 0 where
  pub handler : ℕ
  pub flags : ℕ
  pub restorer : ℕ
  pub mask : ℕ

-- struct sigaction of Interix.
pub record Action (S : Type 0) : Type 0 where
  pub handler : ℕ
  pub flags : ℕ
  pub mask : S

module _ (sets : SignalSets) (c : ActionFlags) where
  open sets use {SigSet}

  unfoldable pub convert_sigaction_l2i : LinuxAction → Action SigSet
  convert_sigaction_l2i ls = record {
    handler = ls.handler;
    flags = copy_bits (action_rules c) ls.flags 0;
    mask = convert_sigset_l2i sets ls.mask;
  }

  -- The source loses its mask: see convert_sigset_i2l.
  unfoldable pub convert_sigaction_i2l : Action SigSet → Action SigSet × LinuxAction
  convert_sigaction_i2l is =
      let (mask, lmask) = convert_sigset_i2l sets is.mask 0 in
      (
        record is { mask = mask },
        record {
          handler = is.handler;
          flags = copy_bits (swap (action_rules c)) is.flags 0;
          restorer = 0;
          mask = lmask;
        },
      )

-- sys32_kill and sys_tgkill, where `kill` says whether kill(2) fails and with what errno.
module _ (kill : ℕ → Signal → Option Errno) where
  abbrev sent : Option Errno → Result ℕ
  sent none = ok 0
  sent (some e) = throw e

  unfoldable pub sys32_kill : ℕ → ℕ → Result ℕ
  sys32_kill pid lsig = elim (convert_signal_l2i lsig) [
    | none ↦ ok (u32_mod - 22)
    | some isig ↦ sent (kill pid isig)
  ]

  unfoldable pub sys_tgkill : ℕ → ℕ → ℕ → Result ℕ
  sys_tgkill tgid pid sig =
      if tgid == pid
      then elim (convert_signal_l2i sig) [ none ↦ throw einval | some isig ↦ sent (kill pid isig) ]
      else throw einval
