-- ===== src/Examples/Conversions.antt =====
-- The theorems on the break, errnos, flags and signals (src/syscalls/memory.cc, src/linux_errno.cc,
-- src/filesystem/file.cc, src/syscalls/signals.cc) at concrete inputs.
use mathlib.Core.Logic.{◌↔◌}
use lbw.Prelude.{
  ◌+◌, ◌-◌, ◌^◌, ◌≤◌, ◌<◌, ◌≡◌, refl, Bool, false, ◌||◌, none, some, arith, ◌==◌, leb,
  if◌then◌else◌,
}
use lbw.Prelude.Flags.{test}
use lbw.Prelude.Results.{enoent, eio, ok, throw}
use lbw.MemOp.{u32_mod}
use lbw.Brk.{Brk, brk_size, sys_brk}
use lbw.Brk.Bounds.{IsValid, sys_brk-IsValid}
use lbw.Errno.{finish}
use lbw.Errno.Results.{finish-throw}
use lbw.FileFlags.{OpenFlags}
use lbw.Signals.{Signal, sigchld, linux_signal, convert_signal_l2i, SignalSets, convert_sigset_l2i}
use lbw.Signals.Sets.{SetLaws, convert_signal_l2i_iff, convert_sigset_l2i_lem}

abbrev some_brk : Brk
some_brk = record { brkbuf = some 0x800_0000; pos = 0x800_1000 }

some_brk-IsValid : IsValid 0x800_0000 some_brk
some_brk-IsValid = record {
  buffer = refl;
  fits = omega arith;
  above = omega arith;
  below = omega arith;
}

sys_brk-IsValid_example :
    IsValid 0x800_0000 (sys_brk 0 0x820_0000 some_brk).1
    × ((sys_brk 0 0x820_0000 some_brk).0 ≡ (sys_brk 0 0x820_0000 some_brk).1.pos)
    × ((sys_brk 0 0x820_0000 some_brk).0 ≡ (
        if 0x820_0000 == 0
        then some_brk.pos
        else if leb 0x820_0000 0x800_0000
        then 0x800_0000
        else if leb 0x820_0000 (0x800_0000 + brk_size)
        then 0x820_0000
        else 0x800_0000 + brk_size))
sys_brk-IsValid_example = sys_brk-IsValid 0 0x800_0000 0x820_0000 some_brk some_brk-IsValid

abbrev no_brk : Brk
no_brk = record { brkbuf = none; pos = 0 }

finish-enoent : finish (throw enoent) ≡ ok (u32_mod - 2)
unfolding finish
finish-enoent = refl

finish-throw_example :
    (u32_mod - 115 ≤ u32_mod - 2)
    × (u32_mod - 2 < u32_mod)
    × (finish (throw eio) ≡ ok (u32_mod - 2) → eio ≡ enoent)
finish-throw_example = finish-throw enoent eio (u32_mod - 2) finish-enoent

-- An encoding of the flags of open(2).
abbrev open_flags : OpenFlags
open_flags = record {
  o_accmode = 3;
  o_rdonly = 0;
  o_wronly = 1;
  o_rdwr = 2;
  o_creat = 0x100;
  o_excl = 0x400;
  o_noctty = 0x800;
  o_trunc = 0x200;
  o_append = 0x8;
  o_nonblock = 0x4;
  o_sync = 0x10;
}

convert_signal_l2i_iff_example :
    (convert_signal_l2i 17 ≡ some sigchld) ↔ (linux_signal sigchld ≡ 17)
convert_signal_l2i_iff_example = convert_signal_l2i_iff 17 sigchld

-- Sets of signals as tests.
abbrev set_tests : SignalSets
set_tests = record {
  SigSet = Signal → Bool;
  sigemptyset = λ s. false;
  sigaddset = λ is r s. (linux_signal r == linux_signal s) || is s;
  sigismember = λ is s. is s;
}

set_tests-SetLaws : SetLaws set_tests
set_tests-SetLaws = record { member-empty = λ s. refl; member-add = λ is r s. refl }

convert_sigset_l2i_example :
    convert_sigset_l2i set_tests 0x1_0002 sigchld ≡ test 0x1_0002 (2 ^ (linux_signal sigchld - 1))
convert_sigset_l2i_example = convert_sigset_l2i_lem set_tests set_tests-SetLaws 0x1_0002 sigchld
