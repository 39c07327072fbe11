-- ===== src/Examples/Terminals.antt =====
-- The theorems on terminals, identity and waiting (src/filesystem/termios.cc,
-- src/syscalls/process.cc) at concrete inputs.
use lbw.Prelude.{ℕ, ◌*◌, ◌/◌, ◌%◌, ◌^◌, ◌+◌, ◌≡◌, refl, none, bit_and, bit_or, arith}
use lbw.Prelude.Flags.{test, All, copy_bits, keep, apart-Apart, all_clear-All}
use lbw.MemOp.{u32_mod}
use lbw.Termios.{
  TermFlags, LinuxTermios, linux_csize, linux_cbaud, iflag_rules, oflag_rules, cflag_rules,
  lflag_rules, speeds, cc_rules, termios_i2l, termios_l2i,
}
use lbw.Termios.RoundTrip.{Encodes, target, differ-Differ, termios_i2l-termios_l2i}
use lbw.Credentials.{Kernel}

-- An encoding of terminal settings.
abbrev term_flags : TermFlags
term_flags = record {
  ignbrk = 1;
  brkint = 2;
  ignpar = 4;
  parmrk = 0o10;
  inpck = 0o20;
  istrip = 0o40;
  inlcr = 0o100;
  igncr = 0o200;
  icrnl = 0o400;
  ixon = 0o2000;
  ixany = 0o4000;
  ixoff = 0o10000;
  imaxbel = 0o20000;
  opost = 1;
  onlcr = 4;
  onlret = 0o40;
  ocrnl = 0o10;
  onocr = 0o20;
  clocal = 0o4000;
  cread = 0o200;
  cstopb = 0o100;
  hupcl = 0o2000;
  parenb = 0o400;
  parodd = 0o1000;
  isig = 1;
  icanon = 2;
  echo = 0o10;
  echoe = 0o20;
  echok = 0o40;
  echonl = 0o100;
  noflsh = 0o200;
  tostop = 0o400;
  echoctl = 0o1000;
  iexten = 0o100000;
  csize = 0x30_0000;
  cs5 = 0x0;
  cs6 = 0x100000;
  cs7 = 0x200000;
  cs8 = 0x300000;
  b0 = 0;
  b50 = 50;
  b75 = 75;
  b110 = 110;
  b134 = 134;
  b150 = 150;
  b200 = 200;
  b300 = 300;
  b600 = 600;
  b1200 = 1200;
  b1800 = 1800;
  b2400 = 2400;
  b4800 = 4800;
  b9600 = 9600;
  b19200 = 19200;
  b38400 = 38400;
  b57600 = 57600;
  b115200 = 115200;
  b230400 = 230400;
  b460800 = 460800;
  veof = 4;
  veol = 0o13;
  verase = 2;
  vintr = 0;
  vkill = 3;
  vmin = 6;
  vquit = 1;
  vsusp = 0o12;
  vtime = 5;
  vstart = 0o10;
  vstop = 0o11;
  vreprint = 0o14;
  vwerase = 0o16;
  veol2 = 0o20;
  vlnext = 0o17;
  tcsanow = 1;
  tcsadrain = 2;
  tcsaflush = 3;
}

term_flags-Encodes : Encodes term_flags
unfolding iflag_rules oflag_rules cflag_rules lflag_rules speeds cc_rules
term_flags-Encodes = record {
  iflag = apart-Apart (iflag_rules term_flags) refl;
  oflag = apart-Apart (oflag_rules term_flags) refl;
  cflag = apart-Apart (cflag_rules term_flags) refl;
  lflag = apart-Apart (lflag_rules term_flags) refl;
  outside = all_clear-All (λ r. test r.to 0x30_0000) (cflag_rules term_flags) refl;
  cs5_clear = all_clear-All (λ r. test 0x0 r.to) (cflag_rules term_flags) refl;
  cs6_clear = all_clear-All (λ r. test 0x100000 r.to) (cflag_rules term_flags) refl;
  cs7_clear = all_clear-All (λ r. test 0x200000 r.to) (cflag_rules term_flags) refl;
  cs8_clear = all_clear-All (λ r. test 0x300000 r.to) (cflag_rules term_flags) refl;
  cs5_within = refl;
  cs6_within = refl;
  cs7_within = refl;
  cs8_within = refl;
  cs6-ne-cs5 = omega arith;
  cs7-ne-cs5 = omega arith;
  cs7-ne-cs6 = omega arith;
  cs8-ne-cs5 = omega arith;
  cs8-ne-cs6 = omega arith;
  cs8-ne-cs7 = omega arith;
  speeds_differ = differ-Differ target (speeds term_flags) refl;
  cc_differ = differ-Differ target (cc_rules term_flags) refl;
}

-- A terminal at 38400 baud both ways, with eight bits and a few flags.
abbrev some_termios : LinuxTermios
some_termios = record {
  c_iflag = 0o2400;
  c_oflag = 5;
  c_cflag = 0o17 * 2 ^ 16 + 0o277;
  c_lflag = 0o105073;
  c_line = 0;
  c_cc = λ j. j;
}

termios_example :
    ((termios_i2l term_flags (termios_l2i term_flags some_termios)).c_iflag
      ≡ copy_bits (keep (iflag_rules term_flags)) some_termios.c_iflag 0)
    × ((termios_i2l term_flags (termios_l2i term_flags some_termios)).c_oflag
        ≡ copy_bits (keep (oflag_rules term_flags)) some_termios.c_oflag 0)
    × ((termios_i2l term_flags (termios_l2i term_flags some_termios)).c_lflag
        ≡ copy_bits (keep (lflag_rules term_flags)) some_termios.c_lflag 0)
    × ((termios_i2l term_flags (termios_l2i term_flags some_termios)).c_cflag
        ≡ bit_or
            (bit_or
              (bit_or
                (copy_bits (keep (cflag_rules term_flags)) some_termios.c_cflag 0)
                (bit_and some_termios.c_cflag linux_csize))
              (bit_and (some_termios.c_cflag / 2 ^ 16) linux_cbaud * 2 ^ 16 % u32_mod))
            (bit_and some_termios.c_cflag linux_cbaud))
    × All
        (λ r.
          (termios_i2l term_flags (termios_l2i term_flags some_termios)).c_cc r.from
          ≡ some_termios.c_cc r.from)
        (cc_rules term_flags)
termios_example =
    termios_i2l-termios_l2i term_flags term_flags-Encodes some_termios
      (unfold speeds in (refl, refl))

-- A kernel whose only state is one id, which it never refuses to change.
abbrev one_id : Kernel
one_id = record {
  Process = ℕ;
  getuid = λ p. p;
  geteuid = λ p. p;
  getgid = λ p. p;
  getegid = λ p. p;
  setuid = λ u p. (none, u);
  setgid = λ g p. (none, g);
  setreuid = λ r e p. (none, r);
  setregid = λ r e p. (none, r);
  setpgid = λ pid g p. (none, p);
  setsid = λ p. (none, p);
  getpgrp = λ p. p;
}
