-- ===== src/Termios.antt =====
-- src/filesystem/termios.cc: the settings of a terminal between Linux and Interix. The Interix
-- constants are those of its <termios.h>, a parameter here.
pub mod RoundTrip
use lbw.Prelude.{
  ℕ, ◌*◌, ◌/◌, ◌%◌, ◌^◌, ◌-◌, List, [], ◌∷◌, Option, none, some, bit_and, bit_or, ◌==◌,
  if◌then◌else◌,
}
use lbw.Prelude.Flags.{Rule, copy_bits, swap}
use lbw.Prelude.Results.{Errno, Result, ok, throw, fault}
use lbw.MemOp.{u32_mod}

pub record TermFlags : Type 0 where
  pub ignbrk : ℕ
  pub brkint : ℕ
  pub ignpar : ℕ
  pub parmrk : ℕ
  pub inpck : ℕ
  pub istrip : ℕ
  pub inlcr : ℕ
  pub igncr : ℕ
  pub icrnl : ℕ
  pub ixon : ℕ
  pub ixany : ℕ
  pub ixoff : ℕ
  pub imaxbel : ℕ
  pub opost : ℕ
  pub onlcr : ℕ
  pub onlret : ℕ
  pub ocrnl : ℕ
  pub onocr : ℕ
  pub clocal : ℕ
  pub cread : ℕ
  pub cstopb : ℕ
  pub hupcl : ℕ
  pub parenb : ℕ
  pub parodd : ℕ
  pub isig : ℕ
  pub icanon : ℕ
  pub echo : ℕ
  pub echoe : ℕ
  pub echok : ℕ
  pub echonl : ℕ
  pub noflsh : ℕ
  pub tostop : ℕ
  pub echoctl : ℕ
  pub iexten : ℕ
  pub csize : ℕ
  pub cs5 : ℕ
  pub cs6 : ℕ
  pub cs7 : ℕ
  pub cs8 : ℕ
  pub b0 : ℕ
  pub b50 : ℕ
  pub b75 : ℕ
  pub b110 : ℕ
  pub b134 : ℕ
  pub b150 : ℕ
  pub b200 : ℕ
  pub b300 : ℕ
  pub b600 : ℕ
  pub b1200 : ℕ
  pub b1800 : ℕ
  pub b2400 : ℕ
  pub b4800 : ℕ
  pub b9600 : ℕ
  pub b19200 : ℕ
  pub b38400 : ℕ
  pub b57600 : ℕ
  pub b115200 : ℕ
  pub b230400 : ℕ
  pub b460800 : ℕ
  pub veof : ℕ
  pub veol : ℕ
  pub verase : ℕ
  pub vintr : ℕ
  pub vkill : ℕ
  pub vmin : ℕ
  pub vquit : ℕ
  pub vsusp : ℕ
  pub vtime : ℕ
  pub vstart : ℕ
  pub vstop : ℕ
  pub vreprint : ℕ
  pub vwerase : ℕ
  pub veol2 : ℕ
  pub vlnext : ℕ
  pub tcsanow : ℕ
  pub tcsadrain : ℕ
  pub tcsaflush : ℕ

-- struct linux_termios, with c_cc by its index.
pub record LinuxTermios : Type 0 where
  pub c_iflag : ℕ
  pub c_oflag : ℕ
  pub c_cflag : ℕ
  pub c_lflag : ℕ
  pub c_line : ℕ
  pub c_cc : ℕ → ℕ

-- The fields of Interix' struct termios that are read and written.
pub record Termios : Type 0 where
  pub c_iflag : ℕ
  pub c_oflag : ℕ
  pub c_cflag : ℕ
  pub c_lflag : ℕ
  pub c_ispeed : ℕ
  pub c_ospeed : ℕ
  pub c_cc : ℕ → ℕ

-- LINUX_CSIZE and LINUX_CBAUD
abbrev pub linux_csize : ℕ
linux_csize = 0o60

abbrev pub linux_cbaud : ℕ
linux_cbaud = 0o10017

-- A case of the switches on speeds, and the switches over a list of cases.
abbrev pub speed_to_linux : List Rule → ℕ → ℕ
speed_to_linux [] x = 0
speed_to_linux (r ∷ rs) x = if x == r.to then r.from else speed_to_linux rs x

abbrev pub speed_to_interix : ℕ → List Rule → ℕ → ℕ
speed_to_interix b0 [] x = b0
speed_to_interix b0 (r ∷ rs) x = if x == r.from then r.to else speed_to_interix b0 rs x

-- `dst[to] = src[from];` for each rule.
unfoldable pub copy_cc : List Rule → (ℕ → ℕ) → (ℕ → ℕ) → ℕ → ℕ
copy_cc [] src dst = dst
copy_cc (r ∷ rs) src dst = copy_cc rs src (λ j. if j == r.to then src r.from else dst j)

module _ (c : TermFlags) where
  -- The COPYBIT lists of c_iflag, c_oflag, c_cflag and c_lflag, the speeds, and the COPYCC list.
  unfoldable pub iflag_rules : List Rule
  iflag_rules =
      record { from = 1; to = c.ignbrk }
      ∷ record { from = 2; to = c.brkint }
      ∷ record { from = 4; to = c.ignpar }
      ∷ record { from = 0o10; to = c.parmrk }
      ∷ record { from = 0o20; to = c.inpck }
      ∷ record { from = 0o40; to = c.istrip }
      ∷ record { from = 0o100; to = c.inlcr }
      ∷ record { from = 0o200; to = c.igncr }
      ∷ record { from = 0o400; to = c.icrnl }
      ∷ record { from = 0o2000; to = c.ixon }
      ∷ record { from = 0o4000; to = c.ixany }
      ∷ record { from = 0o10000; to = c.ixoff }
      ∷ record { from = 0o20000; to = c.imaxbel }
      ∷ []

  unfoldable pub oflag_rules : List Rule
  oflag_rules =
      record { from = 1; to = c.opost }
      ∷ record { from = 4; to = c.onlcr }
      ∷ record { from = 0o40; to = c.onlret }
      ∷ record { from = 0o10; to = c.ocrnl }
      ∷ record { from = 0o20; to = c.onocr }
      ∷ []

  unfoldable pub cflag_rules : List Rule
  cflag_rules =
      record { from = 0o4000; to = c.clocal }
      ∷ record { from = 0o200; to = c.cread }
      ∷ record { from = 0o100; to = c.cstopb }
      ∷ record { from = 0o2000; to = c.hupcl }
      ∷ record { from = 0o400; to = c.parenb }
      ∷ record { from = 0o1000; to = c.parodd }
      ∷ []

  unfoldable pub lflag_rules : List Rule
  lflag_rules =
      record { from = 1; to = c.isig }
      ∷ record { from = 2; to = c.icanon }
      ∷ record { from = 0o10; to = c.echo }
      ∷ record { from = 0o20; to = c.echoe }
      ∷ record { from = 0o40; to = c.echok }
      ∷ record { from = 0o100; to = c.echonl }
      ∷ record { from = 0o200; to = c.noflsh }
      ∷ record { from = 0o400; to = c.tostop }
      ∷ record { from = 0o1000; to = c.echoctl }
      ∷ record { from = 0o100000; to = c.iexten }
      ∷ []

  unfoldable pub speeds : List Rule
  speeds =
      record { from = 0; to = c.b0 }
      ∷ record { from = 1; to = c.b50 }
      ∷ record { from = 2; to = c.b75 }
      ∷ record { from = 3; to = c.b110 }
      ∷ record { from = 4; to = c.b134 }
      ∷ record { from = 5; to = c.b150 }
      ∷ record { from = 6; to = c.b200 }
      ∷ record { from = 7; to = c.b300 }
      ∷ record { from = 0o10; to = c.b600 }
      ∷ record { from = 0o11; to = c.b1200 }
      ∷ record { from = 0o12; to = c.b1800 }
      ∷ record { from = 0o13; to = c.b2400 }
      ∷ record { from = 0o14; to = c.b4800 }
      ∷ record { from = 0o15; to = c.b9600 }
      ∷ record { from = 0o16; to = c.b19200 }
      ∷ record { from = 0o17; to = c.b38400 }
      ∷ record { from = 0o10001; to = c.b57600 }
      ∷ record { from = 0o10002; to = c.b115200 }
      ∷ record { from = 0o10003; to = c.b230400 }
      ∷ record { from = 0o10004; to = c.b460800 }
      ∷ []

  unfoldable pub cc_rules : List Rule
  cc_rules =
      record { from = 4; to = c.veof }
      ∷ record { from = 0o13; to = c.veol }
      ∷ record { from = 2; to = c.verase }
      ∷ record { from = 0; to = c.vintr }
      ∷ record { from = 3; to = c.vkill }
      ∷ record { from = 6; to = c.vmin }
      ∷ record { from = 1; to = c.vquit }
      ∷ record { from = 0o12; to = c.vsusp }
      ∷ record { from = 5; to = c.vtime }
      ∷ record { from = 0o10; to = c.vstart }
      ∷ record { from = 0o11; to = c.vstop }
      ∷ record { from = 0o14; to = c.vreprint }
      ∷ record { from = 0o16; to = c.vwerase }
      ∷ record { from = 0o20; to = c.veol2 }
      ∷ record { from = 0o17; to = c.vlnext }
      ∷ []

  unfoldable pub convert_speed_i2l : ℕ → ℕ
  convert_speed_i2l speed = speed_to_linux speeds speed

  unfoldable pub convert_speed_l2i : ℕ → ℕ
  convert_speed_l2i speed = speed_to_interix c.b0 speeds speed

  -- switch (it.c_cflag & CSIZE)
  unfoldable pub size_i2l : ℕ → ℕ
  size_i2l x =
      if x == c.cs5
      then 0
      else if x == c.cs6
      then 0o20
      else if x == c.cs7
      then 0o40
      else if x == c.cs8
      then 0o60
      else 0

  -- switch (lt.c_cflag & LINUX_CSIZE)
  unfoldable pub size_l2i : ℕ → ℕ
  size_l2i x =
      if x == 0
      then c.cs5
      else if x == 0o20
      then c.cs6
      else if x == 0o40
      then c.cs7
      else if x == 0o60
      then c.cs8
      else 0

  -- convert_termios from Interix to Linux.
  unfoldable pub termios_i2l : Termios → LinuxTermios
  termios_i2l it = record {
    c_iflag = copy_bits (swap iflag_rules) it.c_iflag 0;
    c_oflag = copy_bits (swap oflag_rules) it.c_oflag 0;
    c_cflag =
        bit_or
          (bit_or
            (bit_or (copy_bits (swap cflag_rules) it.c_cflag 0)
              (size_i2l (bit_and it.c_cflag c.csize)))
            (convert_speed_i2l it.c_ispeed * 2 ^ 16 % u32_mod))
          (convert_speed_i2l it.c_ospeed);
    c_lflag = copy_bits (swap lflag_rules) it.c_lflag 0;
    c_line = 0;
    c_cc = copy_cc (swap cc_rules) it.c_cc (λ j. 0);
  }

  -- convert_termios from Linux to Interix.
  unfoldable pub termios_l2i : LinuxTermios → Termios
  termios_l2i lt = record {
    c_iflag = copy_bits iflag_rules lt.c_iflag 0;
    c_oflag = copy_bits oflag_rules lt.c_oflag 0;
    c_cflag =
        bit_or (copy_bits cflag_rules lt.c_cflag 0) (size_l2i (bit_and lt.c_cflag linux_csize));
    c_lflag = copy_bits lflag_rules lt.c_lflag 0;
    c_ispeed = convert_speed_l2i (bit_and (lt.c_cflag / 2 ^ 16) linux_cbaud);
    c_ospeed = convert_speed_l2i (bit_and lt.c_cflag linux_cbaud);
    c_cc = copy_cc cc_rules lt.c_cc (λ j. 0);
  }

  -- linux_tcsetattr, where `tcsetattr` says whether Interix refuses: the action is checked and
  -- converted, and then passed on as Linux has it.
  abbrev set_result : Option Errno → Result ℕ
  set_result none = ok 0
  set_result (some e) = throw e

  unfoldable pub interix_action : ℕ → Option ℕ
  interix_action action =
      if action == 0
      then some c.tcsanow
      else if action == 1
      then some c.tcsadrain
      else if action == 2
      then some c.tcsaflush
      else none

  unfoldable pub linux_tcsetattr : (ℕ → Termios → Option Errno) → ℕ → LinuxTermios → Result ℕ
  linux_tcsetattr tcsetattr action lt = elim (interix_action action) [
    | none ↦ ok (u32_mod - 22)
    | some iaction ↦ set_result (tcsetattr action (termios_l2i lt))
  ]

  -- linux_tcgetattr
  unfoldable pub linux_tcgetattr : Result Termios → Result LinuxTermios
  linux_tcgetattr (ok it) = ok (termios_i2l it)
  linux_tcgetattr (throw e) = throw e
  linux_tcgetattr (fault x) = fault x
