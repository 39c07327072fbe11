-- ===== src/FileFlags.antt =====
-- src/filesystem/file.cc: the flags of open(2) and fcntl(2) between Linux and Interix. The Interix
-- constants are those of its <fcntl.h>, a parameter here.
pub mod RoundTrip
use lbw.Prelude.{ℕ, List, [], ◌∷◌, bit_and, ◌==◌, if◌then◌else◌}
use lbw.Prelude.Flags.{Rule, copy_bits, swap}

pub record OpenFlags : Type 0 where
  pub o_accmode : ℕ
  pub o_rdonly : ℕ
  pub o_wronly : ℕ
  pub o_rdwr : ℕ
  pub o_creat : ℕ
  pub o_excl : ℕ
  pub o_noctty : ℕ
  pub o_trunc : ℕ
  pub o_append : ℕ
  pub o_nonblock : ℕ
  pub o_sync : ℕ

-- LINUX_O_ACCMODE
abbrev pub linux_accmode : ℕ
linux_accmode = 0o3

module _ (c : OpenFlags) where
  -- The tests `if (flags & LINUX_O_...) iflags |= O_...;` of FileFlagsL2I, in their order.
  unfoldable pub open_rules : List Rule
  open_rules =
      record { from = 0o100; to = c.o_creat }
      ∷ record { from = 0o200; to = c.o_excl }
      ∷ record { from = 0o400; to = c.o_noctty }
      ∷ record { from = 0o1000; to = c.o_trunc }
      ∷ record { from = 0o2000; to = c.o_append }
      ∷ record { from = 0o4000; to = c.o_nonblock }
      ∷ record { from = 0o10000; to = c.o_sync }
      ∷ []

  -- switch (flags & LINUX_O_ACCMODE)
  unfoldable pub access_l2i : ℕ → ℕ
  access_l2i a =
      if a == 0 then c.o_rdonly else if a == 1 then c.o_wronly else if a == 2 then c.o_rdwr else 0

  -- switch (flags & O_ACCMODE)
  unfoldable pub access_i2l : ℕ → ℕ
  access_i2l a =
      if a == c.o_rdonly then 0 else if a == c.o_wronly then 1 else if a == c.o_rdwr then 2 else 0

  unfoldable pub file_flags_l2i : ℕ → ℕ
  file_flags_l2i flags = copy_bits open_rules flags (access_l2i (bit_and flags linux_accmode))

  unfoldable pub file_flags_i2l : ℕ → ℕ
  file_flags_i2l flags = copy_bits (swap open_rules) flags (access_i2l (bit_and flags c.o_accmode))
