-- ===== src/FileFlags/RoundTrip.antt =====
-- src/filesystem/file.cc: flags that go to Interix and back.
use lbw.Prelude.{ℕ, ◌≡◌, ◌≢◌, false, bit_and}
use lbw.Prelude.Flags.{copy_bits, keep, test, All, Apart}
use lbw.FileFlags.{OpenFlags, linux_accmode, open_rules}

-- What <fcntl.h> promises: the flags are bits of their own outside O_ACCMODE, and the three access
-- modes are different values within it that share no bit with a flag.
pub record Encodes (c : OpenFlags) : Type 0 where
  pub apart : Apart (open_rules c)
  pub outside : All (λ r. test r.to c.o_accmode ≡ false) (open_rules c)
  pub rdonly_within : bit_and c.o_rdonly c.o_accmode ≡ c.o_rdonly
  pub wronly_within : bit_and c.o_wronly c.o_accmode ≡ c.o_wronly
  pub rdwr_within : bit_and c.o_rdwr c.o_accmode ≡ c.o_rdwr
  pub rdonly_clear : All (λ r. test c.o_rdonly r.to ≡ false) (open_rules c)
  pub wronly_clear : All (λ r. test c.o_wronly r.to ≡ false) (open_rules c)
  pub rdwr_clear : All (λ r. test c.o_rdwr r.to ≡ false) (open_rules c)
  pub wronly-ne-rdonly : c.o_wronly ≢ c.o_rdonly
  pub rdwr-ne-rdonly : c.o_rdwr ≢ c.o_rdonly
  pub rdwr-ne-wronly : c.o_rdwr ≢ c.o_wronly

-- The flags of `flags` that are converted, and its access mode.
abbrev pub supported : OpenFlags → ℕ → ℕ
supported c flags = copy_bits (keep (open_rules c)) flags (bit_and flags linux_accmode)
