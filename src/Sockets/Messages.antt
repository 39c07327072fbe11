-- ===== src/Sockets/Messages.antt =====
-- src/syscalls/sockets.cc: calls of socketcall that come to the same.
use lbw.Prelude.{ℕ, ◌+◌, ◌≡◌, if◌then◌else◌, bit_or}
use lbw.Prelude.Flags.{test}
use lbw.Sockets.{SocketConstants, Words}

-- The words of a message with one buffer and no control data, where its name is at `msg`.
pub record Single (m : Words) (msg buf len to tolen : ℕ) : Type 0 where
  pub name : m msg ≡ to
  pub namelen : m (msg + 4) ≡ tolen
  pub iovlen : m (msg + 12) ≡ 1
  pub controllen : m (msg + 20) ≡ 0
  pub iov_base : m (m (msg + 8)) ≡ buf
  pub iov_len : m (m (msg + 8) + 4) ≡ len

module _ (c : SocketConstants) (m : Words) (fd buf len flags to tolen : ℕ) where
  -- The flags of Interix for those of Linux: bit 0 is MSG_OOB and bit 1 MSG_PEEK.
  abbrev pub message_flags : ℕ
  message_flags =
      bit_or (if test flags 1 then c.msg_oob else 0) (if test flags 2 then c.msg_peek else 0)
