-- ===== src/ExceptionHandler/Executed.antt =====
-- src/ehandler.cc: what the processor executes in the place of an instruction with a %gs prefix.
use lbw.Prelude.{ℕ, ◌+◌, ◌≡◌, ◌≢◌, ◌≤◌, ◌<◌, Bool, List, [], ◌∷◌, Option, none, some, length}
use lbw.Prelude.Results.{Result, ok}
use lbw.Prelude.Flags.{All}
use lbw.Prelude.Text.{Bytes}
use lbw.Prelude.Words.{cut}
use lbw.ExceptionHandler.{Process, continue_execution, access_violation, handler_cb, load_bytes}
use lbw.ExceptionHandler.Contents.{load-Holds}
use lbw.ExceptionHandler.Machine.{cpu, run}
use lbw.ExceptionHandler.Gs.{handler_cb-short}
use lbw.GsCode.{ret, translate_gs_instruction}
use lbw.GsCode.Cases.{IsByte}
use lbw.GsCode.Decoder.{Insn, decode, decode_locked}
use lbw.GsCode.Meaning.{relocated}
use lbw.GsCode.Prefixes.{prefixed, with_lock, translate_gs_instruction_lem}

module _ {S : Type 0} (map_block : S → Option ℕ × S)
    (make_writeable : ℕ → ℕ → S → Result (Unit {0}) × S) (linux_mce linear : ℕ) (s : Process S)
    (t : ℕ) (known : s.trampoline ≡ some t) (some_code : s.eip ≢ 0) (low : s.eip ≤ 0x8000_0000)
    (l : Bool) (code : Bytes) (at_eip : load_bytes 16 s.eip s.memory ≡ prefixed l code)
    (out : Bytes) (n : ℕ)
    (translated : translate_gs_instruction linear (prefixed l code) ≡ ok (out, n)) (short : n < 5)
    (i : Insn) (rest : Bytes) (bytes : All IsByte code) (decodes : decode code ≡ some (i, rest))
    (no_sib : i.address.sib ≡ none) where
  -- handler_cb: let the bytes at Eip be a translated instruction of less than 5 bytes with a %gs
  -- prefix, with a lock prefix or without and with an operand in memory that has no SIB byte. After
  -- the access violation the processor, from Eip and with any stack, pushes an address in one
  -- instruction. There it finds the instruction with its lock prefix, without %gs and with the
  -- displacement moved by linear, and behind it ret. The address pushed is where the old
  -- instruction ends.
  pub handler_cb-executed :
      (s' : Process S) × (e : ℕ) × (pre : Bytes) × (handler_cb map_block make_writeable linux_mce
          linear access_violation s
        ≡ (ok continue_execution, s'))
      × ((stack : List ℕ)
          → run 1 s'.memory (cpu s'.eip stack) ≡ some (cpu (s'.eip + 5) ((s.eip + e) ∷ stack)))
      × (decode_locked (load_bytes (length out) (s'.eip + 5) s'.memory)
          ≡ some (with_lock l (relocated linear i), ret ∷ []))
      × (cut e (load_bytes 16 s.eip s.memory) ≡ some (pre, rest))
  handler_cb-executed =
      let (s', done, at_t, ready, kept) =
        handler_cb-short map_block make_writeable linux_mce linear s t known some_code low l code
          at_eip out n translated short in
      let ((decoded, pre, moved), same) =
        translate_gs_instruction_lem linear n l code out rest i bytes decodes no_sib translated in
      (
        s',
        n,
        pre,
        done,
        λ stack. rw at_t (ready.0 stack),
        rw at_t (rw (load-Holds (t + 5) out s'.memory ready.1) decoded),
        rw at_eip moved,
      )
