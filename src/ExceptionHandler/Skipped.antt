-- ===== src/ExceptionHandler/Skipped.antt =====
-- src/ehandler.cc: the exceptions that copy_or_jump catches.
use lbw.Prelude.{ℕ, ◌+◌, ◌≡◌, ◌≢◌, ◌≤◌, refl, Bool, true, Option, some, leb, arith}
use lbw.Prelude.Results.{Result, Errno, ok, throw}
use lbw.Prelude.Text.{Bytes}
use lbw.ExceptionHandler.{
  Process, continue_execution, access_violation, handler_cb, load_bytes, copy_or_jump,
  copy_fragment,
}
use lbw.ExceptionHandler.Gs.{behind, reach_copy}
use lbw.GsCode.{translate_gs_instruction}
use lbw.GsCode.Prefixes.{prefixed}

module _ {S : Type 0} (map_block : S → Option ℕ × S)
    (make_writeable : ℕ → ℕ → S → Result (Unit {0}) × S) (linux_mce linear : ℕ) (s : Process S)
    (t : ℕ) (known : s.trampoline ≡ some t) (some_code : s.eip ≢ 0) (low : s.eip ≤ 0x8000_0000)
    (l : Bool) (code : Bytes) (at_eip : load_bytes 16 s.eip s.memory ≡ prefixed l code)
    (out : Bytes) (n : ℕ)
    (translated : translate_gs_instruction linear (prefixed l code) ≡ ok (out, n)) (long : 5 ≤ n)
    (e : Errno) (pages : S) where
  -- handler_cb: where MakeWriteable throws, for a translated instruction with a %gs prefix of 5 bytes
  -- or more, the handler goes on with Eip behind the instruction, which is never executed.
  pub handler_cb-skipped :
      make_writeable s.eip 5 s.pages ≡ (throw e, pages)
      → (s' : Process S) × (handler_cb map_block make_writeable linux_mce linear access_violation s
          ≡ (ok continue_execution, s'))
        × (s'.eip ≡ s.eip + n)
  unfolding copy_or_jump copy_fragment
  handler_cb-skipped failed =
      let test : leb 5 n ≡ true = ground arith in
      let there =
        reach_copy map_block make_writeable linux_mce linear s t known some_code low l code at_eip
          out n translated in
      (
        record (behind map_block make_writeable linux_mce linear s t known some_code low l code
            at_eip out n translated) { pages = pages },
        rw there (rw test (rw failed refl)),
        refl,
      )
