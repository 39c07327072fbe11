-- ===== src/ExceptionHandler/SystemCall.antt =====
-- src/ehandler.cc: an int 0x80, and what the handler does with other exceptions.
use lbw.Prelude.{
  ℕ, ◌+◌, ◌^◌, ◌≡◌, ◌≢◌, ◌≤◌, ◌<◌, refl, false, List, [], ◌∷◌, ◌++◌, Option, some, ltb, ◌==◌,
  if◌then◌else◌, arith, ◌⊎◌,
}
use lbw.Prelude.Results.{Result, ok, fault, aborted}
use lbw.ExceptionHandler.{
  Process, Outcome, continue_execution, access_violation, handler_cb, by_opcode, push, store,
  exited, system_call_case,
}
use lbw.ExceptionHandler.Contents.{store-Holds, outside}
use lbw.ExceptionHandler.Machine.{cpu, run, run-push-ret}
use lbw.GsCode.{ret}
use lbw.GsCode.Operands.{other_test}

module _ {S : Type 0} (map_block : S → Option ℕ × S)
    (make_writeable : ℕ → ℕ → S → Result (Unit {0}) × S) (linux_mce linear : ℕ) (s : Process S)
    (t : ℕ) (known : s.trampoline ≡ some t) (some_code : s.eip ≢ 0)
    (low : s.eip ≤ 0x8000_0000) where
  abbrev handled : Result Outcome × Process S
  handled = handler_cb map_block make_writeable linux_mce linear access_violation s

  -- An access violation gets to the switch.
  pub reach_switch : handled ≡ by_opcode map_block make_writeable linux_mce linear t s
  unfolding handler_cb
  reach_switch =
      let a : (s.eip == 0) ≡ false = ground arith in
      let b : ltb 0x8000_0000 s.eip ≡ false = ground arith in rw known (rw (a, b) refl)

  -- handler_cb: at `int 0x80`, below 2 GB and once the handler has its trampoline, an access
  -- violation goes on with Eip at the trampoline. From there the processor gets, in three
  -- instructions and with any stack, to Linux_MCE with the address behind the `int` on the stack.
  -- Nothing but the 11 bytes of the trampoline is written.
  pub handler_cb-system_call :
      linux_mce < 2 ^ 32
      → s.memory s.eip ≡ 0xcd
      → s.memory (s.eip + 1) ≡ 0x80
      → (s' : Process S) × (handled ≡ (ok continue_execution, s'))
        × (s'.eip ≡ t)
        × (s'.trampoline ≡ some t)
        × ((stack : List ℕ)
            → run 3 s'.memory (cpu s'.eip stack) ≡ some (cpu linux_mce ((s.eip + 2) ∷ stack)))
        × ((x : ℕ) → x < t ⊎ t + 11 ≤ x → s'.memory x ≡ s.memory x)
  unfolding by_opcode system_call_case
  handler_cb-system_call small int number = (
    record (store t (push (s.eip + 2) ++ (push linux_mce ++ ret ∷ [])) s) { eip = t },
    rw reach_switch (rw (int, number) refl),
    refl,
    known,
    λ stack.
        run-push-ret _ t (s.eip + 2) linux_mce stack (omega arith) small
          (store-Holds t (push (s.eip + 2) ++ (push linux_mce ++ ret ∷ [])) s.memory),
    λ x h. outside t _ s.memory x h,
  )

  -- handler_cb: at `mov %eax, %gs` an access violation goes on behind it and changes nothing else,
  -- where eax is 0x53; elsewhere the process ends.
  pub handler_cb-load_gs :
      s.memory s.eip ≡ 0x8e
      → s.memory (s.eip + 1) ≡ 0xe8
      → handled ≡ (
          if s.eax == 0x53
          then (ok continue_execution, record s { eip = s.eip + 2 })
          else (fault aborted, s))
  unfolding by_opcode
  handler_cb-load_gs op next = rw reach_switch (rw (op, next) refl)

  -- handler_cb: an access violation at an instruction that is none of these ends the process with
  -- the status 0.
  pub handler_cb-exited :
      s.memory s.eip ≢ 0xcd
      → s.memory s.eip ≢ 0xf0
      → s.memory s.eip ≢ 0x65
      → s.memory s.eip ≢ 0x8e
      → handled ≡ (ok (exited 0), s)
  unfolding by_opcode
  handler_cb-exited a b c d =
      rw reach_switch
        (rw (other_test _ _ a, other_test _ _ b, other_test _ _ c, other_test _ _ d) refl)
