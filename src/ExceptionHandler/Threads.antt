-- ===== src/ExceptionHandler/Threads.antt =====
-- src/ehandler.cc: two threads that make system calls. The lock is held in handler_cb only, and both
-- threads are sent to the same trampoline.
use lbw.Prelude.{ℕ, ◌+◌, ◌^◌, ◌≡◌, ◌≢◌, ◌≤◌, ◌<◌, ◌∙◌, List, ◌∷◌, Option, some, arith, ◌⊎◌}
use lbw.Prelude.Results.{Result, ok}
use lbw.ExceptionHandler.{Process, Outcome, continue_execution, access_violation, handler_cb}
use lbw.ExceptionHandler.SystemCall.{handler_cb-system_call}
use lbw.ExceptionHandler.Machine.{cpu, run}

module _ {S : Type 0} (map_block : S → Option ℕ × S)
    (make_writeable : ℕ → ℕ → S → Result (Unit {0}) × S) (linux_mce linear : ℕ) (s : Process S)
    (t b : ℕ) where
  abbrev handled : Process S → Result Outcome × Process S
  handled = handler_cb map_block make_writeable linux_mce linear access_violation

  -- handler_cb: let a thread stand at an `int 0x80`, and another one at a different `int 0x80`, at b.
  -- The handler runs for the first one and then for the other, before the first one goes on. Then
  -- the first thread gets to Linux_MCE with the other thread's return address on the stack.
  pub handler_cb-threads :
      s.trampoline ≡ some t
      → linux_mce < 2 ^ 32
      → s.eip ≢ 0
      → s.eip ≤ 0x8000_0000
      → s.memory s.eip ≡ 0xcd
      → s.memory (s.eip + 1) ≡ 0x80
      → b ≢ 0
      → b ≤ 0x8000_0000
      → s.memory b ≡ 0xcd
      → s.memory (b + 1) ≡ 0x80
      → b + 1 < t ⊎ t + 11 ≤ b
      → (s1 : Process S) × (s2 : Process S) × (handled s ≡ (ok continue_execution, s1))
        × (handled (record s1 { eip = b }) ≡ (ok continue_execution, s2))
        × ((stack : List ℕ)
            → run 3 s2.memory (cpu s1.eip stack) ≡ some (cpu linux_mce ((b + 2) ∷ stack)))
  handler_cb-threads known small a1 a2 a3 a4 b1 b2 b3 b4 apart =
      let (s1, done1, at_t, own, runs1, kept1) =
        handler_cb-system_call map_block make_writeable linux_mce linear s t known a1 a2 small a3
          a4 in
      let (s2, done2, at_t2, own2, runs2, kept2) =
        handler_cb-system_call map_block make_writeable linux_mce linear (record s1 { eip = b }) t
          own b1 b2 small (kept1 b (first_out apart) ∙ b3)
          (kept1 (b + 1) (second_out apart) ∙ b4) in
      (s1, s2, done1, done2, λ stack. rw at_t (rw at_t2 at (runs2 stack)))
    where
      first_out : b + 1 < t ⊎ t + 11 ≤ b → b < t ⊎ t + 11 ≤ b
      first_out h = ground arith

      second_out : b + 1 < t ⊎ t + 11 ≤ b → b + 1 < t ⊎ t + 11 ≤ b + 1
      second_out h = ground arith
