-- ===== src/ExceptionHandler/Gs.antt =====
-- src/ehandler.cc: what the handler does with an instruction that has a %gs prefix.
use lbw.Prelude.{
  ℕ, ◌+◌, ◌^◌, ◌≡◌, ◌≢◌, ◌≤◌, ◌<◌, refl, sym, ◌∙◌, ap, Bool, true, false, List, ◌∷◌, ◌++◌, Option,
  some, leb, arith, ◌⊎◌, length,
}
use lbw.Prelude.Results.{Result, ok}
use lbw.Prelude.Text.{Bytes}
use lbw.ExceptionHandler.{
  Process, Memory, Outcome, continue_execution, access_violation, handler_cb, by_opcode, push,
  store, store_bytes, load_bytes, allocate_fragment, copy_or_jump, copy_fragment, gs_case, jump,
  write_jump_instruction,
}
use lbw.ExceptionHandler.Contents.{Holds, store-Holds, store-Holds_other, load-Holds, outside}
use lbw.ExceptionHandler.Fragments.{Apart}
use lbw.ExceptionHandler.SystemCall.{reach_switch}
use lbw.ExceptionHandler.Machine.{cpu, run, execute-jump}
use lbw.GsCode.{translate_gs_instruction}
use lbw.GsCode.Prefixes.{prefixed}
use lbw.GsCode.Lengths.{translate_gs_instruction-length}
use lbw.ExceptionHandler.Trampoline.{
  Ready, ready_lem, trampoline-Holds, allocate_memory, first_byte, second_byte,
}

module _ {S : Type 0} (map_block : S → Option ℕ × S)
    (make_writeable : ℕ → ℕ → S → Result (Unit {0}) × S) (linux_mce linear : ℕ) (s : Process S)
    (t : ℕ) (known : s.trampoline ≡ some t) (some_code : s.eip ≢ 0) (low : s.eip ≤ 0x8000_0000)
    (l : Bool) (code : Bytes) (at_eip : load_bytes 16 s.eip s.memory ≡ prefixed l code)
    (out : Bytes) (n : ℕ)
    (translated : translate_gs_instruction linear (prefixed l code) ≡ ok (out, n)) where
  abbrev handled : Result Outcome × Process S
  handled = handler_cb map_block make_writeable linux_mce linear access_violation s

  -- The process once the trampoline is written.
  abbrev pub behind : Process S
  behind = store t (push (s.eip + n)) (record (store (t + 5) out s) { eip = s.eip + n })

  pub reach_copy : handled ≡ copy_or_jump map_block make_writeable s.eip n t (length out + 5) behind
  unfolding by_opcode gs_case
  reach_copy =
      reach_switch map_block make_writeable linux_mce linear s t known some_code low
      ∙ at_prefix l at_eip translated
    where
      at_prefix :
          (l : Bool)
          → load_bytes 16 s.eip s.memory ≡ prefixed l code
          → translate_gs_instruction linear (prefixed l code) ≡ ok (out, n)
          → by_opcode map_block make_writeable linux_mce linear t s
            ≡ copy_or_jump map_block make_writeable s.eip n t (length out + 5) behind
      at_prefix true e h =
          let whole : translate_gs_instruction linear (load_bytes 16 s.eip s.memory) ≡ ok (out, n) =
            (rw e h) in
          let op : s.memory s.eip ≡ 0xf0 = first_byte s.eip s.memory _ _ e in
          let next : s.memory (s.eip + 1) ≡ 0x65 = second_byte s.eip s.memory _ _ _ e in
          rw (op, next) (rw whole refl)
      at_prefix false e h =
          let whole : translate_gs_instruction linear (load_bytes 16 s.eip s.memory) ≡ ok (out, n) =
            (rw e h) in
          let op : s.memory s.eip ≡ 0x65 = first_byte s.eip s.memory _ _ e in rw op (rw whole refl)

  small_end : s.eip + n < 4294967296
  small_end =
      let (a, b) = translate_gs_instruction-length linear n (prefixed l code) out translated in
      omega arith

  Ready-trampoline : Ready behind.memory t (s.eip + n) out
  Ready-trampoline =
      ready_lem behind.memory t (s.eip + n) out small_end
        (trampoline-Holds s.memory t (s.eip + n) out)

  -- handler_cb: after an access violation at an instruction with a %gs prefix, below 2 GB, that is
  -- translated and has less than 5 bytes, Eip is at the trampoline. There stand a push of where the
  -- instruction ends and, behind it, the translated code; no other memory is written.
  pub handler_cb-short :
      n < 5
      → (s' : Process S) × (handled ≡ (ok continue_execution, s'))
        × (s'.eip ≡ t)
        × Ready s'.memory t (s.eip + n) out
        × ((x : ℕ) → x < t ⊎ t + 5 + length out ≤ x → s'.memory x ≡ s.memory x)
  unfolding copy_or_jump
  handler_cb-short short =
      let test : leb 5 n ≡ false = ground arith in
      (
        record behind { eip = t },
        rw reach_copy (rw test refl),
        refl,
        Ready-trampoline,
        λ x h.
            outside t (push (s.eip + n)) (store_bytes (t + 5) out s.memory) x (first_part x h)
            ∙ outside (t + 5) out s.memory x (second_part x h),
      )
    where
      first_part : (x : ℕ) → x < t ⊎ t + 5 + length out ≤ x → x < t ⊎ t + 5 ≤ x
      first_part x h = ground arith

      second_part : (x : ℕ) → x < t ⊎ t + 5 + length out ≤ x → x < t + 5 ⊎ t + 5 + length out ≤ x
      second_part x h = ground arith

  -- What copy_fragment makes of the process, for a fragment at f.
  module _ (pages : S) (f : ℕ) (s2 : Process S)
      (writeable : make_writeable s.eip 5 s.pages ≡ (ok tt, pages))
      (allocated : allocate_fragment map_block (length out + 5) (record behind { pages = pages })
        ≡ (ok f, s2))
      (apart : Apart f (length out + 5) s.eip 5) (small : f < 2 ^ 32) where
    abbrev whole_code : Bytes
    whole_code = push (s.eip + n) ++ out

    abbrev in_fragment : Memory
    in_fragment = store_bytes f (load_bytes (length out + 5) t s2.memory) s2.memory

    abbrev end_memory : Memory
    end_memory = store_bytes s.eip (jump f s.eip) in_fragment

    same_memory : s2.memory ≡ behind.memory
    same_memory =
        ap (λ r. r.1.memory) (sym allocated)
        ∙ allocate_memory map_block (length out + 5) (record behind { pages = pages })

    copied : load_bytes (length out + 5) t s2.memory ≡ whole_code
    copied =
        let size : length out + 5 ≡ length whole_code = omega arith in
        rw (same_memory, size)
          (load-Holds t whole_code behind.memory (trampoline-Holds s.memory t (s.eip + n) out))

    at_fragment : Holds f whole_code end_memory
    at_fragment =
        store-Holds_other f s.eip whole_code (jump f s.eip) in_fragment (around apart)
          (rw copied (store-Holds f whole_code s2.memory))
      where
        around : Apart f (length out + 5) s.eip 5 → s.eip + 5 ≤ f ⊎ f + length whole_code ≤ s.eip
        around a = ground arith

    -- handler_cb: let such an instruction have 5 bytes or more, and let the page be made writeable
    -- and a fragment be allocated that does not overlap the code. Then Eip is at the fragment, where
    -- the push and the translated code stand; and in the place of the old instruction there is a
    -- jump to it, so that the processor gets there by itself the next time.
    pub handler_cb-long :
        5 ≤ n
        → (s' : Process S) × (handled ≡ (ok continue_execution, s'))
          × (s'.eip ≡ f)
          × Ready s'.memory f (s.eip + n) out
          × ((stack : List ℕ)
              → run 2 s'.memory (cpu s.eip stack) ≡ some (cpu (f + 5) ((s.eip + n) ∷ stack)))
    unfolding copy_or_jump copy_fragment write_jump_instruction run
    handler_cb-long long =
        let test : leb 5 n ≡ true = ground arith in
        let ready = ready_lem end_memory f (s.eip + n) out small_end at_fragment in
        (
          record s2 { memory = end_memory; eip = f },
          rw reach_copy (rw test (rw writeable (rw allocated refl))),
          refl,
          ready,
          λ stack.
              rw
                (execute-jump end_memory s.eip stack f small (omega arith)
                  (store-Holds s.eip (jump f s.eip) in_fragment))
                (ready.0 stack),
        )
