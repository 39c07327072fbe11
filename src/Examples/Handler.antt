-- ===== src/Examples/Handler.antt =====
-- Instructions with a %gs prefix and system calls, in a process with an empty memory but for them.
use lbw.Prelude.{
  ℕ, ◌+◌, ◌/◌, ◌≡◌, ◌≢◌, ◌≤◌, ◌<◌, refl, true, false, List, [], ◌∷◌, ◌++◌, Option, none, some,
  length, arith, inl, inr, ◌⊎◌,
}
use lbw.Prelude.Results.{Result, ok, throw, fault, aborted, enomem}
use lbw.Prelude.Text.{Bytes}
use lbw.Prelude.Words.{cut}
use lbw.GsCode.{ret, Translated, translate_gs_instruction}
use lbw.GsCode.Decoder.{decode, decode_locked, Insn}
use lbw.GsCode.Prefixes.{Moved, Same, translate_gs_instruction_lem}
use lbw.GsCode.Total.{translate_gs_instruction_returns}
use lbw.GsCode.Lengths.{translate_gs_instruction-length}
use lbw.ExceptionHandler.{
  Process, Memory, continue_execution, access_violation, store_bytes, load_bytes, handler_cb,
  allocate_fragment,
}
use lbw.ExceptionHandler.Fragments.{allocate_fragment_lem, Fresh}
use lbw.ExceptionHandler.Machine.{cpu, run}
use lbw.ExceptionHandler.SystemCall.{handler_cb-system_call}
use lbw.ExceptionHandler.Executed.{handler_cb-executed}
use lbw.GsCode.Meaning.{relocated}
use lbw.ExceptionHandler.Trampoline.{Ready}
use lbw.ExceptionHandler.Gs.{behind, handler_cb-long}
use lbw.ExceptionHandler.Skipped.{handler_cb-skipped}
use lbw.ExceptionHandler.Threads.{handler_cb-threads}

-- mov 0x10, %eax and what stands behind it
abbrev load_word : Bytes
load_word = 0x8b ∷ 0x05 ∷ 0x10 ∷ 0 ∷ 0 ∷ 0 ∷ 0x90 ∷ []

abbrev load_word_insn : Insn
load_word_insn = record {
  is_locked = false;
  opcode = 0x8b ∷ [];
  operand = 0;
  address = record { base = none; sib = none; disp = 0x10 };
  imm = [];
}

abbrev base : ℕ
base = 0x0040_0000

abbrev load_word_out : Bytes
load_word_out = 0x8b ∷ 0x05 ∷ 0x10 ∷ 0 ∷ 0x40 ∷ 0 ∷ 0xc3 ∷ []

translated_word : translate_gs_instruction base (0x65 ∷ load_word) ≡ ok (load_word_out, 7)
unfolding translate_gs_instruction
translated_word = refl

decoded_word : decode load_word ≡ some (load_word_insn, 0x90 ∷ [])
unfolding decode
decoded_word = refl

translate_gs_instruction_lem_example :
    Moved base false load_word load_word_out 7 load_word_insn (0x90 ∷ []) × Same base load_word_insn
translate_gs_instruction_lem_example =
    translate_gs_instruction_lem base 7 false load_word load_word_out (0x90 ∷ []) load_word_insn
      (omega arith) decoded_word refl translated_word

translate_gs_instruction_returns_example :
    (◌≢◌ (5 / 64) 1
      → (r : Translated) × (translate_gs_instruction base (0xf0 ∷ 0x65 ∷ load_word) ≡ ok r))
    × (5 / 64 ≡ 1 → translate_gs_instruction base (0xf0 ∷ 0x65 ∷ load_word) ≡ fault aborted)
translate_gs_instruction_returns_example =
    translate_gs_instruction_returns base 0x8b 5 true (0x10 ∷ 0 ∷ 0 ∷ 0 ∷ 0x90 ∷ []) (0x90 ∷ [])
      load_word_insn (omega arith) (omega arith) refl decoded_word refl

translate_gs_instruction-length_example : (length load_word_out ≤ 12) × (◌≤◌ 7 12)
translate_gs_instruction-length_example =
    translate_gs_instruction-length base 7 (0x65 ∷ load_word) load_word_out translated_word

-- A process whose trampoline is at 0x9000, in a block at 0x8000 of which 0x1020 bytes are used.
abbrev mapping : Unit {0} → Option ℕ × Unit {0}
mapping u = (some 0x0010_0000, u)

abbrev writeable : ℕ → ℕ → Unit {0} → Result (Unit {0}) × Unit {0}
writeable a n u = (ok tt, u)

abbrev refused : ℕ → ℕ → Unit {0} → Result (Unit {0}) × Unit {0}
refused a n u = (throw enomem, u)

abbrev load_base : Bytes
load_base = 0x8b ∷ 0x03 ∷ 0x90 ∷ []

abbrev memory : Memory
memory = store_bytes 0x1000 (0xcd ∷ 0x80 ∷ []) (
    store_bytes 0x2000 (0xcd ∷ 0x80 ∷ [])
      (store_bytes 0x3000 (0x65 ∷ load_word) (store_bytes 0x4000 (0x65 ∷ load_base) (λ x. 0))))

abbrev process : ℕ → Process (Unit {0})
process eip = record {
  memory = memory;
  pages = tt;
  block = some 0x8000;
  index = 0x1020;
  trampoline = some 0x9000;
  eip = eip;
  eax = 0;
}

abbrev at_word : Bytes
at_word = load_word ++ 0 ∷ 0 ∷ 0 ∷ 0 ∷ 0 ∷ 0 ∷ 0 ∷ 0 ∷ []

abbrev at_base : Bytes
at_base = load_base ++ 0 ∷ 0 ∷ 0 ∷ 0 ∷ 0 ∷ 0 ∷ 0 ∷ 0 ∷ 0 ∷ 0 ∷ 0 ∷ 0 ∷ []

abbrev load_base_out : Bytes
load_base_out = 0x8b ∷ 0x83 ∷ 0 ∷ 0 ∷ 0x40 ∷ 0 ∷ 0xc3 ∷ []

word_there : load_bytes 16 0x3000 memory ≡ 0x65 ∷ at_word
unfolding load_bytes store_bytes
word_there = refl

base_there : load_bytes 16 0x4000 memory ≡ 0x65 ∷ at_base
unfolding load_bytes store_bytes
base_there = refl

word_done : translate_gs_instruction base (0x65 ∷ at_word) ≡ ok (load_word_out, 7)
unfolding translate_gs_instruction
word_done = refl

base_done : translate_gs_instruction base (0x65 ∷ at_base) ≡ ok (load_base_out, 3)
unfolding translate_gs_instruction
base_done = refl

allocate_fragment_lem_example :
    Fresh mapping
      (process 0)
      ((0x9000, 32) ∷ [])
      0xf000
      (allocate_fragment mapping 0xf000 (process 0))
allocate_fragment_lem_example =
    allocate_fragment_lem mapping (process 0) ((0x9000, 32) ∷ []) 0xf000 (omega arith)
      (omega arith, (inl (omega arith), tt)) (inl (omega arith), tt)

calls_there :
    (memory 0x1000 ≡ 0xcd)
    × (memory 0x1001 ≡ 0x80)
    × (memory 0x2000 ≡ 0xcd)
    × (memory 0x2001 ≡ 0x80)
unfolding store_bytes
calls_there = (refl, refl, refl, refl)

handler_cb-system_call_example :
    (s' : Process (Unit {0})) × (handler_cb mapping writeable 0x7000 base access_violation
        (process 0x1000)
      ≡ (ok continue_execution, s'))
    × (s'.eip ≡ 0x9000)
    × (s'.trampoline ≡ some 0x9000)
    × ((stack : List ℕ) → run 3 s'.memory (cpu s'.eip stack) ≡ some (cpu 0x7000 (0x1002 ∷ stack)))
    × ((x : ℕ) → x < 0x9000 ⊎ 0x9000 + 11 ≤ x → s'.memory x ≡ memory x)
handler_cb-system_call_example =
    handler_cb-system_call mapping writeable 0x7000 base (process 0x1000) 0x9000 refl (omega arith)
      (omega arith) (omega arith) calls_there.0 calls_there.1

handler_cb-skipped_example :
    (s' : Process (Unit {0})) × (handler_cb mapping refused 0x7000 base access_violation
        (process 0x3000)
      ≡ (ok continue_execution, s'))
    × (s'.eip ≡ 0x3007)
handler_cb-skipped_example =
    handler_cb-skipped mapping refused 0x7000 base (process 0x3000) 0x9000 refl (omega arith)
      (omega arith) false at_word word_there load_word_out 7 word_done (omega arith) enomem tt refl

handler_cb-threads_example :
    (s1 : Process (Unit {0})) × (s2 : Process (Unit {0})) × (handler_cb mapping writeable 0x7000
        base access_violation
        (process 0x1000)
      ≡ (ok continue_execution, s1))
    × (handler_cb mapping writeable 0x7000 base access_violation (record s1 { eip = 0x2000 })
        ≡ (ok continue_execution, s2))
    × ((stack : List ℕ) → run 3 s2.memory (cpu s1.eip stack) ≡ some (cpu 0x7000 (0x2002 ∷ stack)))
handler_cb-threads_example =
    handler_cb-threads mapping writeable 0x7000 base (process 0x1000) 0x9000 0x2000 refl
      (omega arith) (omega arith) (omega arith) calls_there.0 calls_there.1 (omega arith)
      (omega arith) calls_there.2 calls_there.3 (inl (omega arith))

-- The process once the trampoline is written, at the longer instruction.
abbrev written : Process (Unit {0})
written =
    behind mapping writeable 0x7000 base (process 0x3000) 0x9000 refl (omega arith) (omega arith)
      false at_word word_there load_word_out 7 word_done

abbrev with_fragment : Process (Unit {0})
with_fragment = record written { index = 0x102c }

fragment_there : allocate_fragment mapping 12 written ≡ (ok 0x9020, with_fragment)
unfolding allocate_fragment
fragment_there = refl

handler_cb-long_example :
    (s' : Process (Unit {0})) × (handler_cb mapping writeable 0x7000 base access_violation
        (process 0x3000)
      ≡ (ok continue_execution, s'))
    × (s'.eip ≡ 0x9020)
    × Ready s'.memory 0x9020 0x3007 load_word_out
    × ((stack : List ℕ) → run 2 s'.memory (cpu 0x3000 stack) ≡ some (cpu 0x9025 (0x3007 ∷ stack)))
handler_cb-long_example =
    handler_cb-long mapping writeable 0x7000 base (process 0x3000) 0x9000 refl (omega arith)
      (omega arith) false at_word word_there load_word_out 7 word_done tt 0x9020 with_fragment refl
      fragment_there (inr (omega arith)) (omega arith) (omega arith)

abbrev load_base_insn : Insn
load_base_insn = record {
  is_locked = false;
  opcode = 0x8b ∷ [];
  operand = 0;
  address = record { base = some 3; sib = none; disp = 0 };
  imm = [];
}

abbrev behind_base : Bytes
behind_base = 0x90 ∷ 0 ∷ 0 ∷ 0 ∷ 0 ∷ 0 ∷ 0 ∷ 0 ∷ 0 ∷ 0 ∷ 0 ∷ 0 ∷ 0 ∷ []

decoded_base : decode at_base ≡ some (load_base_insn, behind_base)
unfolding decode
decoded_base = refl

handler_cb-executed_example :
    (s' : Process (Unit {0})) × (e : ℕ) × (pre : Bytes) × (handler_cb mapping writeable 0x7000 base
        access_violation
        (process 0x4000)
      ≡ (ok continue_execution, s'))
    × ((stack : List ℕ)
        → run 1 s'.memory (cpu s'.eip stack) ≡ some (cpu (s'.eip + 5) ((0x4000 + e) ∷ stack)))
    × (decode_locked (load_bytes (length load_base_out) (s'.eip + 5) s'.memory)
        ≡ some (relocated base load_base_insn, ret ∷ []))
    × (cut e (load_bytes 16 0x4000 memory) ≡ some (pre, behind_base))
handler_cb-executed_example =
    handler_cb-executed mapping writeable 0x7000 base (process 0x4000) 0x9000 refl (omega arith)
      (omega arith) false at_base base_there load_base_out 3 base_done (omega arith) load_base_insn
      behind_base (omega arith) decoded_base refl
