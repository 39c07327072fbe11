-- ===== src/GsCode/Prefixes.antt =====
-- src/ehandler.cc: translate_gs_instruction with its prefixes: that what it writes does what the
-- instruction does, and that it returns.
use lbw.Prelude.{
  ℕ, suc, ◌≡◌, refl, Bool, true, false, [], ◌∷◌, Option, none, some, ◌==◌, if◌then◌else◌, arith,
  inl, inr, Bool-cases, ==→eq,
}
use lbw.Prelude.Results.{ok, and_then-ok}
use lbw.Prelude.Flags.{All}
use lbw.Prelude.Text.{Bytes}
use lbw.Prelude.Words.{cut}
use lbw.GsCode.{ret, translate_opcode, translate_gs_instruction}
use lbw.GsCode.Decoder.{decode, Insn, decode_locked, effective}
use lbw.GsCode.Meaning.{relocated}
use lbw.GsCode.Cases.{IsByte, translate_opcode_lem}

-- A prefix for %gs, with one for a lock before it or none.
abbrev pub prefixed : Bool → Bytes → Bytes
prefixed true code = 0xf0 ∷ 0x65 ∷ code
prefixed false code = 0x65 ∷ code

abbrev pub with_lock : Bool → Insn → Insn
with_lock true i = record i { is_locked = true }
with_lock false i = i

-- What is written for an instruction with its prefixes, and where Eip moves to.
abbrev pub Moved : ℕ → Bool → Bytes → Bytes → ℕ → Insn → Bytes → Type 0
Moved linear l code out n i rest =
    (decode_locked out ≡ some (with_lock l (relocated linear i), ret ∷ []))
    × (pre : Bytes) × (cut n (prefixed l code) ≡ some (pre, rest))

no_lock : (out : Bytes) → decode (0xf0 ∷ out) ≡ none
unfolding decode
no_lock out = refl

decode_locked-none :
    (out : Bytes) (i : Insn) (rest : Bytes)
    → decode out ≡ some (i, rest)
    → decode_locked out ≡ some (i, rest)
unfolding decode_locked
decode_locked-none [] i rest d = d
decode_locked-none (b ∷ out) i rest d = elim (Bool-cases (b == 0xf0)) [
  | inl e ↦
      let same : b ≡ 0xf0 = ==→eq b 0xf0 e in
      let no_way : decode (0xf0 ∷ out) ≡ some (i, rest) = (rw same at d) in
      let gone : decode (0xf0 ∷ out) ≡ none = no_lock out in cc
  | inr e ↦ rw e d
]

-- The address that an instruction without a segment uses is the one that the instruction with
-- `linear` as the base of its segment used.
effective_lem :
    (linear : ℕ) (i : Insn) (regs : ℕ → ℕ) (index : Option ℕ → ℕ)
    → effective regs index 0 (relocated linear i).address ≡ effective regs index linear i.address
unfolding effective
effective_lem linear i regs index = omega arith

abbrev pub Same : ℕ → Insn → Type 0
Same linear i =
    (regs : ℕ → ℕ) (index : Option ℕ → ℕ)
    → effective regs index 0 (relocated linear i).address ≡ effective regs index linear i.address

translated_prefix :
    (linear : ℕ) (l : Bool) (code out : Bytes) (n : ℕ)
    → translate_gs_instruction linear (prefixed l code) ≡ ok (out, n)
    → (o : Bytes) × (m : ℕ) × (translate_opcode linear code ≡ ok (o, m))
      × (out ≡ (if l then 0xf0 ∷ o else o))
      × (n ≡ (if l then suc (suc m) else suc m))
unfolding translate_gs_instruction
translated_prefix linear true code out n h =
    let (t, e, f) = and_then-ok (translate_opcode linear code) _ h in (t.0, t.1, e, cc, cc)
translated_prefix linear false code out n h =
    let (t, e, f) = and_then-ok (translate_opcode linear code) _ h in (t.0, t.1, e, cc, cc)

-- translate_gs_instruction: let the code be 0x65, or 0xf0 and 0x65, and bytes that decode to an
-- instruction whose operand in memory has no SIB byte. If the code returns, it has written, with
-- ret behind it, that instruction with the lock prefix it had and with the displacement moved by
-- linear; Eip moves to where the instruction ends. Without a segment the address of the written
-- operand is, for all registers, the one that the old operand has in a segment with base linear.
pub translate_gs_instruction_lem :
    (linear n : ℕ) (l : Bool) (code out rest : Bytes) (i : Insn)
    → All IsByte code
    → decode code ≡ some (i, rest)
    → i.address.sib ≡ none
    → translate_gs_instruction linear (prefixed l code) ≡ ok (out, n)
    → Moved linear l code out n i rest × Same linear i
unfolding decode_locked
translate_gs_instruction_lem linear n l code out rest i bytes d no_sib h =
    (by_lock l (translated_prefix linear l code out n h), effective_lem linear i)
  where
    by_lock :
        (l : Bool)
        → ((o : Bytes) × (m : ℕ) × (translate_opcode linear code ≡ ok (o, m))
            × (out ≡ (if l then 0xf0 ∷ o else o))
            × (n ≡ (if l then suc (suc m) else suc m)))
        → Moved linear l code out n i rest
    by_lock true (o, m, e, f, g) =
        let (kept, pre, moved) = translate_opcode_lem linear m code o rest i bytes d no_sib e in
        (rw f (rw (decode_locked, kept) refl), 0xf0 ∷ 0x65 ∷ pre, rw g (rw moved refl))
    by_lock false (o, m, e, f, g) =
        let (kept, pre, moved) = translate_opcode_lem linear m code o rest i bytes d no_sib e in
        (
          rw f (decode_locked-none o (relocated linear i) (ret ∷ []) kept),
          0x65 ∷ pre,
          rw g (rw moved refl),
        )
