-- ===== src/GsCode/Sib.antt =====
-- src/ehandler.cc: a SIB byte, which getmodrmsize does not know.
use lbw.Prelude.{ℕ, ◌+◌, ◌/◌, ◌%◌, ◌≡◌, ◌≢◌, ◌<◌, refl, false, [], ◌∷◌, ◌++◌, none, some, arith}
use lbw.Prelude.Bits.{and-ones}
use lbw.Prelude.Results.{ok}
use lbw.Prelude.Text.{Bytes}
use lbw.Prelude.Words.{cut, bytes32}
use lbw.GsCode.{ret, translate_opcode, mungedinstruction, shape, either}
use lbw.GsCode.Decoder.{kind, decode, decode_kind, operand_address, Insn, modrm_imm}
use lbw.GsCode.Operands.{masks, other_test}
use lbw.GsCode.Meaning.{size_zero}

abbrev sib_insn : ℕ → ℕ → ℕ → Insn
sib_insn op modrm sib = record {
  is_locked = false;
  opcode = op ∷ [];
  operand = modrm / 8 % 8;
  address = record { base = none; sib = some sib; disp = 0 };
  imm = [];
}

-- An instruction with a SIB byte and neither a displacement nor immediate bytes is one byte longer
-- than translate_opcode takes it to be: Eip is left at the SIB byte, and what is written has the
-- base of %gs where the SIB byte should be.
translate_opcode-sib :
    (linear op modrm sib : ℕ) (more : Bytes)
    → shape op ≡ either 2 6
    → kind op ≡ modrm_imm 0
    → modrm < 64
    → modrm % 8 ≡ 4
    → sib % 8 ≢ 5
    → (decode (op ∷ modrm ∷ sib ∷ more) ≡ some (sib_insn op modrm sib, more))
      × (translate_opcode linear (op ∷ modrm ∷ sib ∷ more)
          ≡ ok (op ∷ (modrm + 128) ∷ bytes32 linear ++ ret ∷ [], 2))
      × (cut 2 (op ∷ modrm ∷ sib ∷ more) ≡ some (op ∷ modrm ∷ [], sib ∷ more))
unfolding decode decode_kind operand_address translate_opcode mungedinstruction
translate_opcode-sib linear op modrm sib more sh known lo rm base =
    let mode : modrm / 64 ≡ 0 = omega arith in
    (
      rw known (rw (mode, rm) (rw (other_test (sib % 8) 5 base) refl)),
      rw sh (
          rw (size_zero modrm mode (omega arith))
            (rw (and-ones 3 modrm) (rw ((masks modrm lo).0, rm, (masks modrm lo).1) refl))),
      refl,
    )
