-- ===== src/GsCode/Decoder.antt =====
-- What instructions of the i386 mean, for those that src/ehandler.cc knows, as the processor's
-- manual has them: the operand in memory, with a SIB byte and every mode, and the other operands.
use lbw.Prelude.{
  ℕ, ◌+◌, ◌/◌, ◌%◌, ◌^◌, Bool, true, false, ◌||◌, [], ◌∷◌, Option, none, some, ◌==◌, ltb,
  if◌then◌else◌,
}
use lbw.Prelude.Text.{Bytes}
use lbw.Prelude.Words.{cut, word32}

-- How an opcode goes on: with a ModR/M byte and so many immediate bytes, with an address, or with
-- a second byte.
pub data Kind : Type 0 where
  escape moffs other : Kind
  modrm_imm : ℕ → Kind

unfoldable pub kind : ℕ → Kind
kind op =
    if op == 0x03 || op == 0x0b || op == 0x33
    then modrm_imm 0
    else if op == 0x0f
    then escape
    else if op == 0x81
    then modrm_imm 4
    else if op == 0x83
    then modrm_imm 1
    else if op == 0x87 || op == 0x89 || op == 0x8a || op == 0x8b
    then modrm_imm 0
    else if op == 0xa0 || op == 0xa1 || op == 0xa2 || op == 0xa3
    then moffs
    else if op == 0xc6
    then modrm_imm 1
    else if op == 0xc7
    then modrm_imm 4
    else other

-- The second bytes behind 0x0f.
unfoldable pub kind2 : ℕ → Kind
kind2 op = if op == 0xb1 then modrm_imm 0 else other

-- base + index * 2 ^ scale + disp; a SIB byte is kept as it is.
pub record Address : Type 0 where
  pub base : Option ℕ
  pub sib : Option ℕ
  pub disp : ℕ

-- `operand` are the bits of ModR/M for the other operand, or for more of the opcode.
pub record Insn : Type 0 where
  pub is_locked : Bool
  pub opcode : Bytes
  pub operand : ℕ
  pub address : Address
  pub imm : Bytes

abbrev pub byte_disp : ℕ → ℕ
byte_disp d = if ltb d 128 then d else d + 0xffff_ff00

-- The displacement of a mode, behind the register and the SIB byte that go before it.
abbrev pub disp_of : ℕ → Option ℕ → Option ℕ → Bytes → Option (Address × Bytes)
disp_of mode base sib bytes =
    if mode == 0
    then some (record { base = base; sib = sib; disp = 0 }, bytes)
    else if mode == 1
    then (elim bytes [
      | [] ↦ none
      | d ∷ more ↦ some (record { base = base; sib = sib; disp = byte_disp d }, more)
    ])
    else (elim bytes [
      | a ∷ b ∷ c ∷ d ∷ more ↦
          some (record { base = base; sib = sib; disp = word32 a b c d % 2 ^ 32 }, more)
      | _ ↦ none
    ])

-- The operand in memory of a ModR/M byte; a mode of 3 has none.
unfoldable pub operand_address : ℕ → Bytes → Option (Address × Bytes)
operand_address modrm bytes =
    let mode = modrm / 64 in
    let rm = modrm % 8 in
    if mode == 3
    then none
    else if rm == 4
    then (elim bytes [
      | [] ↦ none
      | sib ∷ more ↦
          if mode == 0
          then (if sib % 8 == 5
              then disp_of 2 none (some sib) more
              else disp_of 0 none (some sib) more)
          else disp_of mode none (some sib) more
    ])
    else if mode == 0
    then (if rm == 5 then disp_of 2 none none bytes else disp_of 0 (some rm) none bytes)
    else disp_of mode (some rm) none bytes

abbrev pub insn : Bytes → ℕ → Address → Bytes × Bytes → Insn × Bytes
insn opcode operand address (imm, more) = (
  record { is_locked = false; opcode = opcode; operand = operand; address = address; imm = imm },
  more,
)

abbrev pub with_imm : Bytes → ℕ → ℕ → Option (Address × Bytes) → Option (Insn × Bytes)
with_imm opcode operand k none = none
with_imm opcode operand k (some (address, more)) = elim (cut k more) [
  | none ↦ none
  | some parts ↦ some (insn opcode operand address parts)
]

-- An instruction, from behind its opcode on.
unfoldable pub decode_kind : Kind → Bytes → Bytes → Option (Insn × Bytes)
unfolding operand_address
decode_kind (modrm_imm k) opcode (modrm ∷ more) =
    with_imm opcode (modrm / 8 % 8) k (operand_address modrm more)
decode_kind moffs opcode bytes = with_imm opcode 0 0 (disp_of 2 none none bytes)
decode_kind _ opcode bytes = none

abbrev pub decode_second : ℕ → Bytes → Option (Insn × Bytes)
decode_second op [] = none
decode_second op (op2 ∷ more) = decode_kind (kind2 op2) (op ∷ op2 ∷ []) more

abbrev pub decode_first : Kind → ℕ → Bytes → Option (Insn × Bytes)
decode_first escape op more = decode_second op more
decode_first k op more = decode_kind k (op ∷ []) more

-- An instruction without prefixes, and what stands behind it.
unfoldable pub decode : Bytes → Option (Insn × Bytes)
unfolding kind kind2 decode_kind
decode [] = none
decode (op ∷ more) = decode_first (kind op) op more

abbrev pub locked : Option (Insn × Bytes) → Option (Insn × Bytes)
locked none = none
locked (some (i, more)) = some (record i { is_locked = true }, more)

-- An instruction that may have a lock prefix.
unfoldable pub decode_locked : Bytes → Option (Insn × Bytes)
unfolding decode
decode_locked [] = none
decode_locked (b ∷ more) = if b == 0xf0 then locked (decode more) else decode (b ∷ more)

-- The address in memory, where `regs` has the registers and `index` the value of a SIB byte; the
-- segment's base is added to it.
abbrev pub base_value : (ℕ → ℕ) → Option ℕ → ℕ
base_value regs none = 0
base_value regs (some r) = regs r

unfoldable pub effective : (ℕ → ℕ) → (Option ℕ → ℕ) → ℕ → Address → ℕ
effective regs index segment a = (base_value regs a.base + index a.sib + a.disp + segment) % 2 ^ 32
