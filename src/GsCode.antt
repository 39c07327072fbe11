-- ===== src/GsCode.antt =====
-- src/ehandler.cc: the translation of an instruction with a %gs prefix into one without. The code
-- is the bytes from Eip on; what is written is the bytes behind `out`.
pub mod Decoder
pub mod Shapes
pub mod Operands
pub mod Meaning
pub mod Escapes
pub mod Cases
pub mod Prefixes
pub mod Total
pub mod Lengths
pub mod Sib
use lbw.Prelude.{
  ℕ, zero, suc, ◌+◌, ◌/◌, ◌%◌, Bool, true, false, not, ◌||◌, ◌&&◌, List, [], ◌∷◌, ◌++◌, Option,
  none, some, ◌==◌, ltb, leb, if◌then◌else◌, bit_and, bit_or,
}
use lbw.Prelude.Results.{Result, ok, throw, fault, aborted, assert_failed, out_of_bounds, and_then}
use lbw.Prelude.Text.{Bytes}
use lbw.Prelude.Words.{cut, bytes32, word32}
use lbw.MemOp.{add32}

abbrev pub ret : ℕ
ret = 0xc3

-- getmodrmsize: the bytes of displacement behind a ModR/M byte.
unfoldable pub getmodrmsize : ℕ → Result ℕ
getmodrmsize modrm =
    let mode = modrm / 64 in
    if mode == 0
    then (if modrm % 8 == 5 then ok 4 else ok 0)
    else if mode == 1
    then ok 1
    else if mode == 2
    then ok 4
    else if mode == 3
    then fault aborted
    else ok 0

abbrev pub or_out_of_bounds {ℓ} : {A : Type ℓ} → Option A → Result A
or_out_of_bounds none = fault out_of_bounds
or_out_of_bounds (some a) = ok a

-- MemOp::Load<u32> and Store<u32> at the start of some bytes.
abbrev pub patch : ℕ → Bytes → Result Bytes
patch linear (a ∷ b ∷ c ∷ d ∷ more) = ok (bytes32 (add32 (word32 a b c d) linear) ++ more)
patch linear _ = fault out_of_bounds

-- What is written, and by how much Eip moves on.
abbrev pub Translated : Type 0
Translated = Bytes × ℕ

-- patchedinstruction
unfoldable pub patchedinstruction : ℕ → Bytes → ℕ → ℕ → Result Translated
patchedinstruction linear code insnlength patchoffset =
    and_then (or_out_of_bounds (cut insnlength code)) λ insn.
      and_then (or_out_of_bounds (cut patchoffset insn.0)) λ parts.
        and_then (patch linear parts.1) λ patched. ok (parts.0 ++ (patched ++ ret ∷ []), insnlength)

-- mungedinstruction; insertat is 2 in each of its calls.
abbrev pub munged_bytes : ℕ → Bytes → Result Bytes
munged_bytes linear (opcode ∷ modrm ∷ more) =
    if bit_and modrm 0xc0 == 0 && not (bit_and modrm 7 == 5)
    then ok (opcode ∷ bit_or modrm 0x80 ∷ bytes32 linear ++ (more ++ ret ∷ []))
    else fault assert_failed
munged_bytes linear _ = fault out_of_bounds

unfoldable pub mungedinstruction : ℕ → Bytes → ℕ → Result Translated
mungedinstruction linear code insnlength =
    and_then (or_out_of_bounds (cut insnlength code))
      λ insn. and_then (munged_bytes linear insn.0) λ out. ok (out, insnlength)

-- The cases of translate_gs_instruction: an escape to the two-byte opcodes; a displacement of four
-- bytes only, in an instruction of that length; that or no displacement, with the two lengths; an
-- address without a ModR/M byte.
pub data Shape : Type 0 where
  two_byte offset unknown : Shape
  with_disp : ℕ → Shape
  either : ℕ → ℕ → Shape

unfoldable pub shape : ℕ → Shape
shape op =
    if op == 0x0f
    then two_byte
    else if op == 0x83
    then either 3 7
    else if op == 0x8a
    then with_disp 6
    else if op == 0x0b || op == 0x03 || op == 0x33 || op == 0x87 || op == 0x89 || op == 0x8b
    then either 2 6
    else if op == 0xa0 || op == 0xa1 || op == 0xa2 || op == 0xa3
    then offset
    else if op == 0xc6
    then with_disp 7
    else if op == 0x81 || op == 0xc7
    then either 6 10
    else unknown

-- `switch (getmodrmsize(modrm))`
abbrev pub by_size : {A : Type 0} → ℕ → Result A → Result A → Result A
by_size size none_case four_case =
    if size == 0 then none_case else if size == 4 then four_case else fault aborted

abbrev pub modrm_of : Bytes → Result ℕ
modrm_of (op ∷ modrm ∷ more) = ok modrm
modrm_of _ = fault out_of_bounds

module _ (linear : ℕ) (code : Bytes) where
  abbrev pub two_byte_case : Bytes → Result Translated
  two_byte_case (op ∷ op2 ∷ modrm ∷ more) =
      if op2 == 0xb1
      then and_then (getmodrmsize modrm)
          (λ size. by_size size (fault aborted) (patchedinstruction linear code 7 3))
      else fault aborted
  two_byte_case _ = fault out_of_bounds

  abbrev pub shape_case : Shape → Result Translated
  shape_case two_byte = two_byte_case code
  shape_case (with_disp n) = and_then (modrm_of code) λ modrm.
      and_then (getmodrmsize modrm)
        λ size. by_size size (fault aborted) (patchedinstruction linear code n 2)
  shape_case (either m n) = and_then (modrm_of code) λ modrm.
      and_then (getmodrmsize modrm)
        λ size. by_size size (mungedinstruction linear code m) (patchedinstruction linear code n 2)
  shape_case offset = patchedinstruction linear code 5 1
  shape_case unknown = fault aborted

-- The switch of translate_gs_instruction, behind the prefixes.
unfoldable pub translate_opcode : ℕ → Bytes → Result Translated
unfolding shape getmodrmsize patchedinstruction mungedinstruction
translate_opcode linear [] = fault out_of_bounds
translate_opcode linear (op ∷ more) = shape_case linear (op ∷ more) (shape op)

abbrev pub with_gs : ℕ → Bytes → Result Translated
with_gs linear [] = fault out_of_bounds
with_gs linear (b ∷ code) = if b == 0x65 then translate_opcode linear code else fault assert_failed

-- translate_gs_instruction, where Eip moves over the prefixes as well.
unfoldable pub translate_gs_instruction : ℕ → Bytes → Result Translated
unfolding translate_opcode
translate_gs_instruction linear [] = fault out_of_bounds
translate_gs_instruction linear (b ∷ code) =
    if b == 0xf0
    then and_then (with_gs linear code) (λ t. ok (0xf0 ∷ t.0, suc (suc t.1)))
    else and_then (with_gs linear (b ∷ code)) (λ t. ok (t.0, suc t.1))
