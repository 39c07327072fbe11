-- ===== src/GsCode/Escapes.antt =====
-- src/ehandler.cc: the cases of translate_gs_instruction for an address without a ModR/M byte and for
-- the opcodes of two bytes.
use lbw.Prelude.{
  ℕ, ◌/◌, ◌%◌, ◌^◌, ◌≡◌, ◌<◌, refl, [], ◌∷◌, ◌++◌, Option, none, some, arith, inl, inr, ◌⊎◌,
}
use lbw.Prelude.Results.{Result, ok}
use lbw.Prelude.Text.{Bytes}
use lbw.Prelude.Words.{bytes32, word32}
use lbw.MemOp.{add32}
use lbw.GsCode.{ret, getmodrmsize, patchedinstruction, Translated, shape_case, offset}
use lbw.GsCode.Decoder.{
  kind, kind2, decode, decode_first, escape, moffs, modrm_imm, Address, Insn, operand_address,
  decode_kind, insn,
}
use lbw.GsCode.Operands.{
  Operand, bare_operand, absolute_operand, based_operand, near_operand, Operand-of, absolute, based,
  plain, with_imm_parts,
}
use lbw.GsCode.Meaning.{Written, word_sum, size_zero, size_disp, size_two, size_one}

-- An address without a ModR/M byte is changed.
moved_offset :
    (linear op a b c d : ℕ) (rest : Bytes)
    → kind op ≡ moffs
    → Written linear
        (op ∷ a ∷ b ∷ c ∷ d ∷ rest)
        (shape_case linear (op ∷ a ∷ b ∷ c ∷ d ∷ rest) offset)
        (insn (op ∷ []) 0 (plain none (word32 a b c d % 2 ^ 32)) ([], rest)).0
        rest
unfolding patchedinstruction decode
moved_offset linear op a b c d rest known = (
  op ∷ bytes32 (add32 (word32 a b c d) linear) ++ ret ∷ [],
  5,
  op ∷ a ∷ b ∷ c ∷ d ∷ [],
  refl,
  rw known (rw (word_sum a b c d linear) refl),
  refl,
)

pub offset_written :
    (linear op : ℕ) (more rest : Bytes) (i : Insn)
    → kind op ≡ moffs
    → decode_first moffs op more ≡ some (i, rest)
    → Written linear (op ∷ more) (shape_case linear (op ∷ more) offset) i rest
unfolding decode_kind
offset_written linear op [] rest i known d = cc
offset_written linear op (a ∷ []) rest i known d = cc
offset_written linear op (a ∷ b ∷ []) rest i known d = cc
offset_written linear op (a ∷ b ∷ c ∷ []) rest i known d = cc
offset_written linear op (a ∷ b ∷ c ∷ e ∷ more) rest i known d =
    let same : i ≡ (insn (op ∷ []) 0 (plain none (word32 a b c e % 2 ^ 32)) ([], more)).0 = cc in
    let left : rest ≡ more = cc in rw (same, left) (moved_offset linear op a b c e more known)

module _ (linear op modrm : ℕ) (known : kind op ≡ escape) where
  -- The displacement of cmpxchg is changed.
  exchanged :
      (a b c d : ℕ) (rest : Bytes) (base : Option ℕ)
      → ((w x y z : ℕ) (bytes : Bytes)
          → operand_address modrm (w ∷ x ∷ y ∷ z ∷ bytes)
            ≡ some (plain base (word32 w x y z % 2 ^ 32), bytes))
      → Written linear
          (op ∷ 0xb1 ∷ modrm ∷ a ∷ b ∷ c ∷ d ∷ rest)
          (patchedinstruction linear (op ∷ 0xb1 ∷ modrm ∷ a ∷ b ∷ c ∷ d ∷ rest) 7 3)
          (insn
            (op ∷ 0xb1 ∷ [])
            (modrm / 8 % 8)
            (plain base (word32 a b c d % 2 ^ 32))
            ([], rest)).0
          rest
  unfolding patchedinstruction decode kind2
  exchanged a b c d rest base addr = (
    op ∷ 0xb1 ∷ modrm ∷ bytes32 (add32 (word32 a b c d) linear) ++ ret ∷ [],
    7,
    op ∷ 0xb1 ∷ modrm ∷ a ∷ b ∷ c ∷ d ∷ [],
    refl,
    rw known (
        rw
          (addr (add32 (word32 a b c d) linear % 256) (add32 (word32 a b c d) linear / 256 % 256)
            (add32 (word32 a b c d) linear / 65536 % 256)
            (add32 (word32 a b c d) linear / 16777216 % 256) (ret ∷ []))
          (rw (word_sum a b c d linear) refl)),
    refl,
  )

  abbrev pub seven : Bytes → Result Translated
  seven bytes = patchedinstruction linear (op ∷ 0xb1 ∷ modrm ∷ bytes) 7 3

  abbrev pub EscapeChosen : Bytes → Insn → Bytes → Type 0
  EscapeChosen bytes i rest =
      ((getmodrmsize modrm ≡ ok 4)
        × Written linear (op ∷ 0xb1 ∷ modrm ∷ bytes) (seven bytes) i rest)
      ⊎ (getmodrmsize modrm ≡ ok 0)
      ⊎ (getmodrmsize modrm ≡ ok 1)

  pub escape_chosen :
      (bytes rest : Bytes) (i : Insn)
      → modrm < 256
      → decode_kind (modrm_imm 0) (op ∷ 0xb1 ∷ []) (modrm ∷ bytes) ≡ some (i, rest)
      → i.address.sib ≡ none
      → EscapeChosen bytes i rest
  unfolding decode_kind
  escape_chosen bytes rest i byte decodes no_sib =
      let (addr, more, imm, r, whole, e) =
        with_imm_parts (op ∷ 0xb1 ∷ []) (modrm / 8 % 8) 0 (operand_address modrm bytes) i rest
          decodes in
      let plain_sib : addr.sib ≡ none = (rw e at no_sib) in
      let no_imm : imm ≡ [] = cc in
      let left : rest ≡ more = cc in
      rw (e, no_imm, left)
        (by_operand addr more (Operand-of modrm bytes addr more byte r plain_sib))
    where
      by_operand :
          (addr : Address) (more : Bytes)
          → Operand modrm bytes addr more
          → EscapeChosen bytes (insn (op ∷ 0xb1 ∷ []) (modrm / 8 % 8) addr ([], more)).0 more
      by_operand addr more (bare_operand lo a b e f) = inr (inl (size_zero modrm (omega arith) b))
      by_operand addr more (absolute_operand a b c d lo e f g) =
          rw (f, g)
            (inl (
              size_disp modrm (omega arith) e,
              exchanged a b c d more none (λ w x y z r. absolute modrm w x y z r lo e),
            ))
      by_operand addr more (based_operand a b c d two e f g) =
          rw (f, g)
            (inl (
              size_two modrm two,
              exchanged a b c d more (some (modrm % 8)) (λ w x y z r. based modrm w x y z r two e),
            ))
      by_operand addr more (near_operand one) = inr (inr (size_one modrm one))
