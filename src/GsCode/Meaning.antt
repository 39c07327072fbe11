-- ===== src/GsCode/Meaning.antt =====
-- src/ehandler.cc: that an instruction keeps its meaning when it is translated, apart from the
-- address of its operand, to which the base of %gs is added.
use lbw.Prelude.{
  ℕ, suc, ◌+◌, ◌/◌, ◌%◌, ◌^◌, ◌≡◌, ◌≢◌, ◌<◌, refl, [], ◌∷◌, ◌++◌, Option, none, some, arith, inl,
  inr, ◌⊎◌,
}
use lbw.Prelude.Results.{Result, ok}
use lbw.Prelude.Bits.{and-ones}
use lbw.Prelude.Text.{Bytes}
use lbw.Prelude.Words.{cut, cut-append, bytes32, word32}
use lbw.MemOp.{add32}
use lbw.GsCode.{ret, getmodrmsize, patchedinstruction, mungedinstruction, Translated}
use lbw.GsCode.Decoder.{
  kind, decode, modrm_imm, Address, Insn, operand_address, decode_kind, insn, with_imm,
}
use lbw.GsCode.Operands.{
  Operand, bare_operand, absolute_operand, based_operand, near_operand, Operand-of, absolute, based,
  plain, masks, other_test, with_imm_parts,
}

-- The instruction whose operand is by `linear` further up.
abbrev pub relocated : ℕ → Insn → Insn
relocated linear i = record i {
  address = record i.address { disp = (i.address.disp + linear) % 2 ^ 32 };
}

-- That a translation has written this instruction and ret, and moves behind the old instruction.
abbrev pub Written : ℕ → Bytes → Result Translated → Insn → Bytes → Type 0
Written linear code t i rest =
    (out : Bytes) × (n : ℕ) × (pre : Bytes) × (t ≡ ok (out, n))
    × (decode out ≡ some (relocated linear i, ret ∷ []))
    × (cut n code ≡ some (pre, rest))

pub word_sum :
    (a b c d linear : ℕ)
    → word32
          (add32 (word32 a b c d) linear % 256)
          (add32 (word32 a b c d) linear / 256 % 256)
          (add32 (word32 a b c d) linear / 65536 % 256)
          (add32 (word32 a b c d) linear / 16777216 % 256)
        % 2 ^ 32
      ≡ (word32 a b c d % 2 ^ 32 + linear) % 2 ^ 32
word_sum a b c d linear = omega arith

module _ (linear op modrm k : ℕ) (known : kind op ≡ modrm_imm k) where
  module _ (more imm rest : Bytes) (whole : cut k more ≡ some (imm, rest)) where
    again : cut k (imm ++ ret ∷ []) ≡ some (imm, ret ∷ [])
    again = cut-append k more imm rest (ret ∷ []) whole

    -- A displacement is put in.
    munged :
        modrm < 64
        → modrm % 8 ≢ 4
        → modrm % 8 ≢ 5
        → Written linear
            (op ∷ modrm ∷ more)
            (mungedinstruction linear (op ∷ modrm ∷ more) (suc (suc k)))
            (insn (op ∷ []) (modrm / 8 % 8) (plain (some (modrm % 8)) 0) (imm, rest)).0
            rest
    unfolding mungedinstruction decode
    munged lo a b = (
      op ∷ (modrm + 128) ∷ bytes32 linear ++ (imm ++ ret ∷ []),
      suc (suc k),
      op ∷ modrm ∷ imm,
      rw whole (
          rw (and-ones 3 modrm)
            (rw ((masks modrm lo).0, other_test (modrm % 8) 5 b, (masks modrm lo).1) refl)),
      (let high : (modrm + 128) / 8 % 8 ≡ modrm / 8 % 8 = omega arith in
          let low : (modrm + 128) % 8 ≡ modrm % 8 = omega arith in
          let sum : word32 (linear % 256) (linear / 256 % 256) (linear / 65536 % 256)
                  (linear / 16777216 % 256)
                % 2 ^ 32
              ≡ (0 + linear) % 2 ^ 32 =
            omega arith in
          rw known (
            rw
              (based (modrm + 128) (linear % 256) (linear / 256 % 256) (linear / 65536 % 256)
                (linear / 16777216 % 256) (imm ++ ret ∷ []) (omega arith) (λ e. a (omega arith)))
              (rw (with_imm, again) (rw (high, low, sum) refl)))),
      rw whole refl,
    )

    -- A displacement is changed.
    patched :
        (a b c d : ℕ) (base : Option ℕ)
        → ((w x y z : ℕ) (bytes : Bytes)
            → operand_address modrm (w ∷ x ∷ y ∷ z ∷ bytes)
              ≡ some (plain base (word32 w x y z % 2 ^ 32), bytes))
        → Written linear
            (op ∷ modrm ∷ a ∷ b ∷ c ∷ d ∷ more)
            (patchedinstruction linear
              (op ∷ modrm ∷ a ∷ b ∷ c ∷ d ∷ more)
              (suc (suc (suc (suc (suc (suc k))))))
              2)
            (insn (op ∷ []) (modrm / 8 % 8) (plain base (word32 a b c d % 2 ^ 32)) (imm, rest)).0
            rest
    unfolding patchedinstruction decode
    patched a b c d base addr = (
      op ∷ modrm ∷ bytes32 (add32 (word32 a b c d) linear) ++ (imm ++ ret ∷ []),
      suc (suc (suc (suc (suc (suc k))))),
      op ∷ modrm ∷ a ∷ b ∷ c ∷ d ∷ imm,
      rw whole refl,
      rw known (
          rw
            (addr (add32 (word32 a b c d) linear % 256) (add32 (word32 a b c d) linear / 256 % 256)
              (add32 (word32 a b c d) linear / 65536 % 256)
              (add32 (word32 a b c d) linear / 16777216 % 256) (imm ++ ret ∷ []))
            (rw (with_imm, again) (rw (word_sum a b c d linear) refl))),
      rw whole refl,
    )

pub size_zero : (m : ℕ) → m / 64 ≡ 0 → m % 8 ≢ 5 → getmodrmsize m ≡ ok 0
unfolding getmodrmsize
size_zero m e n = rw e (rw (other_test (m % 8) 5 n) refl)

pub size_disp : (m : ℕ) → m / 64 ≡ 0 → m % 8 ≡ 5 → getmodrmsize m ≡ ok 4
unfolding getmodrmsize
size_disp m e f = rw e (rw f refl)

pub size_two : (m : ℕ) → m / 64 ≡ 2 → getmodrmsize m ≡ ok 4
unfolding getmodrmsize
size_two m e = rw e refl

pub size_one : (m : ℕ) → m / 64 ≡ 1 → getmodrmsize m ≡ ok 1
unfolding getmodrmsize
size_one m e = rw e refl

-- A choice by the size of the displacement, where the cases for none and for four bytes write the
-- instruction: either that is what is done, or the process ends.
module _ (linear op modrm k : ℕ) (bytes : Bytes) where
  abbrev pub no_bytes : Result Translated
  no_bytes = mungedinstruction linear (op ∷ modrm ∷ bytes) (suc (suc k))

  abbrev pub four_bytes : Result Translated
  four_bytes =
      patchedinstruction linear (op ∷ modrm ∷ bytes) (suc (suc (suc (suc (suc (suc k)))))) 2

  abbrev pub Chosen : Insn → Bytes → Type 0
  Chosen i rest =
      ((getmodrmsize modrm ≡ ok 0) × Written linear (op ∷ modrm ∷ bytes) no_bytes i rest)
      ⊎ ((getmodrmsize modrm ≡ ok 4) × Written linear (op ∷ modrm ∷ bytes) four_bytes i rest)
      ⊎ (getmodrmsize modrm ≡ ok 1)

module _ (linear op modrm k : ℕ) (bytes rest : Bytes) (i : Insn) (byte : modrm < 256)
    (known : kind op ≡ modrm_imm k)
    (decodes : decode_kind (modrm_imm k) (op ∷ []) (modrm ∷ bytes) ≡ some (i, rest))
    (no_sib : i.address.sib ≡ none) where
  pub chosen : Chosen linear op modrm k bytes i rest
  unfolding decode_kind
  chosen =
      let (addr, more, imm, r, whole, e) =
        with_imm_parts (op ∷ []) (modrm / 8 % 8) k (operand_address modrm bytes) i rest decodes in
      let plain_sib : addr.sib ≡ none = (rw e at no_sib) in
      rw e (by_operand addr more imm whole (Operand-of modrm bytes addr more byte r plain_sib))
    where
      by_operand :
          (addr : Address) (more imm : Bytes)
          → cut k more ≡ some (imm, rest)
          → Operand modrm bytes addr more
          → Chosen linear op modrm k bytes (insn (op ∷ []) (modrm / 8 % 8) addr (imm, rest)).0 rest
      by_operand addr more imm whole (bare_operand lo a b e f) =
          rw (e, f)
            (inl (
              size_zero modrm (omega arith) b,
              munged linear op modrm k known more imm rest whole lo a b,
            ))
      by_operand addr more imm whole (absolute_operand a b c d lo e f g) =
          rw (f, g)
            (inr (
              inl (
                size_disp modrm (omega arith) e,
                patched linear op modrm k known more imm rest whole a b c d none
                    (λ w x y z r. absolute modrm w x y z r lo e),
              )))
      by_operand addr more imm whole (based_operand a b c d two e f g) =
          rw (f, g)
            (inr (
              inl (
                size_two modrm two,
                patched linear op modrm k known more imm rest whole a b c d (some (modrm % 8))
                    (λ w x y z r. based modrm w x y z r two e),
              )))
      by_operand addr more imm whole (near_operand one) = inr (inr (size_one modrm one))
