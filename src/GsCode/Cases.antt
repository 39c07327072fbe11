-- ===== src/GsCode/Cases.antt =====
-- src/ehandler.cc: the switch of translate_gs_instruction over every opcode that it knows.
use lbw.Prelude.{
  ℕ, suc, ◌+◌, ◌≡◌, ◌<◌, refl, true, [], ◌∷◌, none, some, ◌==◌, arith, inl, inr, ◌⊎◌, Bool-cases,
  ==→eq,
}
use lbw.Prelude.Results.{Result, ok, fault, and_then, aborted}
use lbw.Prelude.Flags.{All}
use lbw.Prelude.Text.{Bytes}
use lbw.Prelude.Words.{cut}
use lbw.GsCode.{
  ret, getmodrmsize, Translated, by_size, Shape, two_byte, offset, unknown, with_disp, either,
  shape, shape_case, translate_opcode, two_byte_case,
}
use lbw.GsCode.Decoder.{
  Kind, kind, kind2, decode, decode_first, decode_second, escape, moffs, other, modrm_imm, Insn,
  decode_kind,
}
use lbw.GsCode.Shapes.{agree, shape-kind}
use lbw.GsCode.Operands.{and_parts}
use lbw.GsCode.Escapes.{offset_written, EscapeChosen, seven, escape_chosen}
use lbw.GsCode.Meaning.{relocated, Written, Chosen, chosen, no_bytes, four_bytes}

abbrev pub IsByte : ℕ → Type 0
IsByte b = b < 256

-- What is written and where Eip goes, for an instruction that was translated.
abbrev pub Kept : ℕ → Bytes → Bytes → ℕ → Insn → Bytes → Type 0
Kept linear code out n i rest =
    (decode out ≡ some (relocated linear i, ret ∷ []))
    × (pre : Bytes) × (cut n code ≡ some (pre, rest))

same_written :
    (linear : ℕ) (code out : Bytes) (n : ℕ) (t : Result Translated) (i : Insn) (rest : Bytes)
    → Written linear code t i rest
    → t ≡ ok (out, n)
    → Kept linear code out n i rest
same_written linear code out n t i rest (out', n', pre, made, decoded, moved) h =
    let same : out' ≡ out = cc in
    let same_n : n' ≡ n = cc in (rw same at decoded, pre, rw same_n at moved)

module _ (linear op : ℕ) (out rest : Bytes) (n : ℕ) (i : Insn) (no_sib : i.address.sib ≡ none) where
  modrm_case :
      (k modrm : ℕ) (bytes : Bytes) (zero_case : Result Translated)
      → (zero_case ≡ no_bytes linear op modrm k bytes) ⊎ (zero_case ≡ fault aborted)
      → modrm < 256
      → kind op ≡ modrm_imm k
      → decode_kind (modrm_imm k) (op ∷ []) (modrm ∷ bytes) ≡ some (i, rest)
      → and_then
          (getmodrmsize modrm)
          (λ size. by_size size zero_case (four_bytes linear op modrm k bytes))
        ≡ ok (out, n)
      → Kept linear (op ∷ modrm ∷ bytes) out n i rest
  modrm_case k modrm bytes z zs byte known d h =
      pick (chosen linear op modrm k bytes rest i byte known d no_sib)
    where
      pick : Chosen linear op modrm k bytes i rest → Kept linear (op ∷ modrm ∷ bytes) out n i rest
      pick (inl (size, done)) = elim zs [
        | inl e ↦
            same_written linear (op ∷ modrm ∷ bytes) out n _ i rest done
              (rw (size, and_then, e) at h)
        | inr e ↦
            (let no_way : ◌≡◌ {A = Result Translated} (fault aborted) (ok (out, n)) =
                (rw (size, and_then, e) at h) in
              cc)
      ]
      pick (inr (inl (size, done))) =
          same_written linear (op ∷ modrm ∷ bytes) out n _ i rest done (rw (size, and_then) at h)
      pick (inr (inr size)) =
          (let no_way : ◌≡◌ {A = Result Translated} (fault aborted) (ok (out, n)) =
              (rw (size, and_then) at h) in
            cc)

  escape_case :
      (op2 modrm : ℕ) (more : Bytes)
      → modrm < 256
      → kind op ≡ escape
      → two_byte_case linear (op ∷ op2 ∷ modrm ∷ more) (op ∷ op2 ∷ modrm ∷ more) ≡ ok (out, n)
      → decode_second op (op2 ∷ modrm ∷ more) ≡ some (i, rest)
      → Kept linear (op ∷ op2 ∷ modrm ∷ more) out n i rest
  unfolding kind2
  escape_case op2 modrm more byte known h d = elim (Bool-cases (op2 == 0xb1)) [
    | inr e ↦
        (let no_way : ◌≡◌ {A = Result Translated} (fault aborted) (ok (out, n)) = (rw e at h) in cc)
    | inl e ↦
        let same : op2 ≡ 0xb1 = ==→eq op2 0xb1 e in
        rw same (at_exchange (rw same at h) (rw same at d))
  ]
    where
      pick :
          EscapeChosen linear op modrm known more i rest
          → and_then
              (getmodrmsize modrm)
              (λ size. by_size size (fault aborted) (seven linear op modrm known more))
            ≡ ok (out, n)
          → Kept linear (op ∷ 0xb1 ∷ modrm ∷ more) out n i rest
      pick (inl (size, done)) h =
          same_written linear (op ∷ 0xb1 ∷ modrm ∷ more) out n _ i rest done
            (rw (size, and_then) at h)
      pick (inr (inl size)) h =
          (let no_way : ◌≡◌ {A = Result Translated} (fault aborted) (ok (out, n)) =
              (rw (size, and_then) at h) in
            cc)
      pick (inr (inr size)) h =
          (let no_way : ◌≡◌ {A = Result Translated} (fault aborted) (ok (out, n)) =
              (rw (size, and_then) at h) in
            cc)

      at_exchange :
          two_byte_case linear (op ∷ 0xb1 ∷ modrm ∷ more) (op ∷ 0xb1 ∷ modrm ∷ more) ≡ ok (out, n)
          → decode_second op (0xb1 ∷ modrm ∷ more) ≡ some (i, rest)
          → Kept linear (op ∷ 0xb1 ∷ modrm ∷ more) out n i rest
      at_exchange h d = pick (escape_chosen linear op modrm known more rest i byte d no_sib) h

module _ (linear op : ℕ) (out rest : Bytes) (n : ℕ) (i : Insn) (no_sib : i.address.sib ≡ none) where
  -- The case of an opcode, with the kind that the processor sees.
  by_case :
      (sh : Shape) (kd : Kind) (more : Bytes)
      → All IsByte more
      → kind op ≡ kd
      → agree sh kd ≡ true
      → shape_case linear (op ∷ more) sh ≡ ok (out, n)
      → decode_first kd op more ≡ some (i, rest)
      → Kept linear (op ∷ more) out n i rest
  by_case unknown kd more bytes known fits h d = cc
  by_case two_byte (modrm_imm k) more bytes known fits h d = cc
  by_case two_byte moffs more bytes known fits h d = cc
  by_case two_byte other more bytes known fits h d = cc
  by_case offset (modrm_imm k) more bytes known fits h d = cc
  by_case offset escape more bytes known fits h d = cc
  by_case offset other more bytes known fits h d = cc
  by_case (with_disp m) moffs more bytes known fits h d = cc
  by_case (with_disp m) escape more bytes known fits h d = cc
  by_case (with_disp m) other more bytes known fits h d = cc
  by_case (either l m) moffs more bytes known fits h d = cc
  by_case (either l m) escape more bytes known fits h d = cc
  by_case (either l m) other more bytes known fits h d = cc
  by_case (with_disp m) (modrm_imm k) [] bytes known fits h d = cc
  by_case (either l m) (modrm_imm k) [] bytes known fits h d = cc
  by_case (with_disp m) (modrm_imm k) (modrm ∷ more) bytes known fits h d =
      let length : m ≡ suc (suc (suc (suc (suc (suc k))))) = ground arith in
      modrm_case linear op out rest n i no_sib k modrm more (fault aborted) (inr refl) bytes.0 known
        d (rw length at h)
  by_case (either l m) (modrm_imm k) (modrm ∷ more) bytes known fits h d =
      let (a, b) = and_parts (l == 2 + k) (m == 6 + k) fits in
      let short : l ≡ suc (suc k) = ground arith in
      let length : m ≡ suc (suc (suc (suc (suc (suc k))))) = ground arith in
      modrm_case linear op out rest n i no_sib k modrm more (no_bytes linear op modrm k more)
        (inl refl) bytes.0 known d (rw (short, length) at h)
  by_case offset moffs more bytes known fits h d =
      same_written linear (op ∷ more) out n _ i rest (offset_written linear op more rest i known d)
        h
  by_case two_byte escape [] bytes known fits h d = cc
  by_case two_byte escape (op2 ∷ []) bytes known fits h d = cc
  by_case two_byte escape (op2 ∷ modrm ∷ more) bytes known fits h d =
      escape_case linear op out rest n i no_sib op2 modrm more bytes.1.0 known h d

-- Without prefixes, over every opcode.
pub translate_opcode_lem :
    (linear n : ℕ) (code out rest : Bytes) (i : Insn)
    → All IsByte code
    → decode code ≡ some (i, rest)
    → i.address.sib ≡ none
    → translate_opcode linear code ≡ ok (out, n)
    → Kept linear code out n i rest
unfolding decode translate_opcode
translate_opcode_lem linear n [] out rest i bytes d no_sib h = cc
translate_opcode_lem linear n (op ∷ more) out rest i bytes d no_sib h =
    by_case linear op out rest n i no_sib (shape op) (kind op) more bytes.1 refl
      (shape-kind op bytes.0) h d
