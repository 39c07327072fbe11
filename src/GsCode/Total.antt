-- ===== src/GsCode/Total.antt =====
-- src/ehandler.cc: for which instructions translate_gs_instruction returns.
use lbw.Prelude.{
  ℕ, suc, ◌+◌, ◌/◌, ◌≡◌, ◌≢◌, ◌<◌, refl, Bool, true, false, ◌||◌, ◌∷◌, none, some, ◌==◌,
  if◌then◌else◌, arith, inl, inr,
}
use lbw.Prelude.Results.{Result, ok, fault, aborted, and_then}
use lbw.Prelude.Text.{Bytes}
use lbw.Prelude.Words.{all_below, all_below_lem}
use lbw.GsCode.{
  getmodrmsize, Translated, Shape, either, shape, two_byte, with_disp, offset, unknown,
  translate_opcode, translate_gs_instruction, shape_case,
}
use lbw.GsCode.Decoder.{Kind, kind, decode, decode_first, escape, moffs, other, modrm_imm, Insn}
use lbw.GsCode.Shapes.{agree, shape-kind}
use lbw.GsCode.Operands.{and_parts}
use lbw.GsCode.Meaning.{Chosen, chosen, size_one}
use lbw.GsCode.Prefixes.{prefixed}

-- The opcodes with a case for an operand that has no displacement as well as for one with four bytes.
abbrev pub is_listed : ℕ → Bool
is_listed op =
    op == 0x03
    || op == 0x0b
    || op == 0x33
    || op == 0x81
    || op == 0x83
    || op == 0x87
    || op == 0x89
    || op == 0x8b
    || op == 0xc7

has_case : ℕ → Bool
has_case op = if is_listed op then (elim (shape op) [ either l m ↦ true | _ ↦ false ]) else true

cases_table : all_below 256 has_case ≡ true
unfolding all_below has_case shape
cases_table = refl

listed_case :
    (op : ℕ) → op < 256 → is_listed op ≡ true → (l : ℕ) × (m : ℕ) × (shape op ≡ either l m)
unfolding has_case
listed_case op byte h =
    by_shape (shape op) (rw h at (all_below_lem 256 has_case op cases_table byte))
  where
    by_shape :
        (s : Shape)
        → (elim s [ either l m ↦ true | _ ↦ false ]) ≡ true
        → (l : ℕ) × (m : ℕ) × (s ≡ either l m)
    by_shape (either l m) e = (l, m, refl)
    by_shape two_byte e = cc
    by_shape offset e = cc
    by_shape unknown e = cc
    by_shape (with_disp n) e = cc

size_one_mode : (modrm : ℕ) → getmodrmsize modrm ≡ ok 1 → modrm / 64 ≡ 1
unfolding getmodrmsize
size_one_mode modrm h = ground arith

-- The choice of a case returns, since a displacement of one byte is left out.
module _ (linear op modrm : ℕ) (bytes rest : Bytes) (i : Insn) (byte : modrm < 256)
    (mode : modrm / 64 ≢ 1) (no_sib : i.address.sib ≡ none) where
  abbrev Returns : Result Translated → Type 0
  Returns t = (r : Translated) × (t ≡ ok r)

  size_chosen :
      (k l m : ℕ)
      → l ≡ suc (suc k)
      → m ≡ suc (suc (suc (suc (suc (suc k)))))
      → Chosen linear op modrm k bytes i rest
      → Returns (shape_case linear (op ∷ modrm ∷ bytes) (either l m))
  size_chosen k l m short long (inl (size, (out, n, pre, done, decoded, moved))) =
      ((out, n), rw (short, long) (rw (size, and_then) done))
  size_chosen k l m short long (inr (inl (size, (out, n, pre, done, decoded, moved)))) =
      ((out, n), rw (short, long) (rw (size, and_then) done))
  size_chosen k l m short long (inr (inr size)) = absurd (mode (size_one_mode modrm size))

  by_kind :
      (kd : Kind) (l m : ℕ)
      → kind op ≡ kd
      → agree (either l m) kd ≡ true
      → decode_first kd op (modrm ∷ bytes) ≡ some (i, rest)
      → Returns (shape_case linear (op ∷ modrm ∷ bytes) (either l m))
  by_kind (modrm_imm k) l m known fits d =
      let (a, b) = and_parts (l == 2 + k) (m == 6 + k) fits in
      size_chosen k l m (ground arith) (ground arith)
        (chosen linear op modrm k bytes rest i byte known d no_sib)
  by_kind escape l m known fits d = cc
  by_kind moffs l m known fits d = cc
  by_kind other l m known fits d = cc

-- translate_gs_instruction, for the nine opcodes 03, 0b, 33, 81, 83, 87, 89, 8b and c7, with a lock prefix
-- or without, and an operand without SIB byte: where the displacement is not one of one byte it
-- returns, and where it is, LBW aborts.
pub translate_gs_instruction_returns :
    (linear op modrm : ℕ) (l : Bool) (bytes rest : Bytes) (i : Insn)
    → op < 256
    → modrm < 256
    → is_listed op ≡ true
    → decode (op ∷ modrm ∷ bytes) ≡ some (i, rest)
    → i.address.sib ≡ none
    → (modrm / 64 ≢ 1
        → (r : Translated) × (translate_gs_instruction linear (prefixed l (op ∷ modrm ∷ bytes))
            ≡ ok r))
      × (modrm / 64 ≡ 1
          → translate_gs_instruction linear (prefixed l (op ∷ modrm ∷ bytes)) ≡ fault aborted)
unfolding decode translate_opcode translate_gs_instruction
translate_gs_instruction_returns linear op modrm l bytes rest i op_byte byte listed d no_sib =
    let (a, b, e) = listed_case op op_byte listed in
    let fits : agree (either a b) (kind op) ≡ true = (rw e at (shape-kind op op_byte)) in
    (
      λ mode.
          let (r, done) =
            by_kind linear op modrm bytes rest i byte mode no_sib (kind op) a b refl fits d in
          returned l r (rw e done),
      λ near. stopped l (rw (e, size_one modrm near) refl),
    )
  where
    returned :
        (l : Bool) (r : Translated)
        → translate_opcode linear (op ∷ modrm ∷ bytes) ≡ ok r
        → (r : Translated) × (translate_gs_instruction linear (prefixed l (op ∷ modrm ∷ bytes))
            ≡ ok r)
    returned true r done = ((0xf0 ∷ r.0, suc (suc r.1)), rw done refl)
    returned false r done = ((r.0, suc r.1), rw done refl)

    stopped :
        (l : Bool)
        → translate_opcode linear (op ∷ modrm ∷ bytes) ≡ fault aborted
        → translate_gs_instruction linear (prefixed l (op ∷ modrm ∷ bytes)) ≡ fault aborted
    stopped true done = rw done refl
    stopped false done = rw done refl
