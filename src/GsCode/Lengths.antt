-- ===== src/GsCode/Lengths.antt =====
-- src/ehandler.cc: how much translate_gs_instruction writes, for the trampoline of 32 bytes.
use lbw.Prelude.{
  ℕ, zero, suc, ◌+◌, ◌≡◌, ◌≤◌, refl, Bool, true, false, not, ◌&&◌, [], ◌∷◌, ◌++◌, Option, none,
  some, ◌==◌, if◌then◌else◌, arith, length, length-append, bit_and, bit_or, Bool-cases, inl, inr,
}
use lbw.Prelude.Results.{Result, ok, throw, fault, and_then, and_then-ok, aborted, assert_failed}
use lbw.Prelude.Text.{Bytes}
use lbw.Prelude.Words.{cut, behind, bytes32, word32}
use lbw.MemOp.{add32}
use lbw.GsCode.{
  ret, Translated, getmodrmsize, or_out_of_bounds, patch, patchedinstruction, mungedinstruction,
  munged_bytes, by_size, Shape, two_byte, offset, unknown, with_disp, either, shape, shape_case,
  two_byte_case, modrm_of, translate_opcode, with_gs, translate_gs_instruction,
}

or_out_of_bounds-ok :
    (o : Option (Bytes × Bytes)) (p : Bytes × Bytes) → or_out_of_bounds o ≡ ok p → o ≡ some p
or_out_of_bounds-ok none p h = cc
or_out_of_bounds-ok (some q) p h = cc

cut-length :
    (n : ℕ) (cs a b : Bytes) → cut n cs ≡ some (a, b) → (length a ≡ n) × (length cs ≡ n + length b)
cut-length zero cs a b h = (ground arith, ground arith)
cut-length (suc n) [] a b h = cc
cut-length (suc n) (c ∷ cs) a b h = step (cut n cs) refl (cut-length n cs) h
  where
    step :
        (r : Option (Bytes × Bytes))
        → cut n cs ≡ r
        → ((a b : Bytes) → cut n cs ≡ some (a, b) → (length a ≡ n) × (length cs ≡ n + length b))
        → behind c r ≡ some (a, b)
        → (length a ≡ suc n) × (suc (length cs) ≡ suc n + length b)
    step none e rec h = cc
    step (some (a', b')) e rec h =
        let (front, back) = rec a' b' e in
        let same : a ≡ c ∷ a' = cc in
        let same_back : b ≡ b' = cc in rw (same, same_back) (omega arith, omega arith)

patch-length : (linear : ℕ) (bytes r : Bytes) → patch linear bytes ≡ ok r → length r ≡ length bytes
patch-length linear [] r h = cc
patch-length linear (a ∷ []) r h = cc
patch-length linear (a ∷ b ∷ []) r h = cc
patch-length linear (a ∷ b ∷ c ∷ []) r h = cc
patch-length linear (a ∷ b ∷ c ∷ d ∷ more) r h =
    let same : r ≡ bytes32 (add32 (word32 a b c d) linear) ++ more = cc in rw same refl

-- How much a translation writes, and by how much Eip moves.
abbrev pub IsShort : ℕ → ℕ → Result Translated → Type 0
IsShort w n r = (t : Translated) → r ≡ ok t → (length t.0 ≤ w) × (t.1 ≤ n)

patched-IsShort :
    (linear : ℕ) (code : Bytes) (n at_offset : ℕ)
    → IsShort (n + 1) n (patchedinstruction linear code n at_offset)
unfolding patchedinstruction
patched-IsShort linear code n at_offset t h =
    let (insn, e, h1) = and_then-ok (or_out_of_bounds (cut n code)) _ h in
    let (parts, f, h2) = and_then-ok (or_out_of_bounds (cut at_offset insn.0)) _ h1 in
    let (patched, g, h3) = and_then-ok (patch linear parts.1) _ h2 in
    let (front, back) = cut-length n code insn.0 insn.1 (or_out_of_bounds-ok _ insn e) in
    let (first, whole) =
      cut-length at_offset insn.0 parts.0 parts.1 (or_out_of_bounds-ok _ parts f) in
    let same : t ≡ (parts.0 ++ (patched ++ ret ∷ []), n) = cc in
    let size = patch-length linear parts.1 patched g in
    rw same (
      rw (length-append parts.0 (patched ++ ret ∷ []), length-append patched (ret ∷ []))
          (omega arith),
      omega arith,
    )

munged_bytes-length :
    (linear : ℕ) (bytes r : Bytes) → munged_bytes linear bytes ≡ ok r → length r ≡ length bytes + 5
munged_bytes-length linear [] r h = cc
munged_bytes-length linear (a ∷ []) r h = cc
munged_bytes-length linear (opcode ∷ modrm ∷ more) r h =
    elim (Bool-cases (bit_and modrm 0xc0 == 0 && not (bit_and modrm 7 == 5))) [
      | inl yes_it ↦
          let same : r ≡ opcode ∷ bit_or modrm 0x80 ∷ bytes32 linear ++ (more ++ ret ∷ []) =
            (let e : ok (opcode ∷ bit_or modrm 0x80 ∷ bytes32 linear ++ (more ++ ret ∷ [])) ≡ ok r =
                (rw yes_it at h) in
              cc) in
          rw same (rw (length-append more (ret ∷ [])) (omega arith))
      | inr no_it ↦ (let e : fault _ ≡ ok r = (rw no_it at h) in cc)
    ]

munged-IsShort :
    (linear : ℕ) (code : Bytes) (n : ℕ) → IsShort (n + 5) n (mungedinstruction linear code n)
unfolding mungedinstruction
munged-IsShort linear code n t h =
    let (insn, e, h1) = and_then-ok (or_out_of_bounds (cut n code)) _ h in
    let (out, f, h2) = and_then-ok (munged_bytes linear insn.0) _ h1 in
    let (front, back) = cut-length n code insn.0 insn.1 (or_out_of_bounds-ok _ insn e) in
    let size = munged_bytes-length linear insn.0 out f in
    let same : t ≡ (out, n) = cc in rw same (omega arith, omega arith)

weaker : (w n w' n' : ℕ) (r : Result Translated) → w ≤ w' → n ≤ n' → IsShort w n r → IsShort w' n' r
weaker w n w' n' r a b h t e = let (p, q) = h t e in (omega arith, omega arith)

-- A choice by size between results that are short.
by_size-IsShort :
    (size : Result ℕ) (a b : Result Translated)
    → IsShort 11 10 a
    → IsShort 11 10 b
    → IsShort 11 10 (and_then size (λ n. by_size n a b))
by_size-IsShort (throw e) a b ha hb t h = cc
by_size-IsShort (fault x) a b ha hb t h = cc
by_size-IsShort (ok n) a b ha hb t h = elim (Bool-cases (n == 0)) [
  | inl zero_size ↦ ha t (rw zero_size at h)
  | inr other_size ↦ elim (Bool-cases (n == 4)) [
    | inl four ↦ hb t (rw (other_size, four) at h)
    | inr none_of ↦
        (let e : ◌≡◌ {A = Result Translated} (fault aborted) (ok t) =
            (rw (other_size, none_of) at h) in
          cc)
  ]
]

abbrev HasSize : Shape → Type 0
HasSize (with_disp n) = n ≤ 10
HasSize (either m n) = (m ≤ 6) × (n ≤ 10)
HasSize s = Unit

data Sized (s : Shape) : Type 0 where
  sized : HasSize s → Sized s

size_of : {s : Shape} → Sized s → HasSize s
size_of (sized h) = h

if-Sized : (b : Bool) (s t : Shape) → HasSize s → Sized t → Sized (if b then s else t)
if-Sized true s t h k = sized h
if-Sized false s t h k = k

shape-Sized : (op : ℕ) → Sized (shape op)
unfolding shape
shape-Sized op = if-Sized _ two_byte _ tt (
    if-Sized _ (either 3 7) _ (omega arith, omega arith)
      (if-Sized _ (with_disp 6) _ (omega arith) (
        if-Sized _ (either 2 6) _ (omega arith, omega arith)
          (if-Sized _ offset _ tt (
            if-Sized _ (with_disp 7) _ (omega arith)
              (if-Sized _ (either 6 10) unknown (omega arith, omega arith) (sized tt)))))))

aborts : IsShort 11 10 (fault aborted)
aborts t h = cc

module _ (linear : ℕ) (code : Bytes) where
  shorter_patched-IsShort :
      (n at_offset : ℕ) → n ≤ 10 → IsShort 11 10 (patchedinstruction linear code n at_offset)
  shorter_patched-IsShort n at_offset h =
      weaker (n + 1) n 11 10 _ (omega arith) h (patched-IsShort linear code n at_offset)

  shorter_munged-IsShort : (n : ℕ) → n ≤ 6 → IsShort 11 10 (mungedinstruction linear code n)
  shorter_munged-IsShort n h =
      weaker (n + 5) n 11 10 _ (omega arith) (omega arith) (munged-IsShort linear code n)

  by_modrm :
      (m : Result ℕ) (a b : Result Translated)
      → IsShort 11 10 a
      → IsShort 11 10 b
      → IsShort 11 10
          (and_then m (λ modrm. and_then (getmodrmsize modrm) (λ size. by_size size a b)))
  by_modrm (throw e) a b ha hb t h = cc
  by_modrm (fault x) a b ha hb t h = cc
  by_modrm (ok modrm) a b ha hb t h = by_size-IsShort (getmodrmsize modrm) a b ha hb t h

  two_byte_case-IsShort : (bytes : Bytes) → IsShort 11 10 (two_byte_case linear code bytes)
  two_byte_case-IsShort [] t h = cc
  two_byte_case-IsShort (op ∷ []) t h = cc
  two_byte_case-IsShort (op ∷ op2 ∷ []) t h = cc
  two_byte_case-IsShort (op ∷ op2 ∷ modrm ∷ more) t h = elim (Bool-cases (op2 == 0xb1)) [
    | inl exchange ↦
        by_size-IsShort (getmodrmsize modrm) (fault aborted) _ aborts
          (shorter_patched-IsShort 7 3 (omega arith)) t (rw exchange at h)
    | inr others ↦
        (let e : ◌≡◌ {A = Result Translated} (fault aborted) (ok t) = (rw others at h) in cc)
  ]

  shape_case-IsShort : (s : Shape) → HasSize s → IsShort 11 10 (shape_case linear code s)
  shape_case-IsShort two_byte size = two_byte_case-IsShort code
  shape_case-IsShort (with_disp n) size =
      by_modrm (modrm_of code) (fault aborted) _ aborts (shorter_patched-IsShort n 2 size)
  shape_case-IsShort (either m n) (a, b) =
      by_modrm (modrm_of code) _ _ (shorter_munged-IsShort m a) (shorter_patched-IsShort n 2 b)
  shape_case-IsShort offset size = shorter_patched-IsShort 5 1 (omega arith)
  shape_case-IsShort unknown size = aborts

translate_opcode-IsShort :
    (linear : ℕ) (code : Bytes) → IsShort 11 10 (translate_opcode linear code)
unfolding translate_opcode
translate_opcode-IsShort linear [] = λ t h. cc
translate_opcode-IsShort linear (op ∷ more) =
    shape_case-IsShort linear (op ∷ more) (shape op) (size_of (shape-Sized op))

with_gs-IsShort :
    (linear : ℕ) (code : Bytes)
    → IsShort 11 11 (and_then (with_gs linear code) (λ t. ok (t.0, suc t.1)))
with_gs-IsShort linear [] t h = cc
with_gs-IsShort linear (b ∷ code) t h = elim (Bool-cases (b == 0x65)) [
  | inl gs ↦
      let (r, e, f) =
        and_then-ok (translate_opcode linear code) (λ t. ok (t.0, suc t.1)) (rw gs at h) in
      let (p, q) = translate_opcode-IsShort linear code r e in
      let same : t ≡ (r.0, suc r.1) = cc in rw same (p, omega arith)
  | inr no_gs ↦
      (let e : ◌≡◌ {A = Result Translated} (fault assert_failed) (ok t) = (rw no_gs at h) in cc)
]

locked-IsShort :
    (linear : ℕ) (code : Bytes)
    → IsShort 12 12 (and_then (with_gs linear code) (λ t. ok (0xf0 ∷ t.0, suc (suc t.1))))
locked-IsShort linear [] t h = cc
locked-IsShort linear (b ∷ code) t h = elim (Bool-cases (b == 0x65)) [
  | inl gs ↦
      let (r, e, f) =
        and_then-ok (translate_opcode linear code) (λ t. ok (0xf0 ∷ t.0, suc (suc t.1)))
          (rw gs at h) in
      let (p, q) = translate_opcode-IsShort linear code r e in
      let same : t ≡ (0xf0 ∷ r.0, suc (suc r.1)) = cc in rw same (omega arith, omega arith)
  | inr no_gs ↦
      (let e : ◌≡◌ {A = Result Translated} (fault assert_failed) (ok t) = (rw no_gs at h) in cc)
]

-- translate_gs_instruction: whatever bytes the code is, and whether they are an instruction or not,
-- at most 12 bytes are written, and Eip moves by at most 12. With the 5 bytes in front of them they
-- fit into the trampoline of 32.
pub translate_gs_instruction-length :
    (linear n : ℕ) (code out : Bytes)
    → translate_gs_instruction linear code ≡ ok (out, n)
    → (length out ≤ 12) × (n ≤ 12)
unfolding translate_gs_instruction
translate_gs_instruction-length linear n [] out h = cc
translate_gs_instruction-length linear n (b ∷ code) out h = elim (Bool-cases (b == 0xf0)) [
  | inl lock ↦ locked-IsShort linear code (out, n) (rw lock at h)
  | inr no_lock ↦
      let (p, q) = with_gs-IsShort linear (b ∷ code) (out, n) (rw no_lock at h) in
      (omega arith, omega arith)
]
