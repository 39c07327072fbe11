-- ===== src/GsCode/Operands.antt =====
-- src/ehandler.cc: where the operand in memory of an instruction is, and what the masks of
-- mungedinstruction are.
use lbw.Prelude.{
  ℕ, ◌+◌, ◌/◌, ◌%◌, ◌^◌, ◌≡◌, ◌≢◌, ◌<◌, refl, Bool, true, false, ◌&&◌, [], ◌∷◌, Option, none, some,
  ◌==◌, bit_and, bit_or, arith, inl, inr, ◌⊎◌, ==→eq,
}
use lbw.Prelude.Text.{Bytes}
use lbw.Prelude.Words.{cut, word32, all_below, all_below_lem}
use lbw.GsCode.Decoder.{Address, Insn, operand_address, insn, with_imm, disp_of}

-- What the masks of mungedinstruction are for a ModR/M byte without a displacement.
abbrev masks_fit : ℕ → Bool
masks_fit m = (bit_and m 0xc0 == 0) && (bit_or m 0x80 == m + 128)

pub and_parts : (a b : Bool) → (a && b) ≡ true → (a ≡ true) × (b ≡ true)
and_parts true true e = (refl, refl)
and_parts true false e = cc
and_parts false b e = cc

masks_table : all_below 64 masks_fit ≡ true
unfolding all_below
masks_table = refl

pub masks : (m : ℕ) → m < 64 → ((bit_and m 0xc0 == 0) ≡ true) × (bit_or m 0x80 ≡ m + 128)
masks m h =
    let both : masks_fit m ≡ true = all_below_lem 64 masks_fit m masks_table h in
    let (a, b) = and_parts (bit_and m 0xc0 == 0) (bit_or m 0x80 == m + 128) both in (a, ==→eq _ _ b)

same_test : (a b : ℕ) → a ≡ b → (a == b) ≡ true
same_test a b h = ground arith

pub other_test : (a b : ℕ) → a ≢ b → (a == b) ≡ false
other_test a b h = ground arith

abbrev pub plain : Option ℕ → ℕ → Address
plain base disp = record { base = base; sib = none; disp = disp }

-- The three kinds of operands without a SIB byte that are translated.
module _ (m : ℕ) where
  pub bare :
      (bytes : Bytes)
      → m < 64
      → m % 8 ≢ 4
      → m % 8 ≢ 5
      → operand_address m bytes ≡ some (plain (some (m % 8)) 0, bytes)
  unfolding operand_address
  bare bytes lo a b =
      let mode : m / 64 ≡ 0 = omega arith in
      rw mode (rw (other_test (m % 8) 4 a, other_test (m % 8) 5 b) refl)

  module _ (a b c d : ℕ) (more : Bytes) where
    pub absolute :
        m < 64
        → m % 8 ≡ 5
        → operand_address m (a ∷ b ∷ c ∷ d ∷ more)
          ≡ some (plain none (word32 a b c d % 2 ^ 32), more)
    unfolding operand_address
    absolute lo e = let mode : m / 64 ≡ 0 = omega arith in rw mode (rw e refl)

    pub based :
        m / 64 ≡ 2
        → m % 8 ≢ 4
        → operand_address m (a ∷ b ∷ c ∷ d ∷ more)
          ≡ some (plain (some (m % 8)) (word32 a b c d % 2 ^ 32), more)
    unfolding operand_address
    based e n = rw (e) (rw (other_test (m % 8) 4 n) refl)

-- Where the operand of an instruction without a SIB byte is.
pub data Operand (m : ℕ) (bytes : Bytes) (addr : Address) (more : Bytes) : Type 0 where
  bare_operand :
      m < 64
      → m % 8 ≢ 4
      → m % 8 ≢ 5
      → addr ≡ plain (some (m % 8)) 0
      → bytes ≡ more
      → Operand m bytes addr more
  absolute_operand :
      (a b c d : ℕ)
      → m < 64
      → m % 8 ≡ 5
      → addr ≡ plain none (word32 a b c d % 2 ^ 32)
      → bytes ≡ a ∷ b ∷ c ∷ d ∷ more
      → Operand m bytes addr more
  based_operand :
      (a b c d : ℕ)
      → m / 64 ≡ 2
      → m % 8 ≢ 4
      → addr ≡ plain (some (m % 8)) (word32 a b c d % 2 ^ 32)
      → bytes ≡ a ∷ b ∷ c ∷ d ∷ more
      → Operand m bytes addr more
  near_operand : m / 64 ≡ 1 → Operand m bytes addr more

-- The parts of an instruction that is decoded.
pub with_imm_parts :
    (opcode : Bytes) (o k : ℕ) (r : Option (Address × Bytes)) (i : Insn) (rest : Bytes)
    → with_imm opcode o k r ≡ some (i, rest)
    → (a : Address) × (more : Bytes) × (imm : Bytes) × (r ≡ some (a, more))
      × (cut k more ≡ some (imm, rest))
      × (i ≡ (insn opcode o a (imm, rest)).0)
with_imm_parts opcode o k none i rest h = cc
with_imm_parts opcode o k (some (a, more)) i rest h = inner (cut k more) refl h
  where
    inner :
        (p : Option (Bytes × Bytes))
        → cut k more ≡ p
        → ◌≡◌ {A = Option (Insn × Bytes)}
            (elim p [ none ↦ none | some parts ↦ some (insn opcode o a parts) ])
            (some (i, rest))
        → (a' : Address) × (more' : Bytes) × (imm : Bytes) × (◌≡◌ {A = Option (Address × Bytes)}
            (some (a, more))
            (some (a', more')))
          × (cut k more' ≡ some (imm, rest))
          × (i ≡ (insn opcode o a' (imm, rest)).0)
    inner none e h = cc
    inner (some (imm, r)) e h = (a, more, imm, refl, cc, cc)

disp_of-sib :
    (mode : ℕ) (base sib : Option ℕ) (bytes : Bytes) (a : Address) (more : Bytes)
    → disp_of mode base sib bytes ≡ some (a, more)
    → a.sib ≡ sib
disp_of-sib mode base sib [] a more h = ground arith
disp_of-sib mode base sib (b ∷ []) a more h = ground arith
disp_of-sib mode base sib (b ∷ c ∷ []) a more h = ground arith
disp_of-sib mode base sib (b ∷ c ∷ d ∷ []) a more h = ground arith
disp_of-sib mode base sib (b ∷ c ∷ d ∷ e ∷ bytes) a more h = ground arith

-- A SIB byte is read where the low bits of ModR/M are 4.
sib_read :
    (m : ℕ) (bytes : Bytes) (a : Address) (more : Bytes)
    → m % 8 ≡ 4
    → operand_address m bytes ≡ some (a, more)
    → a.sib ≢ none
unfolding operand_address
sib_read m [] a more e h none_read = ground arith
sib_read m (sib ∷ bytes) a more e h none_read = ground (
  arith,
  disp_of-sib (m / 64) none (some sib) bytes a more,
  disp_of-sib 0 none (some sib) bytes a more,
  disp_of-sib 2 none (some sib) bytes a more,
)

four :
    (base : Option ℕ) (bytes : Bytes) (addr : Address) (more : Bytes)
    → disp_of 2 base none bytes ≡ some (addr, more)
    → (a : ℕ) × (b : ℕ) × (c : ℕ) × (d : ℕ) × (addr ≡ plain base (word32 a b c d % 2 ^ 32))
      × (bytes ≡ a ∷ b ∷ c ∷ d ∷ more)
four base [] addr more h = cc
four base (b ∷ []) addr more h = cc
four base (b ∷ c ∷ []) addr more h = cc
four base (b ∷ c ∷ d ∷ []) addr more h = cc
four base (a ∷ b ∷ c ∷ d ∷ bytes) addr more h = (a, b, c, d, cc, cc)

pub mode_cases : (m : ℕ) → m < 256 → (m / 64 ≡ 0) ⊎ (m / 64 ≡ 1) ⊎ (m / 64 ≡ 2) ⊎ (m / 64 ≡ 3)
mode_cases m h = ground arith

is_or_not : (a b : ℕ) → (a ≡ b) ⊎ (a ≢ b)
is_or_not a b = ground arith

pub Operand-of :
    (m : ℕ) (bytes : Bytes) (addr : Address) (more : Bytes)
    → m < 256
    → operand_address m bytes ≡ some (addr, more)
    → addr.sib ≡ none
    → Operand m bytes addr more
unfolding operand_address
Operand-of m bytes addr more byte h no_sib = elim (is_or_not (m % 8) 4) [
  | inl sib ↦ absurd (sib_read m bytes addr more sib h no_sib)
  | inr rm ↦ elim (mode_cases m byte) [
    | inl zero_mode ↦ elim (is_or_not (m % 8) 5) [
      | inl disp ↦
          let read : disp_of 2 none none bytes ≡ some (addr, more) = (rw (zero_mode, disp) at h) in
          let (a, b, c, d, e, f) = four none bytes addr more read in
          absolute_operand a b c d (omega arith) disp e f
      | inr base ↦
          let read : ◌≡◌ {A = Option (Address × Bytes)} (some (plain (some (m % 8)) 0, bytes))
              (some (addr, more)) =
            (rw zero_mode at (rw (other_test (m % 8) 4 rm, other_test (m % 8) 5 base) at h)) in
          bare_operand (omega arith) rm base (cc) (cc)
    ]
    | inr others ↦ elim others [
      | inl one ↦ near_operand one
      | inr more_modes ↦ elim more_modes [
        | inl two ↦
            let read : disp_of 2 (some (m % 8)) none bytes ≡ some (addr, more) =
              (rw two at (rw (other_test (m % 8) 4 rm) at h)) in
            let (a, b, c, d, e, f) = four (some (m % 8)) bytes addr more read in
            based_operand a b c d two rm e f
        | inr three ↦
            (let gone : ◌≡◌ {A = Option (Address × Bytes)} none (some (addr, more)) =
                (rw three at h) in
              cc)
      ]
    ]
  ]
]
