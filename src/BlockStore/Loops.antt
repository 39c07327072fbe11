-- ===== src/BlockStore/Loops.antt =====
-- src/syscalls/mmap.cc: the rule for its loops over pages and blocks. A loop whose rounds all
-- succeed and keep an invariant ends with the invariant at the first index past its length.
use lbw.Prelude.{
  ℕ, zero, suc, ◌+◌, ◌*◌, ◌≤◌, ◌<◌, ◌≡◌, inl, inr, true, arith, ltb, ltb→lt, ltb-false→le,
  Bool-cases, ◌∙◌,
}
use lbw.Prelude.Results.{Exec, ok}
use native.Mathlib.Nat.{mod-eq_of_lt}
use lbw.MemOp.{add32, u32_mod}
use lbw.BlockStore.{Store, for_each}

module _ {M : Type 0} (Inv : ℕ → Store M → Type 0) (step length : ℕ)
    (body : ℕ → Exec (Store M) Unit) (positive : 0 < step) (fits : length + step ≤ u32_mod)
    (round : (i : ℕ) (s : Store M)
      → i < length
      → Inv i s
      → (s' : Store M) × (body i s ≡ (ok tt, s')) × Inv (i + step) s') where
  for_each_step :
      (fuel i : ℕ) (s s₁ : Store M)
      → ltb i length ≡ true
      → i < length + step
      → body i s ≡ (ok tt, s₁)
      → for_each (suc fuel) i length step body s ≡ for_each fuel (i + step) length step body s₁
  unfolding for_each
  for_each_step fuel i s s₁ more h done =
      let next : add32 i step ≡ i + step = mod-eq_of_lt (omega (arith, ltb→lt i length more)) in
      rw (more, for_each, done, next)

  pub for_each_lem :
      (fuel i : ℕ) (s : Store M)
      → i < length + step
      → length + step ≤ i + fuel * step
      → Inv i s
      → (s' : Store M) × (j : ℕ) × (for_each fuel i length step body s ≡ (ok tt, s'))
        × (length ≤ j)
        × (j < length + step)
        × Inv j s'
  unfolding for_each
  for_each_lem zero i s h e v = absurd (omega arith)
  for_each_lem (suc fuel) i s h e v = elim (Bool-cases (ltb i length)) [
    | inl more ↦
        let (s₁, done, v₁) = round i s (ltb→lt i length more) v in
        let (s₂, j, rest, a, b, v₂) =
          for_each_lem fuel (i + step) s₁ (omega (arith, ltb→lt i length more)) (omega arith) v₁ in
        (s₂, j, for_each_step fuel i s s₁ more h done ∙ rest, a, b, v₂)
    | inr over ↦ (s, i, rw (over, for_each), ltb-false→le i length over, h, v)
  ]
