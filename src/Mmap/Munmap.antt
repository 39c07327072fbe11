-- ===== src/Mmap/Munmap.antt =====
-- src/syscalls/mmap.cc: do_munmap, on its two paths, takes exactly the pages of its range out of
-- use.
use lbw.Prelude.{
  ℕ, ◌+◌, ◌-◌, ◌*◌, ◌/◌, ◌%◌, ◌≤◌, ◌<◌, ◌≡◌, refl, inl, inr, true, false, arith, ◌==◌,
  if◌then◌else◌, Bool-cases, ==→eq, ◌∙◌, sym,
}
use lbw.Prelude.Results.{ok}
use lbw.MemOp.{aligned, add32, align}
use lbw.MemOp.Laws.{align_lem, aligned-eq}
use lbw.Interix.{Interix}
use lbw.BlockStore.{
  Slot, null, live, freed, Store, page_size, block_size, block_count, loop_fuel, unmap, unmap_block,
  unuse_page, delete_block, set_slot,
}
use lbw.BlockStore.Usage.{
  used, delete_block_lem, IsValid, SlotValid, Grants, base_of, get_block_lem, aligned-base_of,
  ==-self,
}
use lbw.BlockStore.Pages.{page_address, page_count, unuse_page_lem}
use lbw.BlockStore.Loops.{for_each_lem}
use lbw.BlockStore.Ranges.{in_range, pages_in, add32-page_address, range_lem}
use lbw.Mmap.{do_munmap, unuse_pages}

module _ (os : Interix) where
  -- What deleting the block of a slot in order does.
  delete_valid :
      (slot : Slot) (i : ℕ) (s : Store os.Memory)
      → s.slots i ≡ slot
      → SlotValid i slot
      → (s' : Store os.Memory) × (delete_block os i s ≡ (ok tt, s'))
        × ((j : ℕ) → (j == i) ≡ false → s'.slots j ≡ s.slots j)
  unfolding delete_block
  delete_valid null i s e v = (s, rw (e, delete_block), λ j o. refl)
  delete_valid (live b) i s e v = (_, delete_block_lem os i s b e, λ j o. rw o)
  delete_valid freed i s e v = absurd v

  -- Unmap of one block that is in order, or of none.
  unmap_block_any :
      (i : ℕ) (s : Store os.Memory)
      → i < block_count
      → IsValid s
      → (s' : Store os.Memory) × (unmap_block os (base_of i) s ≡ (ok tt, s'))
        × IsValid s'
        × ((r : ℕ) → used s' r ≡ (if r / 16 == i then false else used s r))
  unfolding unmap_block
  unmap_block_any i s h v =
      let (s₁, e, f) = delete_valid (s.slots i) i s refl (v i) in
      let s₂ = set_slot i null s₁ in
      let others : (j : ℕ) → (j == i) ≡ false → s₂.slots j ≡ s.slots j = λ j o. rw o (f j o) in
      let gone : s₂.slots i ≡ null = rw (==-self i) refl in
      (
        s₂,
        rw (aligned-base_of i, get_block_lem i h, e),
        λ j. elim (Bool-cases (j == i)) [
          | inl same ↦ rw (==→eq j i same, gone) (tt)
          | inr other ↦ rw (others j other) (v j)
        ],
        λ r. elim (Bool-cases (r / 16 == i)) [
          | inl same ↦ rw same
          | inr other ↦ rw (other, f (r / 16) other)
        ],
      )

  -- The loop of Unmap over whole blocks.
  abbrev Cleared : ℕ → Store os.Memory → ℕ → Store os.Memory → Type 0
  Cleared p s i s' =
      (i % block_size ≡ 0)
      × IsValid s'
      × ((r : ℕ) → used s' r ≡ (if in_range p (i / page_size) r then false else used s r))

  unmap_round :
      (b len : ℕ) (s : Store os.Memory) (i : ℕ) (s₁ : Store os.Memory)
      → b * 16 + pages_in len ≤ page_count
      → len % block_size ≡ 0
      → i < len
      → Cleared (b * 16) s i s₁
      → (s₂ : Store os.Memory) × (unmap_block os (add32 (base_of b) i) s₁ ≡ (ok tt, s₂))
        × Cleared (b * 16) s (i + block_size) s₂
  unmap_round b len s i s₁ h m l c =
      let (s₂, e, v, u) = unmap_block_any (b + i / block_size) s₁ (omega (arith, c.0)) c.1 in
      let at : add32 (base_of b) i ≡ base_of (b + i / block_size) = omega (arith, c.0) in
      (s₂, rw at e, (omega (arith, c.0), v, λ r. ground (arith, u r, c.2 r, c.0)))

  unmap_lem :
      (b len : ℕ) (s : Store os.Memory)
      → b * 16 + pages_in len ≤ page_count
      → len % block_size ≡ 0
      → IsValid s
      → (s' : Store os.Memory) × (unmap os (base_of b) len s ≡ (ok tt, s'))
        × IsValid s'
        × ((r : ℕ)
            → used s' r ≡ (if in_range (b * 16) (len / page_size) r then false else used s r))
  unfolding unmap
  unmap_lem b len s h m v =
      let (s', j, e, lo, hi, c) =
        for_each_lem (Cleared (b * 16) s) block_size len (λ i. unmap_block os (add32 (base_of b) i))
          (omega arith) (omega arith) (λ i s₁ l c. unmap_round b len s i s₁ h m l c) loop_fuel 0 s
          (omega arith) (omega arith) (refl, v, λ r. ground arith) in
      let all : j / page_size ≡ len / page_size = omega (arith, c.0) in
      let whole : aligned block_size len ≡ true = aligned-eq 16 len ∙ rw m refl in
      (s', rw (aligned-base_of b, whole) e, c.1, λ r. rw all at (c.2 r))

module _ (os : Interix) (grants : Grants os) where
  unuse_round :
      (p i : ℕ) (s : Store os.Memory)
      → i % page_size ≡ 0
      → p + i / page_size < page_count
      → IsValid s
      → (s' : Store os.Memory) × (unuse_page os (add32 (page_address p) i) s ≡ (ok tt, s'))
        × IsValid s'
        × ((r : ℕ) → used s' r ≡ (if r == p + i / page_size then false else used s r))
  unuse_round p i s m h v =
      let (s', e, v', u) = unuse_page_lem os grants (p + i / page_size) s h v in
      (s', rw (add32-page_address p i m h) e, v', u)

  -- The page loop of do_munmap.
  unuse_pages_lem :
      (p len : ℕ) (s : Store os.Memory)
      → p + pages_in len ≤ page_count
      → IsValid s
      → (s' : Store os.Memory) × (unuse_pages os (page_address p) len s ≡ (ok tt, s'))
        × IsValid s'
        × ((r : ℕ) → used s' r ≡ (if in_range p (pages_in len) r then false else used s r))
  unfolding unuse_pages
  unuse_pages_lem p len s h v =
      range_lem (λ i. unuse_page os (add32 (page_address p) i)) p len false h (unuse_round p) s v

  -- Unmapping whole blocks and then the pages of the rest.
  whole_lem :
      (b len : ℕ) (s : Store os.Memory)
      → b * 16 + pages_in len ≤ page_count
      → IsValid s
      → (s₁ s₂ : Store os.Memory) × (unmap os (base_of b) (align block_size len) s ≡ (ok tt, s₁))
        × (unuse_pages os (add32 (base_of b) (align block_size len)) (len - align block_size len) s₁
            ≡ (ok tt, s₂))
        × IsValid s₂
        × ((r : ℕ) → used s₂ r ≡ (if in_range (b * 16) (pages_in len) r then false else used s r))
  whole_lem b len s h v =
      let down = align_lem 16 len (omega arith) (omega arith) in
      let l = align block_size len in
      let (s₁, e₁, v₁, u₁) = unmap_lem os b l s (omega (arith, down)) (down.1) v in
      let (s₂, e₂, v₂, u₂) =
        unuse_pages_lem (b * 16 + l / page_size) (len - l) s₁ (omega (arith, down)) v₁ in
      let at : add32 (base_of b) l ≡ page_address (b * 16 + l / page_size) = omega (arith, down) in
      (s₁, s₂, e₁, rw at e₂, v₂, λ r. ground (arith, u₁ r, u₂ r, down))

  -- While Interix grants every anonymous mapping: at a page of the range and for a length that
  -- stays in it, do_munmap succeeds, and then every page that the length touches is out of use,
  -- and every other page is in use exactly if it was before. This holds on the path for whole
  -- blocks and on the path for pages alike.
  pub do_munmap_lem :
      (p len : ℕ) (s : Store os.Memory)
      → p + pages_in len ≤ page_count
      → IsValid s
      → (s' : Store os.Memory) × (do_munmap os (page_address p) len s ≡ (ok tt, s'))
        × IsValid s'
        × ((r : ℕ) → used s' r ≡ (if in_range p (pages_in len) r then false else used s r))
  unfolding do_munmap
  do_munmap_lem p len s h v = elim (Bool-cases (aligned block_size (page_address p))) [
    | inl whole ↦
        let b = p / 16 in
        let bottom : p ≡ b * 16 =
          omega (arith, ==→eq _ 0 (sym (aligned-eq 16 (page_address p)) ∙ whole)) in
        let (s₁, s₂, e₁, e₂, v₂, u) = whole_lem b len s (omega arith) v in
        let at : page_address p ≡ base_of b = omega arith in
        (s₂, rw (whole, at, e₁) e₂, v₂, λ r. ground (arith, u r))
    | inr pages ↦ let (s', e, v', u) = unuse_pages_lem p len s h v in (s', rw pages e, v', u)
  ]
