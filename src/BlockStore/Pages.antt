-- ===== src/BlockStore/Pages.antt =====
-- src/syscalls/mmap.cc: what UsePage and UnusePage do to the pages in use.
use lbw.Prelude.{
  ℕ, zero, suc, ◌+◌, ◌*◌, ◌/◌, ◌%◌, ◌<◌, ◌≡◌, refl, inl, inr, Bool, true, false, not, ◌&&◌, arith,
  ltb, ◌==◌, if◌then◌else◌, Bool-cases, ==→eq, ◌∙◌, sym,
}
use lbw.Prelude.Results.{Exec, ok}
use lbw.MemOp.{align, offset, aligned, add32, u32_mod}
use lbw.MemOp.Laws.{align_lem, aligned-eq, offset-eq-mod}
use lbw.Interix.{Interix}
use lbw.BlockStore.{
  Block, fragmented, null, live, freed, Store, block_size, page_size, range_bottom, block_count,
  set_slot, get_page_map, set_page, use_page, unuse_page, nuke_if_unused, is_none, any_below, unmap,
  unmap_block, for_each, address_of,
}
use lbw.BlockStore.Usage.{
  pages_of, used, base_of, SlotValid, IsValid, Grants, get_page_map_lem, delete_block_lem,
  aligned-base_of, get_block_lem, ==-self,
}

-- The address of a page.
abbrev pub page_address : ℕ → ℕ
page_address q = range_bottom + q * page_size

abbrev pub page_count : ℕ
page_count = 0x7_8000

pub align-page_address :
    (q : ℕ) → q < page_count → align block_size (page_address q) ≡ base_of (q / 16)
align-page_address q h = omega (arith, align_lem 16 (page_address q) (omega arith) (omega arith))

offset-page_address : (q : ℕ) → offset block_size (page_address q) / page_size ≡ q % 16
offset-page_address q = omega (arith, offset-eq-mod 16 (page_address q))

pub aligned-page_address : (q : ℕ) → aligned page_size (page_address q) ≡ true
aligned-page_address q = aligned-eq 12 (page_address q) ∙ ground arith

any_below-false : (n : ℕ) (p : ℕ → Bool) (k : ℕ) → any_below n p ≡ false → k < n → p k ≡ false
any_below-false zero p k e h = absurd (omega arith)
any_below-false (suc n) p k e h = ground (arith, any_below-false n p k)

is_none-clear : (p : ℕ → Bool) (k : ℕ) → is_none p ≡ true → k < 16 → p k ≡ false
is_none-clear p k e h = any_below-false 16 p k (not-true (any_below 16 p) e) h
  where
    not-true : (b : Bool) → not b ≡ true → b ≡ false
    not-true b e = ground arith

-- A loop whose step is its length makes one round.
for_each_one :
    {M : Type 0} (f step : ℕ) (body : ℕ → Exec (Store M) Unit) (s s' : Store M)
    → 0 < step
    → step < u32_mod
    → body 0 s ≡ (ok tt, s')
    → for_each (suc (suc f)) 0 step step body s ≡ (ok tt, s')
unfolding for_each
for_each_one f step body s s' p q e =
    let once : ltb 0 step ≡ true = ground arith in
    let over : ltb (add32 0 step) step ≡ false = ground arith in rw (once, for_each, e, over)

-- Page r is page q if both lie in the same block at the same place.
same_page : (q r : ℕ) → (r == q) ≡ ((r / 16 == q / 16) && (r % 16 == q % 16))
same_page q r = ground arith

abbrev marked : ℕ → Bool → (ℕ → Bool) → ℕ → Bool
marked k b p j = if j == k then b else p j

aligned-block_size : aligned block_size block_size ≡ true
unfolding aligned
aligned-block_size = refl

add32-base_of : (i : ℕ) → i < block_count → add32 (base_of i) 0 ≡ base_of i
add32-base_of i h = omega arith

module _ (os : Interix) where
  set_page_lem :
      (i k : ℕ) (b : Bool) (a : ℕ) (p : ℕ → Bool) (s : Store os.Memory)
      → s.slots i ≡ live (fragmented a p)
      → set_page os i k b s ≡ (ok tt, set_slot i (live (fragmented a (marked k b p))) s)
  unfolding set_page
  set_page_lem i k b a p s e = rw (e, set_page)

  -- The store after slot i has the pages p of a fragmented block, or no block and no pages.
  abbrev Becomes : Store os.Memory → ℕ → (ℕ → Bool) → Store os.Memory → Type 0
  Becomes s i p s' =
      ((j : ℕ) → (j == i) ≡ false → s'.slots j ≡ s.slots j)
      × SlotValid i (s'.slots i)
      × ((k : ℕ) → k < 16 → pages_of (s'.slots i) k ≡ p k)

  Becomes-used :
      (s s' : Store os.Memory) (q : ℕ) (b : Bool)
      → Becomes s (q / 16) (marked (q % 16) b (pages_of (s.slots (q / 16)))) s'
      → (r : ℕ) → used s' r ≡ (if r == q then b else used s r)
  Becomes-used s s' q b h r = elim (Bool-cases (r / 16 == q / 16)) [
    | inl same ↦ rw (same_page q r, ==→eq _ _ same, ==-self (q / 16)) (h.2 (r % 16) (omega arith))
    | inr other ↦ rw (h.0 (r / 16) other, same_page q r, other)
  ]

  Becomes-IsValid :
      (s s' : Store os.Memory) (i : ℕ) (p : ℕ → Bool) → IsValid s → Becomes s i p s' → IsValid s'
  Becomes-IsValid s s' i p v h j = elim (Bool-cases (j == i)) [
    | inl same ↦ rw (==→eq j i same) h.1
    | inr other ↦ rw (h.0 j other) (v j)
  ]

  -- `if (pagemap.none()) Unmap(...)` leaves the pages of a fragmented block as they are.
  unmap_block_lem :
      (i : ℕ) (b : Block) (s : Store os.Memory)
      → i < block_count
      → s.slots i ≡ live b
      → unmap_block os (base_of i) s ≡ (
        ok tt,
        set_slot i null (
            set_slot i freed
              (record s { memory = (os.munmap (address_of b) block_size s.memory).1 })),
      )
  unfolding unmap_block
  unmap_block_lem i b s h e = rw (aligned-base_of i, get_block_lem i h, delete_block_lem os i s b e)

  -- The loop of Unmap makes one round for one block.
  unmap_one :
      (i : ℕ) (b : Block) (s : Store os.Memory)
      → i < block_count
      → s.slots i ≡ live b
      → unmap os (base_of i) block_size s ≡ (
        ok tt,
        set_slot i null (
            set_slot i freed
              (record s { memory = (os.munmap (address_of b) block_size s.memory).1 })),
      )
  unfolding unmap
  unmap_one i b s h e =
      rw (aligned-base_of i, aligned-block_size)
        (for_each_one 0xf_ffff block_size _ s _ (omega arith) (omega arith)
          (rw (add32-base_of i h) (unmap_block_lem i b s h e)))

  nuke_lem :
      (i a : ℕ) (p : ℕ → Bool) (s : Store os.Memory)
      → i < block_count
      → a ≡ base_of i
      → s.slots i ≡ live (fragmented a p)
      → (s' : Store os.Memory) × (nuke_if_unused os i (base_of i) s ≡ (ok tt, s'))
        × Becomes s i p s'
  unfolding nuke_if_unused
  nuke_lem i a p s h at e = elim (Bool-cases (is_none p)) [
    | inl gone ↦ (
      set_slot i null (
          set_slot i freed (record s {
            memory = (os.munmap (address_of (fragmented a p)) block_size s.memory).1;
          })),
      rw (e, nuke_if_unused, gone) (unmap_one i (fragmented a p) s h e),
      (λ j o. rw o, rw (==-self i) (tt), λ k l. rw (==-self i) (sym (is_none-clear p k gone l))),
    )
    | inr stays ↦ (s, rw (e, nuke_if_unused, stays), (λ j o. refl, rw e at, λ k l. rw e))
  ]

module _ (os : Interix) (grants : Grants os) where
  -- Getting the page map and setting a page in it, as UsePage and UnusePage begin.
  touch_lem :
      (i k : ℕ) (b : Bool) (s : Store os.Memory)
      → i < block_count
      → SlotValid i (s.slots i)
      → (s₁ s₂ : Store os.Memory) × (get_page_map os (base_of i) s ≡ (ok i, s₁))
        × (set_page os i k b s₁ ≡ (ok tt, s₂))
        × ((j : ℕ)
            → s₂.slots j ≡ (
                if j == i
                then live (fragmented (base_of i) (marked k b (pages_of (s.slots i))))
                else s.slots j))
  touch_lem i k b s h v =
      let (s₁, e, f) = get_page_map_lem os grants i s h v in
      let here : s₁.slots i ≡ live (fragmented (base_of i) (pages_of (s.slots i))) =
        f i ∙ rw (==-self i) refl in
      (s₁, _, e, set_page_lem os i k b (base_of i) _ s₁ here, λ j. ground (arith, f j))

  -- UsePage succeeds on every page of the range, keeps the store in order, and leaves in use that
  -- page and the pages that were.
  pub use_page_lem :
      (q : ℕ) (s : Store os.Memory)
      → q < page_count
      → IsValid s
      → (s' : Store os.Memory) × (use_page os (page_address q) s ≡ (ok tt, s'))
        × IsValid s'
        × ((r : ℕ) → used s' r ≡ (if r == q then true else used s r))
  unfolding use_page
  use_page_lem q s h v =
      let i = q / 16 in
      let pages = marked (q % 16) true (pages_of (s.slots (q / 16))) in
      let (s₁, s₂, got, put, t) = touch_lem i (q % 16) true s (omega arith) (v i) in
      let done : Becomes os s i pages s₂ =
        (λ j o. t j ∙ rw o refl, rw (t i, ==-self i) refl, λ k l. rw (t i, ==-self i) refl) in
      (
        s₂,
        rw (aligned-page_address q, align-page_address q h, got, offset-page_address q, put),
        Becomes-IsValid os s s₂ i pages v done,
        Becomes-used os s s₂ q true done,
      )

  -- UnusePage too, and it leaves in use the pages that were, but for that one.
  pub unuse_page_lem :
      (q : ℕ) (s : Store os.Memory)
      → q < page_count
      → IsValid s
      → (s' : Store os.Memory) × (unuse_page os (page_address q) s ≡ (ok tt, s'))
        × IsValid s'
        × ((r : ℕ) → used s' r ≡ (if r == q then false else used s r))
  unfolding unuse_page
  unuse_page_lem q s h v =
      let i = q / 16 in
      let pages = marked (q % 16) false (pages_of (s.slots (q / 16))) in
      let (s₁, s₂, got, put, t) = touch_lem i (q % 16) false s (omega arith) (v i) in
      let here : s₂.slots i ≡ live (fragmented (base_of i) pages) = t i ∙ rw (==-self i) refl in
      let (s₃, nuked, b) = nuke_lem os i (base_of i) pages s₂ (omega arith) refl here in
      let done : Becomes os s i pages s₃ = (λ j o. b.0 j o ∙ t j ∙ rw o refl, b.1, b.2) in
      (
        s₃,
        rw (aligned-page_address q, align-page_address q h, got, offset-page_address q, put, nuked),
        Becomes-IsValid os s s₃ i pages v done,
        Becomes-used os s s₃ q false done,
      )
