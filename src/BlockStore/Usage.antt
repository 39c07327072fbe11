-- ===== src/BlockStore/Usage.antt =====
-- src/syscalls/mmap.cc: which pages are in use, and what the page operations of BlockStore do to
-- them while Interix grants its mappings.
use lbw.Prelude.{
  ℕ, ◌+◌, ◌*◌, ◌/◌, ◌%◌, ◌<◌, ◌≡◌, refl, Bool, true, false, some, arith, ◌==◌, if◌then◌else◌, ◌∙◌,
}
use lbw.Prelude.Results.{ok}
use lbw.MemOp.{aligned}
use lbw.MemOp.Laws.{aligned-eq}
use lbw.Interix.{Interix}
use lbw.BlockStore.{
  Block, address_of, fragmented, mapped, Slot, null, live, freed, Store, get_block, block_size,
  range_bottom, block_count, set_slot, delete_block, new_fragmented, convert_block, get_page_map,
  fragment_slot,
}

-- The pages that a slot has in use. All pages of a mapped block are.
abbrev pub pages_of : Slot → ℕ → Bool
pages_of null k = false
pages_of (live (fragmented a p)) k = p k
pages_of (live (mapped a l w)) k = true
pages_of freed k = false

-- The abstract view: whether the page with a given number, from the bottom of the range on, is in
-- use. A page number is 16 times its block's index plus its place in the block.
abbrev pub used : {M : Type 0} → Store M → ℕ → Bool
used s q = pages_of (s.slots (q / 16)) (q % 16)

abbrev pub base_of : ℕ → ℕ
base_of i = range_bottom + i * block_size

-- A slot is in order if it is no dangling pointer, and its block stands at the slot's address.
abbrev pub SlotValid : ℕ → Slot → Type 0
SlotValid i null = Unit
SlotValid i (live (fragmented a p)) = a ≡ base_of i
SlotValid i (live (mapped a l w)) = a ≡ base_of i
SlotValid i freed = ⊥

abbrev pub IsValid : {M : Type 0} → Store M → Type 0
IsValid s = (i : ℕ) → SlotValid i (s.slots i)

-- Interix grants every anonymous mapping at the address that was asked for.
abbrev pub Grants : Interix → Type 0
Grants os = (a l : ℕ) (m : os.Memory) → (os.mmap_anonymous a l m).0 ≡ some a

pub ==-self : (a : ℕ) → (a == a) ≡ true
==-self a = ground arith

pub aligned-base_of : (i : ℕ) → aligned block_size (base_of i) ≡ true
aligned-base_of i = aligned-eq 16 (base_of i) ∙ ground arith

pub get_block_lem : (i : ℕ) → i < block_count → get_block (base_of i) ≡ ok i
unfolding get_block
get_block_lem i h = ground arith

module _ (os : Interix) where
  pub delete_block_lem :
      (i : ℕ) (s : Store os.Memory) (b : Block)
      → s.slots i ≡ live b
      → delete_block os i s ≡ (
        ok tt,
        set_slot i freed (record s { memory = (os.munmap (address_of b) block_size s.memory).1 }),
      )
  unfolding delete_block
  delete_block_lem i s b e = rw (e, delete_block)

module _ (os : Interix) (grants : Grants os) where
  -- The store after the slot i is made fragmented with the pages p.
  abbrev pub Fragments : Store os.Memory → ℕ → (ℕ → Bool) → Store os.Memory → Type 0
  Fragments s i p s' =
      (j : ℕ) → s'.slots j ≡ (if j == i then live (fragmented (base_of i) p) else s.slots j)

  new_fragmented_lem :
      (i a : ℕ) (s : Store os.Memory)
      → new_fragmented os i a s ≡ (
        ok tt,
        set_slot i
            (live (fragmented a (λ _. false)))
            (record s { memory = (os.mmap_anonymous a block_size s.memory).1 }),
      )
  unfolding new_fragmented
  new_fragmented_lem i a s = rw (grants a block_size s.memory, ==-self a)

  convert_block_lem :
      (i a l : ℕ) (s : Store os.Memory) (b : Block)
      → s.slots i ≡ live b
      → (s' : Store os.Memory) × (convert_block os i a l s ≡ (ok tt, s'))
        × ((j : ℕ) → s'.slots j ≡ (if j == i then live (fragmented a (λ _. true)) else s.slots j))
  unfolding convert_block
  convert_block_lem i a l s b e =
      let m₁ = (os.munmap (address_of b) block_size s.memory).1 in
      let m₂ = (os.mmap_anonymous a block_size m₁).1 in
      (
        record {
          slots = λ j.
              if j == i
              then live (fragmented a (λ _. true))
              else if j == i
              then live (fragmented a (λ _. false))
              else if j == i
              then freed
              else s.slots j;
          memory = os.write a (os.read a l s.memory) m₂;
        },
        rw (delete_block_lem os i s b e, new_fragmented_lem i a),
        λ j. ground arith,
      )

  fragment_slot_lem :
      (slot : Slot) (i : ℕ) (s : Store os.Memory)
      → s.slots i ≡ slot
      → SlotValid i slot
      → (s' : Store os.Memory) × (fragment_slot os slot i (base_of i) s ≡ (ok tt, s'))
        × Fragments s i (pages_of slot) s'
  unfolding fragment_slot
  fragment_slot_lem null i s e v = (_, new_fragmented_lem i (base_of i) s, λ j. refl)
  fragment_slot_lem (live (fragmented a p)) i s e v = (s, refl, λ j. ground arith)
  fragment_slot_lem (live (mapped a l w)) i s e v =
      let (s', done, f) = convert_block_lem i (base_of i) l s (mapped a l w) e in (s', done, f)
  fragment_slot_lem freed i s e v = absurd v

  pub get_page_map_lem :
      (i : ℕ) (s : Store os.Memory)
      → i < block_count
      → SlotValid i (s.slots i)
      → (s' : Store os.Memory) × (get_page_map os (base_of i) s ≡ (ok i, s'))
        × Fragments s i (pages_of (s.slots i)) s'
  unfolding get_page_map
  get_page_map_lem i s h v =
      let (s', e, f) = fragment_slot_lem (s.slots i) i s refl v in
      (s', rw (aligned-base_of i, get_block_lem i h, e), f)
