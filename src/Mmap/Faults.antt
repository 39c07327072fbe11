-- ===== src/Mmap/Faults.antt =====
-- src/syscalls/mmap.cc: what its operations do beside their purpose: blocks that stay behind after
-- do_munmap, blocks that MakeWriteable creates, and the state after an mmap that failed.
use lbw.Prelude.{
  ℕ, ◌+◌, ◌-◌, ◌*◌, ◌/◌, ◌≤◌, ◌<◌, ◌≡◌, refl, Bool, true, false, none, arith, ◌==◌, ◌≢◌,
}
use lbw.Prelude.Results.{Errno, ok, throw, fault, use_after_free}
use lbw.MemOp.{add32, align, align_up}
use lbw.MemOp.Laws.{align_lem, align_up_lem}
use lbw.Interix.{Interix}
use lbw.BlockStore.{
  Block, address_of, null, live, freed, mapped, Store, block_size, block_count, get_page_map,
  convert_block, fragment_slot, new_fragmented, set_slot, use_page,
}
use lbw.BlockStore.Usage.{
  used, IsValid, Grants, base_of, get_block_lem, aligned-base_of, ==-self, get_page_map_lem,
  delete_block_lem,
}
use lbw.BlockStore.Pages.{page_address, page_count, aligned-page_address, align-page_address}
use lbw.Mmap.{do_munmap, make_writeable, sub32}
use lbw.Mmap.Munmap.{do_munmap_lem}

used-null : {M : Type 0} (s : Store M) (b : ℕ) → s.slots b ≡ null → used s (b * 16 + 15) ≡ false
used-null s b e = let last : (b * 16 + 15) / 16 ≡ b = omega arith in rw (last, e)

module _ (os : Interix) (grants : Grants os) where
  -- A file mapping that is shorter than fifteen pages and stands alone in its block is not freed
  -- when do_munmap is given the length that was mapped: the pages behind it count as in use, and
  -- the block stays.
  do_munmap-short :
      (b l : ℕ) (w : Bool) (s : Store os.Memory)
      → b < block_count
      → l ≤ 0xf000
      → IsValid s
      → s.slots b ≡ live (mapped (base_of b) l w)
      → (s' : Store os.Memory) × (do_munmap os (base_of b) l s ≡ (ok tt, s'))
        × (used s' (b * 16 + 15) ≡ true)
        × (s'.slots b ≢ null)
  do_munmap-short b l w s h short v e =
      let at : base_of b ≡ page_address (b * 16) = omega arith in
      let last : (b * 16 + 15) / 16 ≡ b = omega arith in
      let (s', done, v', u) = do_munmap_lem os grants (b * 16) l s (omega arith) v in
      let before : used s (b * 16 + 15) ≡ true = rw (last, e) in
      let after : used s' (b * 16 + 15) ≡ true = ground (arith, u (b * 16 + 15), before) in
      let empty : s'.slots b ≡ null → used s' (b * 16 + 15) ≡ false = used-null s' b in
      (s', rw at done, after, λ z. cc (after, empty z))

  -- MakeWriteable of a range that lies inside one block, but not at its first byte alone, also
  -- makes a fragmented block of the block behind it.
  make_writeable-next :
      (b o len : ℕ) (s : Store os.Memory)
      → b + 1 < block_count
      → 0 < len
      → 1 < o + len
      → o + len ≤ block_size
      → IsValid s
      → (s' : Store os.Memory) × (make_writeable os (base_of b + o) len s ≡ (ok tt, s'))
        × (s'.slots (b + 1) ≢ null)
  unfolding make_writeable
  make_writeable-next b o len s h p q r v =
      let bottom : align block_size (base_of b + o) ≡ base_of b =
        omega (arith, align_lem 16 (base_of b + o) (omega arith) (omega arith)) in
      let last : sub32 (add32 (base_of b + o) len) 1 ≡ base_of b + o + len - 1 = omega arith in
      let top : align_up block_size (base_of b + o + len - 1) ≡ base_of (b + 1) =
        omega (arith, align_up_lem 16 (base_of b + o + len - 1) (omega arith) (omega arith)) in
      let apart : (base_of (b + 1) == base_of b) ≡ false = ground arith in
      let (s₁, e₁, f₁) = get_page_map_lem os grants b s (omega arith) (v b) in
      let same : s₁.slots (b + 1) ≡ s.slots (b + 1) = ground (arith, f₁ (b + 1)) in
      let (s₂, e₂, f₂) = get_page_map_lem os grants (b + 1) s₁ h (rw same (v (b + 1))) in
      (s₂, rw (bottom, last, top, e₁, apart, e₂), λ z. cc (z, f₂ (b + 1), ==-self (b + 1)))

module _ (os : Interix) where
  fragment_mapped :
      (a l : ℕ) (w : Bool) (i x : ℕ) (s : Store os.Memory)
      → fragment_slot os (live (mapped a l w)) i x s ≡ convert_block os i x l s
  unfolding fragment_slot
  fragment_mapped a l w i x s = refl

  fragment_freed :
      (i x : ℕ) (s : Store os.Memory) → fragment_slot os freed i x s ≡ (fault use_after_free, s)
  unfolding fragment_slot
  fragment_freed i x s = refl

module _ (os : Interix)
    (refused : (a l : ℕ) (m : os.Memory) → (os.mmap_anonymous a l m).0 ≡ none) where
  convert_refused :
      (i a l : ℕ) (b : Block) (s : Store os.Memory)
      → s.slots i ≡ live b
      → (x : Errno) × (s' : Store os.Memory) × (convert_block os i a l s ≡ (throw x, s'))
        × (s'.slots i ≡ freed)
  unfolding convert_block new_fragmented
  convert_refused i a l b s e =
      let m₁ = (os.munmap (address_of b) block_size s.memory).1 in
      (
        os.last_errno (os.mmap_anonymous a block_size m₁).1,
        record (set_slot i freed s) { memory = (os.mmap_anonymous a block_size m₁).1 },
        rw (delete_block_lem os i s b e, refused a block_size m₁),
        rw (==-self i),
      )

  -- Where Interix refuses new mappings, using a page of a mapped block throws and leaves a pointer
  -- to the deleted block, which the next use of that page runs into.
  use_page-refused :
      (q a l : ℕ) (w : Bool) (s : Store os.Memory)
      → q < page_count
      → s.slots (q / 16) ≡ live (mapped a l w)
      → (x : Errno) × (s' : Store os.Memory) × (use_page os (page_address q) s ≡ (throw x, s'))
        × (s'.slots (q / 16) ≡ freed)
        × (use_page os (page_address q) s' ≡ (fault use_after_free, s'))
  unfolding use_page get_page_map
  use_page-refused q a l w s h e =
      let i = q / 16 in
      let (x, s', thrown, dangling) = convert_refused i (base_of i) l (mapped a l w) s e in
      let found = get_block_lem i (omega arith) in
      let page = aligned-page_address q in
      let bottom = align-page_address q h in
      let whole = aligned-base_of i in
      (
        x,
        s',
        rw (page, bottom, whole, found, e, fragment_mapped os a l w i (base_of i) s, thrown),
        dangling,
        rw (page, bottom, whole, found, dangling, fragment_freed os i (base_of i) s'),
      )
