-- ===== src/BlockStore.antt =====
-- src/syscalls/mmap.cc, classes Block, FragmentedBlock, MappedBlock and BlockStore: 4 kB pages
-- emulated on top of the 64 kB blocks in which Interix maps memory.
pub mod Usage
pub mod Pages
pub mod Loops
pub mod Ranges
use lbw.Prelude.{
  ℕ, zero, suc, ◌+◌, ◌-◌, ◌*◌, ◌/◌, ◌%◌, ◌≤◌, ◌<◌, ◌≡◌, Bool, true, false, not, ◌&&◌, ◌||◌, Option,
  none, some, ltb, leb, ◌==◌, if◌then◌else◌,
}
use lbw.Prelude.Results.{
  Errno, einval, Result, ok, throw, fault, Exec, pure, raise, crash, lift, continue, assert, ◌>>=◌,
  ◌>>◌, use_after_free, out_of_fuel,
}
use lbw.MemOp.{u32_mod, add32, align, offset, aligned}
use lbw.Interix.{Interix, FileMapping}

abbrev pub block_size : ℕ
block_size = 0x0001_0000

abbrev pub page_size : ℕ
page_size = 0x0000_1000

abbrev pub range_bottom : ℕ
range_bottom = 0x0800_0000

abbrev pub range_top : ℕ
range_top = 0x8000_0000

-- (RANGE_TOP - RANGE_BOTTOM) / BLOCK_SIZE
abbrev pub block_count : ℕ
block_count = 0x7800

-- Each block knows its address. `fragmented` has the bitset of the pages in use, `mapped` the
-- length of its mapping and whether it is writeable.
pub data Block : Type 0 where
  fragmented : ℕ → (ℕ → Bool) → Block
  mapped : ℕ → ℕ → Bool → Block

-- An entry of `_blocks`: NULL, a block, or a pointer to a block that was deleted.
pub data Slot : Type 0 where
  null : Slot
  live : Block → Slot
  freed : Slot

pub record Store (M : Type 0) : Type 0 where
  pub slots : ℕ → Slot
  pub memory : M

-- Block::Address
unfoldable pub address_of : Block → ℕ
address_of (fragmented a p) = a
address_of (mapped a l w) = a

-- Block::GetLength, MappedBlock::GetLength
unfoldable pub get_length : Block → ℕ
get_length (fragmented a p) = 0x10000
get_length (mapped a l w) = l

-- bitset<16>::none
abbrev pub any_below : ℕ → (ℕ → Bool) → Bool
any_below zero p = false
any_below (suc n) p = p n || any_below n p

abbrev pub is_none : (ℕ → Bool) → Bool
is_none p = not (any_below 16 p)

-- The index that GetBlock uses, or its EINVAL.
unfoldable pub get_block : ℕ → Result ℕ
get_block address =
    if ltb address range_bottom || leb range_top address
    then throw einval
    else ok ((address - range_bottom) / block_size)

module _ {M : Type 0} where
  abbrev pub set_slot : ℕ → Slot → Store M → Store M
  set_slot i v s = record s { slots = λ j. if j == i then v else s.slots j }

  -- `for (u32 i = 0; i < length; i += step) body(i);` from some i on, for `fuel` rounds.
  unfoldable pub for_each : ℕ → ℕ → ℕ → ℕ → (ℕ → Exec (Store M) Unit) → Exec (Store M) Unit
  for_each zero i length step body s = (fault out_of_fuel, s)
  for_each (suc fuel) i length step body s = elim (ltb i length) [
    | true ↦ continue (body i s) (λ _. for_each fuel (add32 i step) length step body)
    | false ↦ (ok tt, s)
  ]

  -- `try { ... } catch (int e) { handler; throw e; }`
  abbrev pub on_throw :
      Result (Unit {0}) × Store M → Exec (Store M) Unit → Result (Unit {0}) × Store M
  on_throw (ok a, s) handler = (ok a, s)
  on_throw (fault x, s) handler = (fault x, s)
  on_throw (throw e, s) handler = continue (handler s) (λ _. raise e)

-- More rounds than any loop over 32-bit lengths makes.
abbrev pub loop_fuel : ℕ
loop_fuel = 0x10_0001

module _ (os : Interix) where
  open os use {Memory, mmap_anonymous, mmap_file, munmap, read, write, last_errno}

  abbrev pub Act : Type 0 → Type 0
  Act A = Exec (Store Memory) A

  -- `delete _blocks[i];` runs the destructor, which unmaps the block; the pointer stays.
  unfoldable pub delete_block : ℕ → Act Unit
  unfolding address_of
  delete_block i s = elim (s.slots i) [
    | null ↦ (ok tt, s)
    | live b ↦ (
      ok tt,
      set_slot i freed (record s { memory = (munmap (address_of b) block_size s.memory).1 }),
    )
    | freed ↦ (fault use_after_free, s)
  ]

  -- The constructors' test of what mmap returned; on success the slot holds the new block.
  abbrev pub place : ℕ → ℕ → Block → Option ℕ × Memory → Act Unit
  place i address b (none, m) s = (throw (last_errno m), record s { memory = m })
  place i address b (some result, m) s =
      if result == address
      then (ok tt, set_slot i (live b) (record s { memory = m }))
      else (throw (last_errno m), record s { memory = m })

  -- `_blocks[i] = new FragmentedBlock(address);`
  unfoldable pub new_fragmented : ℕ → ℕ → Act Unit
  new_fragmented i address s =
      place i address (fragmented address (λ _. false)) (mmap_anonymous address block_size s.memory)
        s

  -- `_blocks[i] = new MappedBlock(address, ...);`
  unfoldable pub new_mapped : ℕ → ℕ → ℕ → FileMapping → Act Unit
  new_mapped i address length f s =
      place i address (mapped address length f.w) (mmap_file address length f s.memory) s

  -- The conversion in GetPageMap of a mapped block: copy out, unmap, map anew, copy in.
  unfoldable pub convert_block : ℕ → ℕ → ℕ → Act Unit
  unfolding delete_block new_fragmented
  convert_block i address length s = continue (delete_block i s) λ _ s₁.
      continue (new_fragmented i address s₁) λ _ s₂. (
        ok tt,
        record s₂ {
          slots = λ j. if j == i then live (fragmented address (λ _. true)) else s₂.slots j;
          memory = write address (read address length s.memory) s₂.memory;
        },
      )

  -- What GetPageMap does for the block that it finds: it creates one, converts it or leaves it.
  unfoldable pub fragment_slot : Slot → ℕ → ℕ → Act Unit
  unfolding new_fragmented convert_block
  fragment_slot null i address s = new_fragmented i address s
  fragment_slot (live (fragmented a p)) i address s = (ok tt, s)
  fragment_slot (live (mapped a length w)) i address s = convert_block i address length s
  fragment_slot freed i address s = (fault use_after_free, s)

  -- GetPageMap; the bitset that it returns by reference is named by the index of its block.
  unfoldable pub get_page_map : ℕ → Act ℕ
  get_page_map address = do
    assert (aligned block_size address)
    i ← lift (get_block address)
    λ s. continue (fragment_slot (s.slots i) i address s) (λ _. pure i)

  -- `pagemap[page] = used;`
  unfoldable pub set_page : ℕ → ℕ → Bool → Act Unit
  set_page i page b s = elim (s.slots i) [
    | live (fragmented a p) ↦
        (ok tt, set_slot i (live (fragmented a (λ k. if k == page then b else p k))) s)
    | _ ↦ (fault use_after_free, s)
  ]

  -- Unmap(address)
  unfoldable pub unmap_block : ℕ → Act Unit
  unfolding delete_block get_block
  unmap_block address = do
    assert (aligned block_size address)
    i ← lift (get_block address)
    delete_block i
    λ s. (ok tt, set_slot i null s)

  -- Unmap(address, length)
  unfoldable pub unmap : ℕ → ℕ → Act Unit
  unmap address length = do
    assert (aligned block_size address)
    assert (aligned block_size length)
    for_each loop_fuel 0 length block_size (λ i. unmap_block (add32 address i))

  -- UsePage
  unfoldable pub use_page : ℕ → Act Unit
  use_page address = do
    assert (aligned page_size address)
    i ← get_page_map (align block_size address)
    set_page i (offset block_size address / page_size) true

  -- `if (pagemap.none()) Unmap(alignedaddress, BLOCK_SIZE);`
  unfoldable pub nuke_if_unused : ℕ → ℕ → Act Unit
  nuke_if_unused i base s = elim (s.slots i) [
    | live (fragmented a p) ↦
        let nuked = unmap base block_size s in if is_none p then nuked else (ok tt, s)
    | _ ↦ (ok tt, s)
  ]

  -- UnusePage
  unfoldable pub unuse_page : ℕ → Act Unit
  unuse_page address = do
    assert (aligned page_size address)
    i ← get_page_map (align block_size address)
    set_page i (offset block_size address / page_size) false
    nuke_if_unused i (align block_size address)
