-- ===== src/Mmap.antt =====
-- src/syscalls/mmap.cc and mmap.h: BlockStore::Map and Reset, do_mmap, do_munmap, the system calls
-- of memory mapping, and MakeWriteable.
pub mod Anonymous
pub mod Munmap
pub mod Faults
use lbw.Prelude.{
  ℕ, zero, suc, ◌+◌, ◌-◌, ◌*◌, ◌%◌, min, Bool, true, false, not, ◌&&◌, List, [], ◌∷◌, Option, none,
  some, ltb, ◌==◌, if◌then◌else◌,
}
use lbw.Prelude.Results.{
  einval, enomem, enosys, eio, ok, throw, fault, pure, raise, lift, continue, assert, ◌>>=◌, ◌>>◌,
  use_after_free, null_dereference, assert_failed,
}
use lbw.Prelude.Flags.{test, Rule, copy_bits}
use lbw.MemOp.{u32_mod, add32, align, align_up, offset, aligned}
use lbw.Interix.{Interix, FileMapping}
use lbw.BlockStore.{
  fragmented, mapped, Slot, null, live, freed, block_size, page_size, block_count, get_block,
  set_slot, for_each, on_throw, loop_fuel, Act, delete_block, new_mapped, unmap, use_page,
  unuse_page, get_page_map, get_length,
}

abbrev pub prot_write : ℕ
prot_write = 0x2

abbrev pub prot_exec : ℕ
prot_exec = 0x4

abbrev pub map_shared : ℕ
map_shared = 0x01

abbrev pub map_private : ℕ
map_private = 0x02

abbrev pub map_fixed : ℕ
map_fixed = 0x10

abbrev pub map_anonymous : ℕ
map_anonymous = 0x20

-- u32 a - b.
abbrev pub sub32 : ℕ → ℕ → ℕ
sub32 a b = (a + u32_mod - b) % u32_mod

pub zeros : ℕ → List ℕ
zeros zero = []
zeros (suc n) = 0 ∷ zeros n

module _ (os : Interix) where
  open os use {Memory, mmap_anonymous, munmap, write, pread, file_size, last_errno, msync}

  -- One round of the loop in Map.
  unfoldable pub map_block : ℕ → ℕ → FileMapping → ℕ → Act os Unit
  map_block address length f i = do
    b ← lift (get_block (add32 address i))
    delete_block os b
    new_mapped os b (add32 address i) (min (length - i) 0x10000)
        (record f { offset = add32 f.offset i })

  -- BlockStore::Map
  unfoldable pub map_blocks : ℕ → ℕ → FileMapping → Act os Unit
  map_blocks address length f = do
    assert (aligned block_size address)
    assert (aligned block_size f.offset)
    λ s.
        on_throw (for_each loop_fuel 0 length block_size (map_block address length f) s)
          (unmap os address length)

  -- The loop of BlockStore::Reset, over the blocks below a count.
  unfoldable pub reset_below : ℕ → Act os Unit
  reset_below zero s = (ok tt, s)
  reset_below (suc n) s =
      continue (reset_below n s)
        λ _ s₁. continue (delete_block os n s₁) λ _ s₂. (ok tt, set_slot n null s₂)

  -- UnmapAll
  unfoldable pub unmap_all : Act os Unit
  unmap_all = reset_below block_count

  -- Without MAP_FIXED Interix is asked for a place, which is given back at once.
  abbrev give_back : ℕ → Bool × Memory → Act os ℕ
  give_back result (true, m) s = (ok result, record s { memory = m })
  give_back result (false, m) s = (fault assert_failed, record s { memory = m })

  abbrev found : ℕ → Option ℕ × Memory → Act os ℕ
  found len (none, m) s = (throw enomem, record s { memory = m })
  found len (some result, m) s = give_back result (munmap result len m) s

  unfoldable pub find_free : ℕ → ℕ → Act os ℕ
  find_free addr len s = found len (mmap_anonymous addr len s.memory) s

  -- memset(addr, 0, PAGE_SIZE)
  unfoldable pub clear_page : ℕ → Act os Unit
  clear_page a s = (ok tt, record s { memory = write a (zeros page_size) s.memory })

  -- pread(fd, addr, PAGE_SIZE, offset), which throws errno.
  abbrev loaded : Option ℕ × Memory → Act os Unit
  loaded (none, m) s = (throw (last_errno m), record s { memory = m })
  loaded (some n, m) s = (ok tt, record s { memory = m })

  unfoldable pub load_page : ℕ → ℕ → ℕ → Act os Unit
  load_page fd a off s = loaded (pread fd a page_size off s.memory) s

  unfoldable pub anonymous_page : ℕ → ℕ → Act os Unit
  unfolding clear_page
  anonymous_page addr i = do use_page os (add32 addr i); clear_page (add32 addr i)

  unfoldable pub file_page : ℕ → ℕ → ℕ → ℕ → Act os Unit
  unfolding load_page
  file_page fd addr off i = do use_page os (add32 addr i); load_page fd (add32 addr i) (add32 off i)

  -- How much of the file is mapped: `int reallen = min(len, (u32) st.st_size - offset)`.
  unfoldable pub real_length : ℕ → ℕ → ℕ → ℕ
  real_length len size off = min len (sub32 size off)

  -- `if (reallen > 0) blockstore.Map(...)`; reallen is a signed int.
  unfoldable pub map_whole : ℕ → ℕ → ℕ → FileMapping → Act os Unit
  map_whole addr len real f =
      if ltb 0 real && ltb real 0x8000_0000 then map_blocks addr real f else pure tt

  -- What do_mmap does at the address that it settled on.
  unfoldable pub fill : Bool → ℕ → ℕ → ℕ → ℕ → ℕ → ℕ → Act os Unit
  fill force_load addr len prot flags fd off s =
      if test flags map_anonymous
      then for_each loop_fuel 0 len page_size (anonymous_page addr) s
      else if not force_load && aligned block_size addr && aligned block_size off
      then map_whole addr len (real_length len (file_size fd s.memory) off)
          (record {
            fd = fd;
            offset = off;
            shared = test flags map_shared;
            w = test prot prot_write;
            x = test prot prot_exec;
          })
          s
      else for_each loop_fuel 0 len page_size (file_page fd addr off) s

  unfoldable pub do_mmap : Bool → ℕ → ℕ → ℕ → ℕ → ℕ → ℕ → Act os ℕ
  do_mmap force_load addr len prot flags fd off =
      if not (aligned page_size addr)
      then raise einval
      else if not (aligned page_size off)
      then raise einval
      else do
        at ← if test flags map_fixed then pure addr else find_free addr len
        fill force_load at len prot flags fd off
        pure at

  -- The loop at the end of do_munmap.
  unfoldable pub unuse_pages : ℕ → ℕ → Act os Unit
  unuse_pages addr len = for_each loop_fuel 0 len page_size (λ i. unuse_page os (add32 addr i))

  unfoldable pub do_munmap : ℕ → ℕ → Act os Unit
  do_munmap addr len =
      if aligned block_size addr
      then (do
        unmap os addr (align block_size len)
        unuse_pages (add32 addr (align block_size len)) (len - align block_size len))
      else unuse_pages addr len

  -- sys32_mmap2: the offset is in pages.
  unfoldable pub sys32_mmap2 : Bool → ℕ → ℕ → ℕ → ℕ → ℕ → ℕ → Act os ℕ
  sys32_mmap2 force_load addr len prot flags fd pgoff =
      do_mmap force_load addr len prot flags fd (pgoff * 4096 % u32_mod)

  unfoldable pub sys_unmap : ℕ → ℕ → Act os ℕ
  sys_unmap addr len = do do_munmap addr len; pure 0

  -- sys32_mprotect changes nothing.
  unfoldable pub sys32_mprotect : ℕ → ℕ → ℕ → Act os ℕ
  sys32_mprotect addr len prot = pure 0

  unfoldable pub sys_mlock : ℕ → ℕ → Act os ℕ
  sys_mlock addr length = raise enosys

  unfoldable pub sys_mremap : Act os ℕ
  sys_mremap = raise enosys

  abbrev pub msync_rules : List Rule
  msync_rules =
      record { from = 1; to = os.ms_async }
      ∷ record { from = 4; to = os.ms_sync }
      ∷ record { from = 2; to = os.ms_invalidate }
      ∷ []

  -- msync(2) as Block::Msync calls it; EIO is caught and ignored by the loop around it.
  abbrev synced : Bool × Memory → Act os Unit
  synced (false, m) s = (ok tt, record s { memory = m })
  synced (true, m) s = elim (last_errno m) [
    | eio ↦ (ok tt, record s { memory = m })
    | e ↦ (throw e, record s { memory = m })
  ]

  unfoldable pub msync_call : ℕ → ℕ → ℕ → Act os Unit
  msync_call a length iflags s = synced (msync a length iflags s.memory) s

  -- `b->Msync(b->GetLength(), iflags)`: a mapping that is not writeable is left alone.
  unfoldable pub msync_slot : Slot → ℕ → Act os Unit
  unfolding msync_call get_length
  msync_slot null iflags s = (fault null_dereference, s)
  msync_slot freed iflags s = (fault use_after_free, s)
  msync_slot (live (mapped a l false)) iflags s = (ok tt, s)
  msync_slot (live (mapped a l true)) iflags s =
      msync_call a (get_length (mapped a l true)) iflags s
  msync_slot (live (fragmented a p)) iflags s = msync_call a (get_length (fragmented a p)) iflags s

  unfoldable pub msync_block : ℕ → ℕ → ℕ → Act os Unit
  msync_block addr iflags i = do
    b ← lift (get_block (add32 addr i))
    λ s. msync_slot (s.slots b) iflags s

  unfoldable pub sys_msync : ℕ → ℕ → ℕ → Act os ℕ
  sys_msync addr length flags = if not (aligned page_size addr) then raise einval else do
    for_each loop_fuel 0 (add32 length (offset block_size addr)) block_size
        (msync_block (align block_size addr) (copy_bits msync_rules flags 0))
    pure 0

  -- MakeWriteable
  unfoldable pub make_writeable : ℕ → ℕ → Act os Unit
  make_writeable addr length = do
    let top = align_up block_size (sub32 (add32 addr length) 1)
    let bottom = align block_size addr
    get_page_map os bottom
    if top == bottom then pure tt else (do get_page_map os top; pure tt)
