-- ===== src/Mmap/Anonymous.antt =====
-- src/syscalls/mmap.cc: do_mmap of anonymous memory at a fixed address.
use lbw.Prelude.{ℕ, ◌+◌, ◌/◌, ◌%◌, ◌≤◌, ◌<◌, ◌≡◌, Bool, true, ◌==◌, if◌then◌else◌}
use lbw.Prelude.Results.{ok}
use lbw.Prelude.Flags.{test}
use lbw.MemOp.{aligned}
use lbw.Interix.{Interix}
use lbw.BlockStore.{Store, page_size, loop_fuel, for_each}
use lbw.BlockStore.Usage.{used, IsValid, Grants}
use lbw.BlockStore.Pages.{page_address, page_count, use_page_lem, aligned-page_address}
use lbw.BlockStore.Ranges.{in_range, pages_in, add32-page_address, range_lem}
use lbw.Mmap.{map_anonymous, map_fixed, anonymous_page, fill, do_mmap, zeros}

module _ (os : Interix) (grants : Grants os) where
  anonymous_page_lem :
      (p i : ℕ) (s : Store os.Memory)
      → i % page_size ≡ 0
      → p + i / page_size < page_count
      → IsValid s
      → (s' : Store os.Memory) × (anonymous_page os (page_address p) i s ≡ (ok tt, s'))
        × IsValid s'
        × ((r : ℕ) → used s' r ≡ (if r == p + i / page_size then true else used s r))
  unfolding anonymous_page
  anonymous_page_lem p i s m h v =
      let (s₁, done, v₁, u) = use_page_lem os grants (p + i / page_size) s h v in
      (
        record s₁ {
          memory = os.write (page_address (p + i / page_size)) (zeros page_size) s₁.memory;
        },
        rw (add32-page_address p i m h, done),
        v₁,
        u,
      )

  anonymous_pages_lem :
      (p len : ℕ) (s : Store os.Memory)
      → p + pages_in len ≤ page_count
      → IsValid s
      → (s' : Store os.Memory) × (for_each loop_fuel 0 len page_size
            (anonymous_page os (page_address p))
            s
          ≡ (ok tt, s'))
        × IsValid s'
        × ((r : ℕ) → used s' r ≡ (if in_range p (pages_in len) r then true else used s r))
  anonymous_pages_lem p len s h v =
      range_lem (anonymous_page os (page_address p)) p len true h (anonymous_page_lem p) s v

  -- While Interix grants every anonymous mapping: under MAP_FIXED | MAP_ANONYMOUS, at a page of
  -- the range, for a length that stays in it and an aligned offset, do_mmap returns the address,
  -- and then every page that the length touches is in use, and every other page is in use exactly
  -- if it was before. The store is left without pointers to deleted blocks, as it was given.
  pub do_mmap-anonymous :
      (force_load : Bool) (p len prot flags fd off : ℕ) (s : Store os.Memory)
      → p + pages_in len ≤ page_count
      → aligned page_size off ≡ true
      → test flags map_fixed ≡ true
      → test flags map_anonymous ≡ true
      → IsValid s
      → (s' : Store os.Memory) × (do_mmap os force_load (page_address p) len prot flags fd off s
          ≡ (ok (page_address p), s'))
        × IsValid s'
        × ((r : ℕ) → used s' r ≡ (if in_range p (pages_in len) r then true else used s r))
  unfolding do_mmap fill
  do_mmap-anonymous force p len prot flags fd off s h o fixed anon v =
      let (s', done, v', u) = anonymous_pages_lem p len s h v in
      (s', rw (aligned-page_address p, o, fixed, anon, done), v', u)
