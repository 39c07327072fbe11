-- ===== src/Examples/Mapping.antt =====
-- The theorems on memory mapping (src/MemOp.h, src/syscalls/mmap.cc) at concrete inputs: an Interix
-- that grants every mapping, and one that refuses them.
use lbw.Prelude.{ℕ, ◌≡◌, refl, Bool, true, false, none, some, [], arith, ◌==◌, if◌then◌else◌}
use lbw.Prelude.Results.{eio, ok}
use lbw.MemOp.{aligned}
use lbw.Interix.{Interix}
use lbw.BlockStore.{Store, null, live, mapped}
use lbw.BlockStore.Usage.{used, IsValid, base_of}
use lbw.BlockStore.Pages.{page_address}
use lbw.BlockStore.Ranges.{in_range}
use lbw.Mmap.{do_mmap, do_munmap}
use lbw.Mmap.Anonymous.{do_mmap-anonymous}
use lbw.Mmap.Munmap.{do_munmap_lem}

-- An Interix without contents that grants mappings, or refuses them.
abbrev interix : Bool → Interix
interix grants = record {
  Memory = Unit {0};
  mmap_anonymous = λ a l m. (if grants then some a else none, m);
  mmap_file = λ a l f m. (if grants then some a else none, m);
  munmap = λ a l m. (true, m);
  read = λ a l m. [];
  write = λ a bytes m. m;
  pread = λ fd a l o m. (some l, m);
  file_size = λ fd m. 0x3000;
  msync = λ a l f m. (false, m);
  last_errno = λ m. eio;
  ms_async = 1;
  ms_sync = 2;
  ms_invalidate = 4;
}

abbrev empty_store : Store (Unit {0})
empty_store = record { slots = λ i. null; memory = tt }

-- Block 2 holds a mapping of three pages.
abbrev file_store : Store (Unit {0})
file_store = record {
  slots = λ i. if i == 2 then live (mapped (base_of 2) 0x3000 false) else null;
  memory = tt;
}

file_store-IsValid : IsValid file_store
file_store-IsValid i = ground arith

aligned_0x1000 : aligned 0x1000 0 ≡ true
unfolding aligned
aligned_0x1000 = refl

do_mmap-anonymous_example :
    (s' : Store (Unit {0})) × (do_mmap
        (interix true)
        false
        (page_address 5)
        0x2800
        3
        0x32
        0
        0
        empty_store
      ≡ (ok (page_address 5), s'))
    × IsValid s'
    × ((r : ℕ) → used s' r ≡ (if in_range 5 3 r then true else used empty_store r))
do_mmap-anonymous_example =
    do_mmap-anonymous (interix true) (λ a l m. refl) false 5 0x2800 3 0x32 0 0 empty_store
      (omega arith) aligned_0x1000 refl refl (λ i. tt)

do_munmap_example :
    (s' : Store (Unit {0})) × (do_munmap (interix true) (page_address 32) 0x2800 file_store
      ≡ (ok tt, s'))
    × IsValid s'
    × ((r : ℕ) → used s' r ≡ (if in_range 32 3 r then false else used file_store r))
do_munmap_example =
    do_munmap_lem (interix true) (λ a l m. refl) 32 0x2800 file_store (omega arith)
      file_store-IsValid
