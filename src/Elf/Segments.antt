-- ===== src/Elf/Segments.antt =====
-- src/exec/ElfLoader.cc: where ElfLoader::Load puts the bytes of a segment.
use lbw.Prelude.{ℕ, ◌+◌, ◌-◌, ◌%◌, ◌≤◌, ◌<◌, ◌≡◌, refl, true, List, [], ◌∷◌, arith}
use lbw.Prelude.Flags.{test}
use native.Mathlib.Nat.{mod-eq_of_lt}
use lbw.MemOp.{u32_mod, add32, align_up, offset}
use lbw.MemOp.Laws.{offset-eq-mod, align_lem, align_up_lem}
use lbw.Mmap.{sub32}
use lbw.Elf.{
  ProgramHeader, protection, LoadStep, map_anonymous, map_file, wipe, segment_addr, segment_mlen,
  segment_flen, segment_off, segment_steps,
}

sub32-exact : (a b : ℕ) → b ≤ a → a < u32_mod → sub32 a b ≡ a - b
sub32-exact a b h k = omega arith

module _ (load_offset : ℕ) (ph : ProgramHeader) where
  -- A segment of a well-formed executable at a page-aligned load address: it ends two pages or
  -- more before the end of the address space, and its place in the file agrees with its address within a page.
  pub record IsLoadable : Type 0 where
    pub page : load_offset % 4096 ≡ 0
    pub congruent : ph.p_offset % 4096 ≡ ph.p_vaddr % 4096
    pub room : load_offset + ph.p_vaddr + ph.p_memsz + 0x2000 ≤ u32_mod
    pub in_file : ph.p_offset < u32_mod
    pub sizes : ph.p_filesz ≤ ph.p_memsz

  module _ (good : IsLoadable) where
    in_page : offset 0x1000 ph.p_vaddr ≡ ph.p_vaddr % 4096
    in_page = offset-eq-mod 12 ph.p_vaddr

    start : add32 load_offset ph.p_vaddr ≡ load_offset + ph.p_vaddr
    start = mod-eq_of_lt (omega (arith, good.room))

    addr_lem :
        (segment_addr load_offset ph + ph.p_vaddr % 4096 ≡ load_offset + ph.p_vaddr)
        × (segment_addr load_offset ph % 4096 ≡ 0)
    unfolding segment_addr
    addr_lem =
        let a = align_lem 12 (load_offset + ph.p_vaddr) (omega arith) (omega (arith, good.room)) in
        rw start (omega (arith, a.0, good.page), a.1)

    flen_lem : segment_flen load_offset ph ≡ ph.p_filesz + ph.p_vaddr % 4096
    unfolding segment_flen
    flen_lem = rw in_page (mod-eq_of_lt (omega (arith, good.room, good.sizes)))

    mlen_lem : segment_mlen load_offset ph ≡ ph.p_memsz + ph.p_vaddr % 4096
    unfolding segment_mlen
    mlen_lem = rw in_page (mod-eq_of_lt (omega (arith, good.room)))

    off_lem : segment_off load_offset ph ≡ ph.p_offset - ph.p_vaddr % 4096
    unfolding segment_off
    off_lem =
        rw in_page
          (sub32-exact ph.p_offset (ph.p_vaddr % 4096) (omega (arith, good.congruent)) good.in_file)

    -- Where the zeros of Load go: up to the end of the page that the segment ends in.
    wipe_end :
        (sub32 (align_up 0x1000 (segment_mlen load_offset ph)) (segment_flen load_offset ph)
            + segment_flen load_offset ph
          ≡ align_up 0x1000 (segment_mlen load_offset ph))
        × (segment_mlen load_offset ph ≤ align_up 0x1000 (segment_mlen load_offset ph))
        × (align_up 0x1000 (segment_mlen load_offset ph) < segment_mlen load_offset ph + 4096)
        × (align_up 0x1000 (segment_mlen load_offset ph) % 4096 ≡ 0)
    wipe_end =
        let up =
          align_up_lem 12 (segment_mlen load_offset ph) (omega arith)
            (omega (arith, mlen_lem, good.room)) in
        (omega (arith, mlen_lem, flen_lem, good.room, good.sizes, up.0, up.1), up.0, up.1, up.2)

    wipe_start :
        add32 (segment_addr load_offset ph) (segment_flen load_offset ph)
        ≡ load_offset + ph.p_vaddr + ph.p_filesz
    wipe_start = omega (arith, addr_lem.0, flen_lem, good.room, good.sizes)

  -- What Load has to do for a segment that may be written: anonymous pages and pages of the file,
  -- and then zeros, so that each byte of the file comes to its address and the rest is zero.
  pub record Placed (steps : List LoadStep) : Type 0 where
    pub addr : ℕ
    pub mlen : ℕ
    pub flen : ℕ
    pub off : ℕ
    pub from : ℕ
    pub len : ℕ
    pub which :
        steps
        ≡ map_anonymous addr mlen (protection ph.p_flags) off
          ∷ map_file addr flen (protection ph.p_flags) off
          ∷ wipe from len
          ∷ []
    pub addr_page : addr % 4096 ≡ 0
    pub off_page : off % 4096 ≡ 0
    pub bytes :
        (j : ℕ)
        → j < ph.p_filesz
        → (off ≤ ph.p_offset + j)
          × (ph.p_offset + j < off + flen)
          × (addr + (ph.p_offset + j - off) ≡ load_offset + ph.p_vaddr + j)
    pub zeros_start : from ≡ load_offset + ph.p_vaddr + ph.p_filesz
    pub zeros_cover : load_offset + ph.p_vaddr + ph.p_memsz ≤ from + len
    pub zeros_page : from + len < load_offset + ph.p_vaddr + ph.p_memsz + 4096
    pub pages_end : (from + len) % 4096 ≡ 0

  -- At a page-aligned load address, a segment that may be written, whose file offset and address agree
  -- within a page, which has no more bytes in the file than in memory and ends at least two pages
  -- before the end of the address space, is mapped with page-aligned addresses and offsets, so that
  -- every byte of the file that belongs to it comes to its address; then zeros are written from right
  -- behind those bytes over all of the rest, up to the end of the segment's last page.
  pub segment_steps-Placed :
      IsLoadable → test (protection ph.p_flags) 2 ≡ true → Placed (segment_steps load_offset ph)
  unfolding segment_steps
  segment_steps-Placed good writes =
      let off_at = off_lem good in
      let addr_at = addr_lem good in
      let flen_at = flen_lem good in
      let mlen_at = mlen_lem good in
      let start_at = wipe_start good in
      let end_at = wipe_end good in
      record {
        addr = segment_addr load_offset ph;
        mlen = segment_mlen load_offset ph;
        flen = segment_flen load_offset ph;
        off = segment_off load_offset ph;
        from = add32 (segment_addr load_offset ph) (segment_flen load_offset ph);
        len = sub32 (align_up 0x1000 (segment_mlen load_offset ph)) (segment_flen load_offset ph);
        which = rw writes refl;
        addr_page = addr_at.1;
        off_page = omega (arith, off_at, good.congruent);
        bytes = λ j h. (
          omega (arith, off_at),
          omega (arith, off_at, flen_at, good.congruent),
          omega (arith, off_at, addr_at.0, good.congruent),
        );
        zeros_start = start_at;
        zeros_cover = omega (arith, start_at, end_at, mlen_at, flen_at, addr_at.0);
        zeros_page = omega (arith, start_at, end_at, mlen_at, flen_at, addr_at.0);
        pages_end = omega (arith, start_at, end_at, flen_at, addr_at);
      }
