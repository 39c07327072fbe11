-- ===== src/Elf.antt =====
-- src/exec/ElfLoader.cc: reading the header of a Linux executable and mapping its segments. The
-- mappings are those of src/syscalls/mmap.cc.
pub mod Headers
pub mod Segments
use lbw.Prelude.{
  ℕ, zero, suc, ◌+◌, ◌-◌, ◌*◌, ◌%◌, Bool, true, false, not, ◌||◌, ◌&&◌, List, [], ◌∷◌, ◌++◌, Option,
  none, some, ltb, ◌==◌, if◌then◌else◌, get_elem?, length, bit_or,
}
use lbw.Prelude.Results.{
  enoexec, Result, ok, throw, fault, Exec, pure, continue, assert, ◌>>=◌, ◌>>◌, and_then,
  out_of_bounds, out_of_fuel,
}
use lbw.Prelude.Flags.{test}
use lbw.Prelude.Text.{Bytes, codes, starts_with, eqb}
use lbw.MemOp.{u32_mod, add32, align, align_up, offset}
use lbw.Interix.{Interix}
use lbw.BlockStore.{Act}
use lbw.Mmap.{sub32, zeros, do_mmap, do_munmap}
use lbw.Nodes.{c_string}

-- The members of struct elfhdr and struct elf_phdr that are read.
pub record ElfHeader : Type 0 where
  pub e_ident : Bytes
  pub e_type : ℕ
  pub e_machine : ℕ
  pub e_entry : ℕ
  pub e_phentsize : ℕ
  pub e_phnum : ℕ

pub record ProgramHeader : Type 0 where
  pub p_type : ℕ
  pub p_offset : ℕ
  pub p_vaddr : ℕ
  pub p_filesz : ℕ
  pub p_memsz : ℕ
  pub p_flags : ℕ

abbrev pub pt_load : ℕ
pt_load = 1

abbrev pub pt_interp : ℕ
pt_interp = 3

abbrev pub et_exec : ℕ
et_exec = 2

abbrev pub et_dyn : ℕ
et_dyn = 3

-- sizeof(struct elfhdr) and sizeof(struct elf_phdr)
abbrev pub elfhdr_size : ℕ
elfhdr_size = 52

abbrev pub phdr_size : ℕ
phdr_size = 32

-- The tests of ElfLoader::Open on the header, of which pread read `got` bytes, and on the program
-- headers, of which it then read `got_headers`.
unfoldable pub check_header : ElfHeader → ℕ → ℕ → Result (Unit {0})
check_header h got got_headers =
    if not (got == elfhdr_size)
    then throw enoexec
    else if not (starts_with (0x7f ∷ codes "ELF") h.e_ident)
    then throw enoexec
    else if not (h.e_type == et_exec) && not (h.e_type == et_dyn)
    then throw enoexec
    else if not (h.e_machine == 3 || h.e_machine == 6)
    then throw enoexec
    else if not (h.e_phentsize == phdr_size) || ltb h.e_phnum 1 || ltb 2048 h.e_phnum
    then throw enoexec
    else if not (got_headers == h.e_phnum * phdr_size)
    then throw enoexec
    else ok tt

-- The bytes of the file, as pread gives them: none for -1.
abbrev pub ReadAt : Type 0
ReadAt = ℕ → ℕ → Option Bytes

-- `buffer[ph.p_filesz] = 0; _interpreter = buffer;`, if everything was read.
abbrev pub interpreter_of : ℕ → Option Bytes → Result Bytes
interpreter_of filesz none = throw enoexec
interpreter_of filesz (some bytes) =
    if length bytes == filesz then c_string (bytes ++ 0 ∷ []) else throw enoexec

-- The loop of Open that looks for an interpreter. Its counter i is also what the result of pread is
-- stored in, so the loop goes on behind the header whose number is the length of the name.
unfoldable pub find_interpreter : ReadAt → List ProgramHeader → ℕ → ℕ → Bytes → Result Bytes
unfolding c_string
find_interpreter pread phs zero i found = fault out_of_fuel
find_interpreter pread phs (suc fuel) i found = elim (get_elem? phs i) [
  | none ↦ ok found
  | some ph ↦ elim (ph.p_type == pt_interp) [
    | true ↦
        and_then (interpreter_of ph.p_filesz (pread ph.p_filesz ph.p_offset))
          λ name. find_interpreter pread phs fuel (suc ph.p_filesz) name
    | false ↦ find_interpreter pread phs fuel (suc i) found
  ]
]

-- The range of addresses in Load.
unfoldable pub min_address : List ProgramHeader → ℕ → ℕ
min_address [] m = m
min_address (ph ∷ phs) m =
    min_address phs (if ph.p_type == pt_load && ltb ph.p_vaddr m then ph.p_vaddr else m)

unfoldable pub max_address : List ProgramHeader → ℕ → ℕ
max_address [] m = m
max_address (ph ∷ phs) m = max_address phs (
    if ph.p_type == pt_load && ltb m (add32 ph.p_vaddr ph.p_memsz)
    then add32 ph.p_vaddr ph.p_memsz
    else m)

-- LINUX_PROT_READ, WRITE and EXEC are 1, 2 and 4; PF_R, PF_W and PF_X are 4, 2 and 1.
unfoldable pub protection : ℕ → ℕ
protection flags =
    bit_or (bit_or (if test flags 4 then 1 else 0) (if test flags 2 then 2 else 0))
      (if test flags 1 then 4 else 0)

-- What Load does for a segment, in order: anonymous memory, the file, and zeros.
pub data LoadStep : Type 0 where
  map_anonymous map_file : ℕ → ℕ → ℕ → ℕ → LoadStep
  wipe : ℕ → ℕ → LoadStep

module _ (load_offset : ℕ) (ph : ProgramHeader) where
  unfoldable pub segment_addr : ℕ
  segment_addr = align 0x1000 (add32 load_offset ph.p_vaddr)

  unfoldable pub segment_mlen : ℕ
  segment_mlen = add32 ph.p_memsz (offset 0x1000 ph.p_vaddr)

  unfoldable pub segment_flen : ℕ
  segment_flen = add32 ph.p_filesz (offset 0x1000 ph.p_vaddr)

  unfoldable pub segment_off : ℕ
  segment_off = sub32 ph.p_offset (offset 0x1000 ph.p_vaddr)

  abbrev map_the_file : ℕ → LoadStep
  map_the_file prot = map_file segment_addr segment_flen prot segment_off

  unfoldable pub segment_steps : List LoadStep
  unfolding segment_addr segment_mlen segment_flen segment_off protection
  segment_steps =
      if test (protection ph.p_flags) 2
      then map_anonymous segment_addr segment_mlen (protection ph.p_flags) segment_off
        ∷ map_the_file (protection ph.p_flags)
        ∷ wipe (add32 segment_addr segment_flen) (sub32 (align_up 0x1000 segment_mlen) segment_flen)
        ∷ []
      else map_the_file (protection ph.p_flags) ∷ []

unfoldable pub load_steps : ℕ → List ProgramHeader → List LoadStep
unfolding segment_steps
load_steps load_offset [] = []
load_steps load_offset (ph ∷ phs) =
    (if ph.p_type == pt_load then segment_steps load_offset ph else [])
    ++ load_steps load_offset phs

module _ (os : Interix) (force_load : Bool) (fd : ℕ) where
  -- LINUX_MAP_PRIVATE | LINUX_MAP_FIXED, with LINUX_MAP_ANONYMOUS for the first.
  unfoldable pub run_step : LoadStep → Act os Unit
  run_step (map_anonymous addr len prot off) s =
      continue (do_mmap os force_load addr len prot 0x32 fd off s) (λ _ s'. (ok tt, s'))
  run_step (map_file addr len prot off) s =
      continue (do_mmap os force_load addr len prot 0x12 fd off s) (λ _ s'. (ok tt, s'))
  run_step (wipe addr len) s = (ok tt, record s { memory = os.write addr (zeros len) s.memory })

  unfoldable pub run_steps : List LoadStep → Act os Unit
  unfolding run_step
  run_steps [] s = (ok tt, s)
  run_steps (x ∷ xs) s = continue (run_step x s) (λ _. run_steps xs)

  -- For a dynamic executable an address range is found by mapping it and giving it back.
  unfoldable pub choose_offset : ℕ → List ProgramHeader → Act os ℕ
  unfolding min_address max_address
  choose_offset type phs =
      if type == et_dyn
      then (do
        assert (min_address phs 0xffff_ffff == 0)
        at ← do_mmap os force_load 0 (max_address phs 0) 7 0x22 fd 0
        do_munmap os at (max_address phs 0)
        pure at)
      else pure 0

  -- ElfLoader::Load: the entry point and the load address.
  unfoldable pub load : ElfHeader → List ProgramHeader → Act os (ℕ × ℕ)
  unfolding choose_offset run_steps load_steps
  load h phs = do
    load_offset ← choose_offset h.e_type phs
    run_steps (load_steps load_offset phs)
    pure (add32 h.e_entry load_offset, add32 load_offset (min_address phs 0xffff_ffff))
