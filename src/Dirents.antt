-- ===== src/Dirents.antt =====
-- src/filesystem/FD.cc, GetDents and GetDents64: packing directory entries into the buffer of the
-- calling program (the records of src/filesystem/file.h).
pub mod Packing
use lbw.Prelude.{
  ℕ, ◌+◌, ◌-◌, ◌%◌, Bool, List, [], ◌∷◌, Option, none, some, length, drop, ltb, if◌then◌else◌,
  bit_and,
}
use lbw.Prelude.Results.{enotdir, Result, ok, throw}
use lbw.MemOp.{add32, not32}

-- The fields of struct stat that are read here. A file name is its bytes.
pub record Stat : Type 0 where
  pub st_ino : ℕ
  pub st_mode : ℕ

-- struct compat_linux_dirent and struct linux_dirent64, the latter with its type.
pub record Dirent : Type 0 where
  pub d_ino : ℕ
  pub d_off : ℕ
  pub d_reclen : ℕ
  pub d_type : Option ℕ
  pub d_name : List ℕ

-- What the two functions differ in: sizeof of the record, the alignment less one, and the type.
pub record Format : Type 0 where
  pub size : ℕ
  pub align_mask : ℕ
  pub type_of : Stat → Option ℕ

-- The state of a directory stream, DirData.
pub record DirData : Type 0 where
  pub pos : ℕ
  pub contents : List (List ℕ)

-- What a call leaves in the buffer: the records, how many bytes they take, and the position.
pub record Written : Type 0 where
  pub records : List Dirent
  pub bytes : ℕ
  pub at : ℕ

module _ (f : Format) where
  -- `reclen = (sizeof(struct ...) + filename.size() + 1 + mask) & ~mask`
  unfoldable pub record_length : List ℕ → ℕ
  record_length name = bit_and (add32 (f.size + length name + 1) f.align_mask) (not32 f.align_mask)

  -- The record for the entry at a position; d_reclen has 16 bits.
  abbrev pub dirent : List ℕ → Stat → ℕ → Dirent
  dirent name st pos = record {
    d_ino = st.st_ino;
    d_off = pos + 1;
    d_reclen = record_length name % 0x1_0000;
    d_type = f.type_of st;
    d_name = name;
  }

abbrev pub add_record : Dirent → ℕ → Written → Written
add_record d reclen w = record w { records = d ∷ w.records; bytes = reclen + w.bytes }

-- `stat` is StatFile of the directory's node, none where it throws.
module _ (f : Format) (stat : List ℕ → Option Stat) where
  -- The loop, from a position on, over the entries that are left there, with the bytes of the
  -- buffer that are left. An entry that cannot be examined is passed over.
  unfoldable pub pack : ℕ → ℕ → List (List ℕ) → Written
  pack room pos [] = record { records = []; bytes = 0; at = pos }
  pack room pos (name ∷ rest) = elim (stat name) [
    | none ↦ pack room (pos + 1) rest
    | some st ↦
        let more = pack (room - record_length f name) (pos + 1) rest in
        if ltb room (record_length f name)
        then record { records = []; bytes = 0; at = pos }
        else add_record (dirent f name st pos) (record_length f name) more
  ]

  -- GetDents, with the directory stream that it leaves. A file without a node is no directory.
  unfoldable pub get_dents : Option DirData → ℕ → Result (Written × DirData)
  unfolding pack
  get_dents none count = throw enotdir
  get_dents (some d) count =
      let w = pack count d.pos (drop d.pos d.contents) in ok (w, record d { pos = w.at })

-- sizeof(struct compat_linux_dirent) is 11 and sizeof(struct linux_dirent64) 19: both are packed.
abbrev pub compat_format : Format
compat_format = record { size = 11; align_mask = 3; type_of = λ st. none }

-- get_file_type, over the tests of <sys/stat.h>, which are a parameter.
pub record ModeTests : Type 0 where
  pub is_dir : ℕ → Bool
  pub is_chr : ℕ → Bool
  pub is_blk : ℕ → Bool
  pub is_reg : ℕ → Bool
  pub is_fifo : ℕ → Bool
  pub is_sock : ℕ → Bool
  pub is_lnk : ℕ → Bool

unfoldable pub get_file_type : ModeTests → Stat → ℕ
get_file_type t st =
    if t.is_dir st.st_mode
    then 4
    else if t.is_chr st.st_mode
    then 2
    else if t.is_blk st.st_mode
    then 6
    else if t.is_reg st.st_mode
    then 8
    else if t.is_fifo st.st_mode
    then 1
    else if t.is_sock st.st_mode
    then 12
    else if t.is_lnk st.st_mode
    then 10
    else 0

abbrev pub format64 : ModeTests → Format
format64 t = record { size = 19; align_mask = 7; type_of = λ st. some (get_file_type t st) }
