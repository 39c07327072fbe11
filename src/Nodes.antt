-- ===== src/Nodes.antt =====
-- src/filesystem/: the nodes of the virtual file system (VFSNode, InterixVFSNode, RootVFSNode,
-- FakeVFSNode, DevVFSNode, PtsVFSNode) and their files (FakeFile), as far as looking them up goes.
-- Interix's file system is a parameter, at rest while a path is resolved.
pub mod Ptys
pub mod Jail
pub mod PtyPaths
use lbw.Prelude.{
  ℕ, Bool, true, false, List, [], ◌∷◌, ◌++◌, ◌⊎◌, inl, inr, ◌||◌, ◌&&◌, if◌then◌else◌, ◌==◌, Option,
  none, some,
}
use lbw.Prelude.Results.{
  Errno, einval, enoent, Result, ok, throw, fault, and_then, aborted, assert_failed, out_of_bounds,
}
use lbw.Prelude.Text.{Bytes, codes, eqb, is_empty, is_absolute, slash, starts_with}
use lbw.Dirents.{Stat, ModeTests}
use lbw.Nodes.Ptys.{findpty}

-- VFSNode's enum of file types.
pub data FileType : Type 0 where
  missing file directory link block char fifo socket : FileType

-- What a call of Interix gives back: errno, or its result.
abbrev pub Call : Type 0 → Type 0
Call A = Errno ⊎ A

-- CheckError: `if (i == -1) throw errno;`
abbrev pub check_error : {A : Type 0} → Call A → Result A
check_error (inl e) = throw e
check_error (inr a) = ok a

-- The calls of Interix on the file system. `lstat d n` and `readlink d n` are the calls on the name
-- n while d is the current directory. `stale` is what a buffer on the stack holds behind the bytes
-- that readlink writes.
pub record FileSystem : Type 0 where
  pub chdir : Bytes → Call (Unit {0})
  pub lstat : Bytes → Bytes → Call Stat
  pub stat : Bytes → Call Stat
  pub readlink : Bytes → Bytes → Call Bytes
  pub stale : Bytes
  pub modes : ModeTests
  -- S_IFDIR | S_IRWXU | S_IRWXG | S_IRWXO
  pub ifdir_rwx : ℕ

-- RootVFSNode(path), with the names that were in /dev when its DevVFSNode was made; DevVFSNode and
-- PtsVFSNode with their parents; and InterixVFSNode(parent, name, path).
pub data Node : Type 0 where
  root : Bytes → List Bytes → Node
  interix : Node → Bytes → Bytes → Node
  dev : Node → List Bytes → Node
  pts : Node → Node

-- The classes derived from FakeFile.
pub data FakeFile : Type 0 where
  fake_directory : Node → FakeFile
  tunnelled_file : Bytes → FakeFile
  tunnelled_directory : Bytes → FakeFile

-- VFSNode::GetParent and RootVFSNode::GetParent
unfoldable pub get_parent : Node → Node
get_parent (root p f) = root p f
get_parent (interix p n path) = p
get_parent (dev p f) = p
get_parent (pts p) = p

-- GetName
unfoldable pub get_name : Node → Bytes
get_name (root p f) = []
get_name (interix p n path) = n
get_name (dev p f) = codes "dev"
get_name (pts p) = codes "pts"

-- VFSNode::GetPath
unfoldable pub get_path : Node → Bytes
get_path (root p f) = []
get_path (interix p n path) = get_path p ++ slash ∷ n
get_path (dev p f) = get_path p ++ slash ∷ codes "dev"
get_path (pts p) = get_path p ++ slash ∷ codes "pts"

-- `dynamic_cast<InterixVFSNode*>(node)` with GetRealPath
unfoldable pub get_real_path : Node → Option Bytes
get_real_path (root p f) = some p
get_real_path (interix p n path) = some path
get_real_path (dev p f) = none
get_real_path (pts p) = none

-- A map of file names to files; AddFile replaces a file of the same name.
abbrev pub Files : Type 0
Files = List (Bytes × FakeFile)

unfoldable pub find_file : Bytes → Files → Option FakeFile
find_file name [] = none
find_file name ((n, f) ∷ fs) = if eqb n name then some f else find_file name fs

abbrev pub tunnel : Bytes → Bytes × FakeFile
tunnel name = (name, tunnelled_file (codes "/dev/" ++ name))

-- The loop over /dev in DevVFSNode's constructor; what is added later is found first.
unfoldable pub found_files : List Bytes → Files → Files
found_files [] fs = fs
found_files (n ∷ ns) fs =
    found_files ns
      (if starts_with (codes "pty") n || starts_with (codes "tty") n then tunnel n ∷ fs else fs)

abbrev pub device_files : Files
device_files =
    (codes "fs", tunnelled_directory (codes "/dev/fs"))
    ∷ tunnel (codes "console")
    ∷ tunnel (codes "ptmx")
    ∷ tunnel (codes "full")
    ∷ tunnel (codes "urandom")
    ∷ tunnel (codes "random")
    ∷ tunnel (codes "tty")
    ∷ tunnel (codes "zero")
    ∷ tunnel (codes "null")
    ∷ []

-- The files of a FakeVFSNode, as the constructors of DevVFSNode and PtsVFSNode fill them.
unfoldable pub files_of : Node → Files
unfolding found_files
files_of (dev p found) =
    (codes "pts", fake_directory (pts (dev p found))) ∷ found_files found device_files
files_of (pts p) = (codes "ptmx", tunnelled_directory (codes "/dev/ptmx")) ∷ []
files_of _ = []

abbrev pub dot : Bytes
dot = codes "."

abbrev pub dotdot : Bytes
dotdot = codes ".."

-- `if (st.st_ino == 0) st.st_ino = 1;`
abbrev pub number_inode : Stat → Stat
number_inode st = if st.st_ino == 0 then record st { st_ino = 1 } else st

abbrev pub catch_enoent : Errno → Result FileType
catch_enoent enoent = ok missing
catch_enoent e = throw e

-- `return buffer;`: the bytes up to the first that is 0.
unfoldable pub c_string : Bytes → Result Bytes
c_string [] = fault out_of_bounds
c_string (c ∷ cs) =
    let rest = c_string cs in if c == 0 then ok [] else and_then rest (λ s. ok (c ∷ s))

module _ (os : FileSystem) where
  open os use {chdir, lstat, stat, readlink, modes}

  -- Stat of each class of files.
  unfoldable pub stat_fake_file : FakeFile → Result Stat
  stat_fake_file (fake_directory n) = ok (record { st_ino = 1; st_mode = os.ifdir_rwx })
  stat_fake_file (tunnelled_file dest) = check_error (stat dest)
  stat_fake_file (tunnelled_directory dest) = check_error (stat dest)

  unfoldable pub stat_found : Option FakeFile → Result Stat
  unfolding stat_fake_file
  stat_found none = throw enoent
  stat_found (some f) = and_then (stat_fake_file f) (λ st. ok (number_inode st))

  -- setup(): `chdir(_path)`, and then a call on a name.
  abbrev pub in_directory : {A : Type 0} → Bytes → Call A → Result A
  in_directory path c = and_then (check_error (chdir path)) (λ _. check_error c)

  -- StatFile of each class.
  unfoldable pub stat_file : Node → Bytes → Result Stat
  unfolding find_file files_of stat_found get_name
  stat_file (root path f) name =
      if eqb name dotdot
      then in_directory path (lstat path dot)
      else in_directory path (lstat path name)
  stat_file (interix parent n path) name =
      let up = stat_file parent dot in
      if eqb name dotdot then up else in_directory path (lstat path name)
  stat_file (dev parent f) name =
      let up = stat_file parent dot in
      let here = stat_file parent (get_name (dev parent f)) in
      if eqb name dotdot
      then up
      else if eqb name dot
      then here
      else stat_found (find_file name (files_of (dev parent f)))
  stat_file (pts parent) name =
      let up = stat_file parent dot in
      let here = stat_file parent (get_name (pts parent)) in
      if is_empty (findpty name)
      then (if eqb name dotdot
          then up
          else if eqb name dot
          then here
          else stat_found (find_file name (files_of (pts parent))))
      else check_error (stat (findpty name))

  -- VFSNode::GetFileType: the tests of st_mode, and ENOENT as a type of its own.
  unfoldable pub type_of_mode : ℕ → Result FileType
  type_of_mode m =
      if modes.is_reg m
      then ok file
      else if modes.is_dir m
      then ok directory
      else if modes.is_lnk m
      then ok link
      else if modes.is_chr m
      then ok char
      else if modes.is_blk m
      then ok block
      else if modes.is_sock m
      then ok socket
      else if modes.is_fifo m
      then ok fifo
      else fault aborted

  abbrev pub type_of_stat : Result Stat → Result FileType
  type_of_stat (ok st) = type_of_mode st.st_mode
  type_of_stat (throw e) = catch_enoent e
  type_of_stat (fault x) = fault x

  unfoldable pub get_file_type : Node → Bytes → Result FileType
  unfolding stat_file type_of_mode
  get_file_type node name =
      if eqb name dot || eqb name dotdot then ok directory else type_of_stat (stat_file node name)

  -- The constructor of InterixVFSNode over an absolute path.
  unfoldable pub new_interix : Node → Bytes → Bytes → Result Node
  new_interix parent name path =
      and_then (check_error (chdir path)) (λ _. ok (interix parent name path))

  -- init, where the path is relative to the parent's.
  unfoldable pub new_child : Node → Bytes → Bytes → Result Node
  unfolding new_interix
  new_child parent path name =
      new_interix parent name (if is_absolute name then name else path ++ slash ∷ name)

  -- OpenDirectory of each class of files.
  unfoldable pub open_fake_directory : FakeFile → Node → Bytes → Result Node
  unfolding new_interix
  open_fake_directory (fake_directory n) parent name = ok n
  open_fake_directory (tunnelled_file dest) parent name = throw einval
  open_fake_directory (tunnelled_directory dest) parent name =
      if is_absolute dest then new_interix parent name dest else fault assert_failed

  abbrev pub open_found : Option FakeFile → Node → Bytes → Result Node
  open_found none parent name = throw enoent
  open_found (some f) parent name = open_fake_directory f parent name

  -- InterixVFSNode::Traverse and FakeVFSNode::Traverse
  abbrev pub traverse_interix : Node → Bytes → Bytes → Result Node
  traverse_interix node path name =
      if eqb name dot || is_empty name
      then ok node
      else if eqb name dotdot
      then ok (get_parent node)
      else new_child node path name

  abbrev pub traverse_fake : Node → Bytes → Result Node
  traverse_fake node name =
      if eqb name dot || is_empty name
      then ok node
      else if eqb name dotdot
      then ok (get_parent node)
      else open_found (find_file name (files_of node)) node name

  -- Traverse of each class.
  unfoldable pub traverse : Node → Bytes → Result Node
  unfolding get_parent new_child find_file files_of open_fake_directory
  traverse (root path f) name =
      if eqb name (codes "dev")
      then ok (dev (root path f) f)
      else traverse_interix (root path f) path name
  traverse (interix p n path) name = traverse_interix (interix p n path) path name
  traverse (dev p f) name = traverse_fake (dev p f) name
  traverse (pts p) name = traverse_fake (pts p) name

  -- setup(name, e)
  unfoldable pub setup : Bytes → Bytes → Errno → Result (Unit {0})
  setup path name e =
      if is_empty name
      then throw enoent
      else if eqb name dot || eqb name dotdot
      then throw e
      else check_error (chdir path)

  -- InterixVFSNode::ReadLink; readlink does not end what it writes.
  abbrev pub read_link_at : Bytes → Bytes → Result Bytes
  read_link_at path name =
      and_then (setup path name einval)
        (λ _. and_then (check_error (readlink path name)) (λ t. c_string (t ++ os.stale)))

  unfoldable pub read_link : Node → Bytes → Result Bytes
  unfolding setup c_string
  read_link (root path f) name = read_link_at path name
  read_link (interix p n path) name = read_link_at path name
  read_link (dev p f) name = throw einval
  read_link (pts p) name = throw einval
