-- ===== src/NodeCalls.antt =====
-- src/filesystem/: what the nodes do to the file system (the methods of InterixVFSNode, FakeVFSNode
-- and PtsVFSNode that open, make, remove and change files). A method gives back the call of Interix
-- with which it ends; that call's errno is thrown, except by Unlink, which ignores ETXTBUSY.
use lbw.Prelude.{ℕ, Bool, ◌||◌, ◌∷◌, ◌++◌, Option, none, some, if◌then◌else◌}
use lbw.Prelude.Results.{
  einval, enoent, eisdir, Result, ok, throw, fault, and_then, assert_failed, null_dereference,
}
use lbw.Prelude.Text.{Bytes, eqb, is_empty, slash}
use lbw.Nodes.{
  FileType, directory, FileSystem, FakeFile, tunnelled_file, Node, root, interix, dev, pts,
  check_error, dot, dotdot, setup, stat_found, find_file, files_of, get_file_type, get_real_path,
  get_name,
}
use lbw.Nodes.Ptys.{findpty}

-- The calls; the first argument is the directory that chdir() was called on. `none_needed` stands
-- for a method that returns without a call, `dummy` for the descriptor of a directory that Interix
-- does not have, and `zeroed` for a statvfs that is filled with zeros.
pub data HostCall : Type 0 where
  none_needed dummy zeroed : HostCall
  open_path : Bytes → HostCall
  open_at : Bytes → Bytes → ℕ → ℕ → HostCall
  open_device : Bytes → ℕ → ℕ → HostCall
  statvfs : Bytes → HostCall
  mkdir : Bytes → Bytes → ℕ → HostCall
  rmdir : Bytes → Bytes → HostCall
  mknod : Bytes → Bytes → ℕ → ℕ → HostCall
  access : Bytes → Bytes → ℕ → HostCall
  access_device : Bytes → ℕ → HostCall
  rename : Bytes → Bytes → Bytes → HostCall
  chmod : Bytes → Bytes → ℕ → HostCall
  chown : Bytes → Bytes → ℕ → ℕ → HostCall
  chown_device : Bytes → ℕ → ℕ → HostCall
  hard_link : Bytes → Bytes → Bytes → HostCall
  unlink : Bytes → Bytes → HostCall
  symlink : Bytes → Bytes → Bytes → HostCall
  utime : Bytes → Bytes → Option (ℕ × ℕ) → HostCall

-- `(name == ".") || (name == "..") || name.empty()`
abbrev pub is_special : Bytes → Bool
is_special name = eqb name dot || eqb name dotdot || is_empty name

-- The directory of an InterixVFSNode. The other classes do not override the method, so the one of
-- VFSNode throws EINVAL.
abbrev pub on_interix : {A : Type 0} → Option Bytes → (Bytes → Result A) → Result A
on_interix none f = throw einval
on_interix (some path) f = f path

abbrev pub refuse_directory : FileType → HostCall → Result HostCall
refuse_directory directory c = throw eisdir
refuse_directory _ c = ok c

module _ (os : FileSystem) where
  open os use {chdir}

  -- setup(), before a call.
  abbrev pub after_setup : Bytes → HostCall → Result HostCall
  after_setup path c = and_then (check_error (chdir path)) (λ _. ok c)

  abbrev pub after_setup_of : Bytes → Bytes → HostCall → Result HostCall
  after_setup_of path name c = and_then (setup os path name einval) (λ _. ok c)

  -- InterixVFSNode::OpenDirectory, FakeVFSNode::OpenDirectory
  unfoldable pub open_directory : Node → Result HostCall
  unfolding get_real_path
  open_directory node = elim (get_real_path node) [
    | some path ↦ ok (open_path path)
    | none ↦ ok dummy
  ]

  -- OpenFile of the classes of files.
  unfoldable pub open_fake_file : Option FakeFile → ℕ → ℕ → Result HostCall
  open_fake_file none flags mode = throw enoent
  open_fake_file (some (tunnelled_file dest)) flags mode = ok (open_device dest flags mode)
  open_fake_file (some _) flags mode = throw einval

  unfoldable pub open_fake : Node → Bytes → ℕ → ℕ → Result HostCall
  unfolding find_file files_of open_fake_file
  open_fake node name flags mode =
      if is_special name
      then throw eisdir
      else open_fake_file (find_file name (files_of node)) flags mode

  unfoldable pub open_interix : Node → Bytes → Bytes → ℕ → ℕ → Result HostCall
  unfolding setup
  open_interix node path name flags mode = and_then (setup os path name eisdir) (λ _.
      and_then (get_file_type os node name)
        (λ type. refuse_directory type (open_at path name flags mode)))

  -- OpenFile of each class.
  unfoldable pub open_file : Node → Bytes → ℕ → ℕ → Result HostCall
  unfolding open_interix open_fake
  open_file (root path f) name flags mode = open_interix (root path f) path name flags mode
  open_file (interix p n path) name flags mode =
      open_interix (interix p n path) path name flags mode
  open_file (dev p f) name flags mode = open_fake (dev p f) name flags mode
  open_file (pts p) name flags mode =
      if is_empty (findpty name)
      then open_fake (pts p) name flags mode
      else ok (open_device (findpty name) flags mode)

  -- Access of each class. FakeVFSNode::Access looks the file up and examines it, but ends with
  -- `throw ENOENT` for every file.
  abbrev pub access_fake_file : Option FakeFile → Result HostCall
  access_fake_file o = and_then (stat_found os o) (λ st. throw enoent)

  unfoldable pub access_node : Node → Bytes → ℕ → Result HostCall
  unfolding find_file files_of stat_found get_name
  access_node (root path f) name mode =
      after_setup path (access path (if is_empty name then dot else name) mode)
  access_node (interix p n path) name mode =
      after_setup path (access path (if is_empty name then dot else name) mode)
  access_node (dev p f) name mode =
      let up = access_node p dot mode in
      let here = access_node p (get_name (dev p f)) mode in
      if eqb name dotdot
      then up
      else if eqb name dot
      then here
      else access_fake_file (find_file name (files_of (dev p f)))
  access_node (pts p) name mode =
      let up = access_node p dot mode in
      let here = access_node p (get_name (pts p)) mode in
      if is_empty (findpty name)
      then (if eqb name dotdot
          then up
          else if eqb name dot
          then here
          else access_fake_file (find_file name (files_of (pts p))))
      else ok (access_device (findpty name) mode)

  -- StatFS
  unfoldable pub stat_fs : Node → Result HostCall
  unfolding get_real_path
  stat_fs node = elim (get_real_path node) [ some path ↦ ok (statvfs path) | none ↦ ok zeroed ]

  module _ (node : Node) where
    unfoldable pub make_directory : Bytes → ℕ → Result HostCall
    unfolding get_real_path setup
    make_directory name mode = on_interix (get_real_path node) λ path.
        if eqb name dot then ok none_needed else after_setup_of path name (mkdir path name mode)

    unfoldable pub remove_directory : Bytes → Result HostCall
    unfolding get_real_path setup
    remove_directory name =
        on_interix (get_real_path node) (λ path. after_setup_of path name (rmdir path name))

    unfoldable pub make_node : Bytes → ℕ → ℕ → Result HostCall
    unfolding get_real_path setup
    make_node name mode device =
        on_interix (get_real_path node)
          (λ path. after_setup_of path name (mknod path name mode device))

    unfoldable pub change_mode : Bytes → ℕ → Result HostCall
    unfolding get_real_path
    change_mode name mode =
        on_interix (get_real_path node) (λ path. after_setup path (chmod path name mode))

    unfoldable pub remove_file : Bytes → Result HostCall
    unfolding get_real_path setup
    remove_file name =
        on_interix (get_real_path node) (λ path. after_setup_of path name (unlink path name))

    unfoldable pub make_symlink : Bytes → Bytes → Result HostCall
    unfolding get_real_path setup
    make_symlink name target =
        on_interix (get_real_path node)
          (λ path. after_setup_of path name (symlink path target name))

    unfoldable pub set_times : Bytes → Option (ℕ × ℕ) → Result HostCall
    unfolding get_real_path
    set_times name times =
        on_interix (get_real_path node) (λ path. after_setup path (utime path name times))

    -- InterixVFSNode::Rename asserts that the other node is one of Interix, too.
    abbrev renamed : Bytes → Bytes → Option Bytes → Bytes → Result HostCall
    renamed path from none to = fault assert_failed
    renamed path from (some other) to =
        if is_special from || is_special to
        then throw einval
        else after_setup path (rename path from (other ++ slash ∷ to))

    unfoldable pub rename_file : Bytes → Node → Bytes → Result HostCall
    unfolding get_real_path
    rename_file from other to =
        on_interix (get_real_path node) (λ path. renamed path from (get_real_path other) to)

    -- InterixVFSNode::Link asserts only that there is a target node.
    abbrev linked : Bytes → Bytes → Option Bytes → Bytes → Result HostCall
    linked path name o target =
        if is_special target || is_special name then throw einval else elim o [
          | none ↦ fault null_dereference
          | some other ↦ after_setup path (hard_link path (other ++ slash ∷ target) name)
        ]

    unfoldable pub link_file : Bytes → Node → Bytes → Result HostCall
    unfolding get_real_path
    link_file name target_node target =
        on_interix (get_real_path node)
          (λ path. linked path name (get_real_path target_node) target)

  -- Chown of InterixVFSNode and PtsVFSNode, under Options.FakeRoot.
  abbrev chown_at : Bool → Bytes → Bytes → ℕ → ℕ → Result HostCall
  chown_at fake_root path name owner group =
      after_setup path (if fake_root then none_needed else chown path name owner group)

  unfoldable pub change_owner : Bool → Node → Bytes → ℕ → ℕ → Result HostCall
  change_owner fake_root (root path f) name owner group = chown_at fake_root path name owner group
  change_owner fake_root (interix p n path) name owner group =
      chown_at fake_root path name owner group
  change_owner fake_root (dev p f) name owner group = throw einval
  change_owner fake_root (pts p) name owner group =
      if is_empty (findpty name)
      then throw einval
      else ok (if fake_root then none_needed else chown_device (findpty name) owner group)
