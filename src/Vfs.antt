-- ===== src/Vfs.antt =====
-- src/filesystem/VFS.cc: the operations on paths. Each resolves its path and hands the name to a
-- method of the node; and what src/syscalls/fd.cc and src/syscalls/file.cc make of them.
pub mod Containment
pub mod WorkingDirectory
pub mod Operations
use lbw.Prelude.{
  ℕ, Bool, true, false, not, ◌||◌, List, [], ◌∷◌, ◌++◌, Option, none, some, if◌then◌else◌,
}
use lbw.Prelude.Results.{
  Errno, eisdir, eopnotsupp, Result, ok, throw, fault, and_then, assert_failed,
}
use lbw.Prelude.Flags.{test}
use lbw.Prelude.Text.{Bytes, codes, eqb, is_empty, is_absolute, slash}
use lbw.Dirents.{Stat}
use lbw.Nodes.{
  FileType, directory, FileSystem, Node, root, check_error, dot, dotdot, get_file_type, get_name,
  get_path, get_real_path, read_link, stat_file, traverse,
}
use lbw.NodeCalls.{
  HostCall, open_directory, open_file, access_node, stat_fs, make_directory, remove_directory,
  make_node, change_mode, remove_file, make_symlink, set_times, rename_file, link_file,
  change_owner,
}
use lbw.PathWalk.{Tree, Place, resolve}

-- `root` and `cwd`; the number of rounds that the loops of Resolve may take.
pub record Vfs : Type 0 where
  pub root_node : Node
  pub cwd : Node
  pub rounds : ℕ

-- VFS::GetCWD
unfoldable pub get_cwd : Vfs → Bytes
get_cwd v = if is_empty (get_path v.cwd) then slash ∷ [] else get_path v.cwd

module _ (os : FileSystem) where
  abbrev pub tree : Vfs → Tree
  tree v = record {
    Node = Node;
    root = v.root_node;
    cwd = v.cwd;
    get_file_type = get_file_type os;
    read_link = read_link os;
    traverse = traverse os;
  }

  -- new RootVFSNode(path), where /dev has the names `found`.
  unfoldable pub new_root : Bytes → List Bytes → Result Node
  new_root path found =
      if is_absolute path
      then and_then (check_error (os.chdir path)) (λ _. ok (root path found))
      else fault assert_failed

  -- VFS::SetRoot, with the node that is made.
  unfoldable pub set_root : Bytes → List Bytes → Vfs → Result Vfs
  unfolding new_root
  set_root path found v = and_then (new_root path found) (λ r. ok (record v { root_node = r }))

  module _ (v : Vfs) (dir : Option Node) where
    abbrev pub resolve_in : Bytes → Bool → Result (Place (tree v))
    resolve_in path followlink = resolve (tree v) v.rounds dir path followlink

    -- The common shape: resolve, and a method of the node on the leaf.
    abbrev pub at : {A : Type 0} → Bytes → Bool → (Node → Bytes → Result A) → Result A
    at path followlink f = and_then (resolve_in path followlink) (λ p. f p.node p.leaf)

    -- Resolve and Traverse, as in SetCWD.
    unfoldable pub enter_path : Bytes → Bool → Result Node
    unfolding resolve
    enter_path path followlink = at path followlink (traverse os)

    -- VFS::SetCWD
    unfoldable pub set_cwd : Bytes → Result Vfs
    unfolding enter_path
    set_cwd path = and_then (enter_path path true) (λ n. ok (record v { cwd = n }))

    unfoldable pub vfs_open_directory : Bytes → Bool → Result HostCall
    unfolding enter_path
    vfs_open_directory path nofollow = and_then (enter_path path (not nofollow)) (open_directory os)

    unfoldable pub vfs_open_file : Bytes → ℕ → ℕ → Bool → Result HostCall
    unfolding resolve
    vfs_open_file path flags mode nofollow =
        at path (not nofollow) (λ n leaf. open_file os n leaf flags mode)

    unfoldable pub vfs_stat : Bytes → Result Stat
    unfolding resolve
    vfs_stat path = at path true (stat_file os)

    unfoldable pub vfs_lstat : Bytes → Result Stat
    unfolding resolve
    vfs_lstat path = at path false (stat_file os)

    abbrev fs_of : Node → Bytes → FileType → Result HostCall
    fs_of n leaf directory = and_then (traverse os n leaf) (stat_fs os)
    fs_of n leaf _ = stat_fs os n

    unfoldable pub vfs_stat_fs : Bytes → Result HostCall
    unfolding resolve
    vfs_stat_fs path = at path true (λ n leaf. and_then (get_file_type os n leaf) (fs_of n leaf))

    unfoldable pub vfs_mkdir : Bytes → ℕ → Result HostCall
    unfolding resolve
    vfs_mkdir path mode = at path false (λ n leaf. make_directory os n leaf mode)

    -- VFS::RmDir: a directory that is named by its own "." is removed from its parent.
    unfoldable pub vfs_rmdir : Bytes → Result HostCall
    unfolding resolve
    vfs_rmdir path = at path false λ n leaf.
        if eqb leaf dot || is_empty leaf
        then and_then (traverse os n dotdot) (λ up. remove_directory os up (get_name n))
        else remove_directory os n leaf

    unfoldable pub vfs_mknod : Bytes → ℕ → ℕ → Result HostCall
    unfolding resolve
    vfs_mknod path mode device = at path false (λ n leaf. make_node os n leaf mode device)

    unfoldable pub vfs_read_link : Bytes → Result Bytes
    unfolding resolve
    vfs_read_link path = at path false (read_link os)

    unfoldable pub vfs_access : Bytes → ℕ → Result HostCall
    unfolding resolve
    vfs_access path mode = at path true (λ n leaf. access_node os n leaf mode)

    -- VFS::Rename. The test for EXDEV compares the types of two pointers, which are the same.
    unfoldable pub vfs_rename : Bytes → Bytes → Result HostCall
    unfolding resolve
    vfs_rename from to =
        at from false (λ n leaf. at to false (λ m other. rename_file os n leaf m other))

    unfoldable pub vfs_chmod : Bytes → ℕ → Result HostCall
    unfolding resolve
    vfs_chmod path mode = at path true (λ n leaf. change_mode os n leaf mode)

    unfoldable pub vfs_lchmod : Bytes → ℕ → Result HostCall
    unfolding resolve
    vfs_lchmod path mode = at path false (λ n leaf. change_mode os n leaf mode)

    unfoldable pub vfs_chown : Bool → Bytes → ℕ → ℕ → Result HostCall
    unfolding resolve
    vfs_chown fake_root path owner group =
        at path true (λ n leaf. change_owner os fake_root n leaf owner group)

    unfoldable pub vfs_lchown : Bool → Bytes → ℕ → ℕ → Result HostCall
    unfolding resolve
    vfs_lchown fake_root path owner group =
        at path false (λ n leaf. change_owner os fake_root n leaf owner group)

    -- VFS::Link, whose test for EXDEV compares a pointer with itself.
    unfoldable pub vfs_link : Bytes → Bytes → Result HostCall
    unfolding resolve
    vfs_link target path =
        at target false (λ n leaf. at path false (λ m name. link_file os m name n leaf))

    unfoldable pub vfs_unlink : Bytes → Result HostCall
    unfolding resolve
    vfs_unlink path = at path false (remove_file os)

    unfoldable pub vfs_symlink : Bytes → Bytes → Result HostCall
    unfolding resolve
    vfs_symlink target path = at path false (λ n leaf. make_symlink os n leaf target)

    unfoldable pub vfs_utimes : Bytes → Option (ℕ × ℕ) → Result HostCall
    unfolding resolve
    vfs_utimes path times = at path false (λ n leaf. set_times os n leaf times)

    -- VFS::Chroot, with the names that are then in /dev.
    abbrev rooted_at : Option Bytes → List Bytes → Result Vfs
    rooted_at none found = throw eopnotsupp
    rooted_at (some path) found = set_root path found v

    unfoldable pub vfs_chroot : Bytes → List Bytes → Result Vfs
    unfolding enter_path
    vfs_chroot path found =
        and_then (enter_path path false) (λ n. rooted_at (get_real_path n) found)

    -- do_open of src/syscalls/fd.cc; `iflags` are the flags that FileFlagsL2I makes of `flags`.
    abbrev instead_of_file : Bytes → Bool → Result HostCall → Result HostCall
    instead_of_file path nofollow (throw eisdir) = vfs_open_directory path nofollow
    instead_of_file path nofollow r = r

    -- With the call that opens the descriptor goes the value that F_SETFD is then given for it.
    unfoldable pub do_open : Bytes → ℕ → ℕ → ℕ → Result (HostCall × ℕ)
    unfolding vfs_open_directory vfs_open_file
    do_open path flags iflags mode =
        let opened =
          if test flags 0o200000
          then vfs_open_directory path (test flags 0o400000)
          else instead_of_file path (test flags 0o400000)
              (vfs_open_file path iflags mode (test flags 0o400000)) in
        and_then opened (λ call. ok (call, if test flags 0o2000000 then 1 else 0))

    -- sys_fchmodat, sys_fchownat and sys_unlinkat of src/syscalls/file.cc.
    unfoldable pub sys_fchmodat : Bytes → ℕ → ℕ → Result HostCall
    unfolding vfs_chmod vfs_lchmod
    sys_fchmodat path mode flags =
        if test flags 0x100 then vfs_lchmod path mode else vfs_chmod path mode

    unfoldable pub sys_fchownat : Bool → Bytes → ℕ → ℕ → ℕ → Result HostCall
    unfolding vfs_chown vfs_lchown
    sys_fchownat fake_root path owner group flags =
        if test flags 0x100
        then vfs_lchown fake_root path owner group
        else vfs_chown fake_root path owner group

    unfoldable pub sys_unlinkat : Bytes → ℕ → Result HostCall
    unfolding vfs_rmdir vfs_unlink
    sys_unlinkat path flags = if test flags 0x200 then vfs_rmdir path else vfs_unlink path
