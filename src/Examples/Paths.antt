-- ===== src/Examples/Paths.antt =====
-- The theorems on paths (src/filesystem/VFS.cc and the nodes) at a small file system: a root
-- directory /r with the directories a, a/b and dev, the file f and the links l and self.
use lbw.Prelude.{
  ℕ, suc, ◌≤◌, ◌≡◌, ◌≢◌, refl, ◌⊎◌, true, false, ◌&&◌, ◌||◌, [], ◌∷◌, none, some, inl, inr, arith,
  ◌==◌, if◌then◌else◌,
}
use lbw.Prelude.Results.{ok, throw, fault, enoent, einval, out_of_fuel}
use lbw.Prelude.Text.{Bytes, codes, eqb, NoSlash}
use lbw.Dirents.{Stat}
use lbw.Nodes.{
  FileSystem, Node, root, interix, dev, directory, link, Call, dot, get_file_type, read_link,
  traverse, stat_file, get_real_path,
}
use lbw.Nodes.Ptys.{findpty}
use lbw.Nodes.PtyPaths.{IsPty, findpty-IsPty}
use lbw.Nodes.Jail.{Under, InJail}
use lbw.PathWalk.{Tree, Place, resolve, walk, next_element}
use lbw.PathWalk.Elements.{elements}
use lbw.PathWalk.Paths.{Resolves}
use lbw.PathWalk.Completeness.{walk_iff}
use lbw.PathWalk.Termination.{IsPlain, walk_total, walk-itself}
use lbw.Vfs.{Vfs, tree, set_cwd, get_cwd, do_open}
use lbw.Vfs.Containment.{IsJailed, resolve-IsJailed}
use lbw.Vfs.WorkingDirectory.{Listed, set_cwd-get_cwd}
use lbw.Vfs.Operations.{do_open-directory}

abbrev stat_of : ℕ → Call Stat
stat_of m = inr (record { st_ino = 5; st_mode = m })

abbrev in_root : Bytes → Call Stat
in_root name =
    if eqb name (codes "a") || eqb name dot || eqb name (codes "dev")
    then stat_of 4
    else if eqb name (codes "f")
    then stat_of 8
    else if eqb name (codes "l") || eqb name (codes "self")
    then stat_of 10
    else inl enoent

abbrev disk : FileSystem
disk = record {
  chdir = λ path. inr tt;
  lstat = λ path name.
      if eqb path (codes "/r")
      then in_root name
      else if eqb path (codes "/r/a") && eqb name (codes "b")
      then stat_of 4
      else inl enoent;
  stat = λ path. stat_of 2;
  readlink = λ path name. inr (if eqb name (codes "l") then codes "a" else name);
  stale = 0 ∷ [];
  modes = record {
    is_dir = λ m. m == 4;
    is_chr = λ m. m == 2;
    is_blk = λ m. m == 6;
    is_reg = λ m. m == 8;
    is_fifo = λ m. m == 1;
    is_sock = λ m. m == 12;
    is_lnk = λ m. m == 10;
  };
  ifdir_rwx = 4;
}

abbrev top_node : Node
top_node = root (codes "/r") []

abbrev a_node : Node
a_node = interix top_node (codes "a") (codes "/r/a")

abbrev b_node : Node
b_node = interix a_node (codes "b") (codes "/r/a/b")

abbrev dev_node : Node
dev_node = dev top_node []

abbrev vfs : Vfs
vfs = record { root_node = top_node; cwd = b_node; rounds = 20 }

abbrev disk_tree : Tree
disk_tree = tree disk vfs

-- Through a link and over two slashes.
walk-link :
    walk disk_tree 9 top_node (codes "l//b/") true ≡ ok (record { node = a_node; leaf = codes "b" })
unfolding walk next_element traverse get_file_type read_link
walk-link = refl

walk_iff_example :
    ((f : ℕ)
      → walk disk_tree f top_node (codes "l//b/") true
        ≡ ok (record { node = a_node; leaf = codes "b" })
      → Resolves disk_tree true top_node
          (elements (codes "l//b/"))
          (record { node = a_node; leaf = codes "b" }))
    × (Resolves disk_tree true top_node
          (elements (codes "l//b/"))
          (record { node = a_node; leaf = codes "b" })
        → (k : ℕ) × ((f : ℕ)
            → k ≤ f
            → walk disk_tree f top_node (codes "l//b/") true
              ≡ ok (record { node = a_node; leaf = codes "b" })))
walk_iff_example =
    walk_iff disk_tree top_node (codes "l//b/") true (record { node = a_node; leaf = codes "b" })

-- A tree without links, whose nodes count how deep they are.
abbrev deep : Tree
deep = record {
  Node = ℕ;
  root = 0;
  cwd = 0;
  get_file_type = λ n e. ok directory;
  read_link = λ n e. throw einval;
  traverse = λ n e. ok (suc n);
}

deep-IsPlain : IsPlain deep
deep-IsPlain = record {
  no_links = λ n e h. cc;
  types_end = λ n e h. cc;
  traverse_ends = λ n e h. cc;
}

walk_total_example : walk deep 7 0 (codes "x/y/z") true ≢ fault out_of_fuel
walk_total_example = walk_total deep deep-IsPlain 7 0 (codes "x/y/z") true (omega arith)

self-link : get_file_type disk top_node (codes "self") ≡ ok link
unfolding get_file_type
self-link = refl

read_link_self : read_link disk top_node (codes "self") ≡ ok (codes "self")
unfolding read_link
read_link_self = refl

not_slash : NoSlash (codes "self")
not_slash = omega arith

walk-itself_example : walk disk_tree 1000 top_node (codes "self") true ≡ fault out_of_fuel
walk-itself_example =
    walk-itself disk_tree top_node b's' (codes "elf") not_slash self-link read_link_self 1000

vfs-IsJailed : IsJailed (codes "/r") vfs none
vfs-IsJailed = record {
  root_inside = refl;
  cwd_inside = ((refl, inl a_under), inl b_under);
  dir_inside = refl;
}
  where
    a_under : Under (codes "/r") (codes "/r/a")
    a_under = Under.below (codes "a") Under.top (omega arith) (λ h. cc) (λ h. cc) (λ h. cc)

    b_under : Under (codes "/r") (codes "/r/a/b")
    b_under = Under.below (codes "b") a_under (omega arith) (λ h. cc) (λ h. cc) (λ h. cc)

resolve-IsJailed_example :
    ((p : Place disk_tree) (q : Bytes)
      → resolve disk_tree 20 none (codes "../../../../a/x") true ≡ ok p
      → get_real_path p.node ≡ some q
      → InJail (codes "/r") q × NoSlash p.leaf)
    × ((v' : Vfs)
        → set_cwd disk vfs none (codes "../../../../a/x") ≡ ok v'
        → IsJailed (codes "/r") v' none)
resolve-IsJailed_example =
    resolve-IsJailed disk (codes "/r") vfs none vfs-IsJailed (codes "../../../../a/x") true

a-Listed : Listed disk top_node (codes "a") a_node
unfolding get_file_type traverse
a-Listed = record { clean = omega arith; filled = λ h. cc; is_directory = refl; found = refl }

b-Listed : Listed disk a_node (codes "b") b_node
unfolding get_file_type traverse
b-Listed = record { clean = omega arith; filled = λ h. cc; is_directory = refl; found = refl }

set_cwd-get_cwd_example :
    (k : ℕ) × ((rounds : ℕ)
      → k ≤ rounds
      → set_cwd disk
          (record { root_node = top_node; cwd = top_node; rounds = rounds })
          none
          (get_cwd vfs)
        ≡ ok (record { root_node = top_node; cwd = b_node; rounds = rounds }))
set_cwd-get_cwd_example =
    set_cwd-get_cwd disk vfs (record vfs { cwd = top_node }) refl refl ((tt, a-Listed), b-Listed)

stat_file-null : stat_file disk dev_node (codes "null") ≡ ok (record { st_ino = 5; st_mode = 2 })
unfolding stat_file
stat_file-null = refl

resolve-f :
    resolve disk_tree 20 none (codes "/f") false ≡ ok (record { node = top_node; leaf = codes "f" })
unfolding resolve next_element traverse get_file_type read_link
resolve-f = refl

resolve-dev :
    resolve disk_tree 20 none (codes "/dev/null") false
    ≡ ok (record { node = dev_node; leaf = codes "null" })
unfolding resolve next_element traverse get_file_type read_link
resolve-dev = refl

top-real : get_real_path top_node ≡ some (codes "/r")
unfolding get_real_path
top-real = refl

dev-real : get_real_path dev_node ≡ none
unfolding get_real_path
dev-real = refl

resolve-a :
    resolve disk_tree 20 none (codes "/a") true ≡ ok (record { node = top_node; leaf = codes "a" })
unfolding resolve next_element traverse get_file_type read_link
resolve-a = refl

do_open-directory_example :
    do_open disk vfs none (codes "/a") 0 0 0 ≡ do_open disk vfs none (codes "/a") 0o200000 0 7
do_open-directory_example =
    do_open-directory disk vfs none (codes "/a") (codes "/r") 0 0o200000 0 0 0 7
      (record { node = top_node; leaf = codes "a" }) refl refl refl refl resolve-a top-real refl
      refl a-Listed.is_directory

-- 48 + 48 * 256
findpty-IsPty_example : (findpty (codes "12336") ≡ []) ⊎ IsPty (findpty (codes "12336"))
findpty-IsPty_example = findpty-IsPty (codes "12336")
