-- ===== src/Vfs/Operations.antt =====
-- src/filesystem/VFS.cc and the nodes: what the operations on paths do at the places where the
-- classes of nodes meet, and where they do not do what their callers expect.
use lbw.Prelude.{
  ℕ, suc, ◌≡◌, ◌≢◌, refl, true, false, ◌||◌, List, [], ◌∷◌, ◌++◌, Option, none, some, arith, ◌==◌,
  Bool-cases, inl, inr, ◌∙◌, sym, ap, not,
}
use lbw.Prelude.Results.{
  Result, ok, throw, fault, and_then, enoent, eisdir, assert_failed, null_dereference, ok-injective,
}
use lbw.Prelude.Flags.{test}
use lbw.Prelude.Text.{Bytes, codes, is_empty, eqb}
use lbw.Dirents.{Stat}
use lbw.Nodes.{
  FileSystem, Node, root, interix, dev, pts, directory, get_file_type, get_real_path, traverse, dot,
  dotdot, stat_file, c_string, read_link,
}
use lbw.NodeCalls.{
  chmod, access_node, is_special, rename_file, link_file, change_mode, open_file, open_interix,
}
use mathlib.Core.List.{append-nil}
use lbw.PathWalk.{Place, resolve, next_element}
use lbw.Vfs.{Vfs, tree, enter_path, vfs_rename, vfs_link, vfs_chmod, vfs_open_file, do_open}

some_injective : {a b : Bytes} → some a ≡ some b → a ≡ b
some_injective h = cc

-- A C string: no byte is 0.
abbrev pub NoZero : Bytes → Type 0
NoZero [] = Unit
NoZero (c ∷ cs) = (c ≢ 0) × NoZero cs

c_string-append :
    (t s : Bytes) → NoZero t → c_string (t ++ s) ≡ and_then (c_string s) (λ r. ok (t ++ r))
unfolding c_string
c_string-append [] s h = same (c_string s)
  where
    same : (r : Result Bytes) → r ≡ and_then r (λ x. ok x)
    same (ok x) = refl
    same (throw e) = refl
    same (fault x) = refl
c_string-append (c ∷ cs) s h = rw (other, c_string-append cs s h.1) (join (c_string s))
  where
    other : (c == 0) ≡ false
    other = ground arith

    join :
        (r : Result Bytes)
        → and_then (and_then r (λ x. ok (cs ++ x))) (λ x. ok (c ∷ x))
          ≡ and_then r (λ x. ok (c ∷ cs ++ x))
    join (ok x) = refl
    join (throw e) = refl
    join (fault x) = refl

longer : (t r : Bytes) (b : ℕ) → t ++ b ∷ r ≢ t
longer [] r b h = cc
longer (c ∷ cs) r b h = longer cs r b (tail_eq h)
  where
    tail_eq : c ∷ (cs ++ b ∷ r) ≡ c ∷ cs → cs ++ b ∷ r ≡ cs
    tail_eq h = cc

ended : (t s : Bytes) (b : ℕ) → b ≡ 0 → and_then (c_string (b ∷ s)) (λ r. ok (t ++ r)) ≡ ok t
unfolding c_string
ended t s b e = rw e (ap ok (append-nil t))

unended : (t s : Bytes) (b : ℕ) → b ≢ 0 → and_then (c_string (b ∷ s)) (λ r. ok (t ++ r)) ≢ ok t
unfolding c_string
unended t s b e h = go (c_string s) (rw other at h)
  where
    other : (b == 0) ≡ false
    other = ground arith

    go : (r : Result Bytes) → and_then (and_then r (λ x. ok (b ∷ x))) (λ x. ok (t ++ x)) ≢ ok t
    go (ok x) k = longer t x b (ok-injective k)
    go (throw x) k = cc
    go (fault x) k = cc

module _ (os : FileSystem) where
  open_interix-directory :
      (n : Node) (path leaf : Bytes) (flags mode : ℕ)
      → os.chdir path ≡ inr tt
      → is_empty leaf ≡ false
      → get_file_type os n leaf ≡ ok directory
      → open_interix os n path leaf flags mode ≡ throw eisdir
  unfolding open_interix
  open_interix-directory n path leaf flags mode b c d =
      elim (Bool-cases (eqb leaf dot || eqb leaf dotdot)) [
        | inl special ↦ rw (c, special)
        | inr plain ↦ rw (c, plain) (rw b (rw d))
      ]

  -- FakeVFSNode::Access throws ENOENT for every name of the device directory, other than "." and
  -- "..", that StatFile examines: access("/dev/null", ...) says that there is no such file.
  access_node-dev :
      (p : Node) (f : List Bytes) (name : Bytes) (mode : ℕ) (st : Stat)
      → eqb name dot ≡ false
      → eqb name dotdot ≡ false
      → stat_file os (dev p f) name ≡ ok st
      → access_node os (dev p f) name mode ≡ throw enoent
  unfolding access_node stat_file
  access_node-dev p f name mode st d e h = rw (e, d) (rw (rw (e, d) at h))

  open_file-directory :
      (n : Node) (leaf path : Bytes) (flags mode : ℕ)
      → get_real_path n ≡ some path
      → os.chdir path ≡ inr tt
      → is_empty leaf ≡ false
      → get_file_type os n leaf ≡ ok directory
      → open_file os n leaf flags mode ≡ throw eisdir
  unfolding open_file get_real_path
  open_file-directory (root q f) leaf path flags mode a b c d =
      open_interix-directory (root q f) q leaf flags mode (rw (some_injective a) b) c d
  open_file-directory (interix p n q) leaf path flags mode a b c d =
      open_interix-directory (interix p n q) q leaf flags mode (rw (some_injective a) b) c d
  open_file-directory (dev p f) leaf path flags mode a b c d = cc
  open_file-directory (pts p) leaf path flags mode a b c d = cc

  module _ (v : Vfs) (dir : Option Node) where
    abbrev Reaches : Bytes → Place (tree os v) → Type 0
    Reaches path p = resolve (tree os v) v.rounds dir path false ≡ ok p

    -- A file of Interix cannot be renamed into a device directory, nor can a device be linked into
    -- a directory of Interix: instead of EXDEV, for names other than "", "." and "..", the first
    -- fails an assertion and the second uses a null pointer.
    rename-across :
        (from to : Bytes) (p q : Place (tree os v)) (path : Bytes)
        → Reaches from p
        → Reaches to q
        → get_real_path p.node ≡ some path
        → get_real_path q.node ≡ none
        → is_special p.leaf ≡ false
        → is_special q.leaf ≡ false
        → (vfs_rename os v dir from to ≡ fault assert_failed)
          × (vfs_link os v dir to from ≡ fault null_dereference)
    unfolding vfs_rename vfs_link rename_file link_file
    rename-across from to p q path h k a b s t =
        (rw (h, k, a, b), rw (k, h) (rw a (rw (t, s) (rw b))))

    -- Where a path leads to a name, not empty, that is a directory in a directory of Interix that can be
    -- entered, opening it without O_DIRECTORY does what opening it with O_DIRECTORY and the same
    -- O_NOFOLLOW and O_CLOEXEC does, whatever the other flags and the mode are: the file is refused with EISDIR, and do_open opens the directory
    -- instead and sets the same flag of the descriptor.
    pub do_open-directory :
        (path real : Bytes) (flags flags' iflags iflags' mode mode' : ℕ) (p : Place (tree os v))
        → test flags 0o200000 ≡ false
        → test flags' 0o200000 ≡ true
        → test flags 0o400000 ≡ test flags' 0o400000
        → test flags 0o2000000 ≡ test flags' 0o2000000
        → resolve (tree os v) v.rounds dir path (not (test flags 0o400000)) ≡ ok p
        → get_real_path p.node ≡ some real
        → os.chdir real ≡ inr tt
        → is_empty p.leaf ≡ false
        → get_file_type os p.node p.leaf ≡ ok directory
        → do_open os v dir path flags iflags mode ≡ do_open os v dir path flags' iflags' mode'
    unfolding do_open
    do_open-directory path real flags flags' iflags iflags' mode mode' p a b c cloexec found d e f
          g =
        let refused : vfs_open_file os v dir path iflags mode (test flags 0o400000) ≡ throw eisdir =
          rw found (open_file-directory p.node p.leaf real iflags mode d e f g) in
        rw (a, b) (rw refused (rw (c, cloexec)))

  -- chmod("/..", mode), where the root's directory can be entered: looking ".." up in the root gives
  -- the root, but the call that Interix gets is for the ".." of the root's directory, outside the
  -- root.
  vfs_chmod-dotdot :
      (v : Vfs) (path : Bytes) (f : List Bytes) (k mode : ℕ)
      → v.root_node ≡ root path f
      → v.rounds ≡ suc (suc k)
      → os.chdir path ≡ inr tt
      → (enter_path os v none (codes "/..") true ≡ ok (root path f))
        × (vfs_chmod os v none (codes "/..") mode ≡ ok (chmod path dotdot mode))
  unfolding vfs_chmod enter_path traverse change_mode get_file_type read_link next_element
  vfs_chmod-dotdot v path f k mode a b c = (rw (b, a), rw (b, a, c))

  read_link-interix :
      (p : Node) (n path name target stale : Bytes) (b : ℕ)
      → is_special name ≡ false
      → os.chdir path ≡ inr tt
      → os.readlink path name ≡ inr target
      → os.stale ≡ b ∷ stale
      → read_link os (interix p n path) name ≡ c_string (target ++ b ∷ stale)
  unfolding read_link
  read_link-interix p n path name target stale b s c r t = rw (filled, plain) (rw c (rw r (rw t)))
    where
      filled : is_empty name ≡ false
      filled = ground (arith, s)

      plain : (eqb name dot || eqb name dotdot) ≡ false
      plain = ground (arith, s)

  -- readlink(2) does not end what it writes, and InterixVFSNode::ReadLink does not either: of a name
  -- that is not special in a directory that can be entered, the target of the link is read as it is
  -- if the next byte of the buffer happens to be 0, and otherwise not.
  read_link-stale :
      (p : Node) (n path name target stale : Bytes) (b : ℕ)
      → is_special name ≡ false
      → os.chdir path ≡ inr tt
      → os.readlink path name ≡ inr target
      → NoZero target
      → os.stale ≡ b ∷ stale
      → (b ≡ 0 → read_link os (interix p n path) name ≡ ok target)
        × (b ≢ 0 → read_link os (interix p n path) name ≢ ok target)
  read_link-stale p n path name target stale b s c r z t =
      let value =
        read_link-interix p n path name target stale b s c r t
        ∙ c_string-append target (b ∷ stale) z in
      (λ e. value ∙ ended target stale b e, λ e h. unended target stale b e (sym value ∙ h))
