-- ===== src/Vfs/WorkingDirectory.antt =====
-- src/filesystem/VFS.cc: GetCWD names the current directory so that SetCWD finds it again, in this
-- process or, by the LBW_CWD of src/exec/exec.cc, in the next.
use lbw.Prelude.{
  ℕ, ◌≤◌, ◌≡◌, ◌≢◌, refl, Bool, true, false, List, [], ◌∷◌, ◌++◌, none, arith, ◌==◌, Bool-cases,
  inl, inr, if◌then◌else◌, ◌∙◌, sym, ap, subst, subst₂, ==→eq,
}
use lbw.Prelude.Results.{ok}
use lbw.Prelude.Text.{Bytes, codes, slash, NoSlash, is_empty}
use lbw.Nodes.{
  FileSystem, Node, root, interix, dev, pts, directory, get_file_type, get_path, traverse,
}
use lbw.Prelude.Flags.{All}
use mathlib.Core.List.{append_assoc}
use lbw.PathWalk.{Place}
use lbw.PathWalk.Elements.{elements, split, trim, onto_first, is_blank, split-ne-nil}
use lbw.PathWalk.Paths.{Resolves, Follows}
use lbw.PathWalk.Completeness.{walk_iff}
use lbw.Vfs.{Vfs, tree, set_cwd, get_cwd}

-- The names on the way from the root to a node.
abbrev names : Node → List Bytes
names (root p f) = []
names (interix p n path) = names p ++ n ∷ []
names (dev p f) = names p ++ codes "dev" ∷ []
names (pts p) = names p ++ codes "pts" ∷ []

-- The root above a node.
abbrev pub root_of : Node → Node
root_of (root p f) = root p f
root_of (interix p n path) = root_of p
root_of (dev p f) = root_of p
root_of (pts p) = root_of p

-- A node that is still what a lookup of its name in its parent gives, and so are all above it.
module _ (os : FileSystem) where
  pub record Listed (parent : Node) (n : Bytes) (node : Node) : Type 0 where
    pub clean : NoSlash n
    pub filled : n ≢ []
    pub is_directory : get_file_type os parent n ≡ ok directory
    pub found : traverse os parent n ≡ ok node

  abbrev pub Standing : Node → Type 0
  Standing (root p f) = Unit
  Standing (interix p n path) = Standing p × Listed p n (interix p n path)
  Standing (dev p f) = Standing p × Listed p (codes "dev") (dev p f)
  Standing (pts p) = Standing p × Listed p (codes "pts") (pts p)

split-slash : (a b : Bytes) → split (a ++ slash ∷ b) ≡ split a ++ split b
unfolding split
split-slash [] b = refl
split-slash (c ∷ cs) b = elim (Bool-cases (c == slash)) [
  | inl e ↦ rw (e, split-slash cs b)
  | inr e ↦ rw (e, split-slash cs b) (onto (split cs) (split-ne-nil cs))
]
  where
    onto : (ps : List Bytes) → ps ≢ [] → onto_first c (ps ++ split b) ≡ onto_first c ps ++ split b
    onto [] h = absurd (h refl)
    onto (p ∷ ps) h = refl

split-NoSlash : (n : Bytes) → NoSlash n → split n ≡ n ∷ []
unfolding split
split-NoSlash [] h = refl
split-NoSlash (c ∷ cs) h = rw (other, split-NoSlash cs h.1)
  where
    other : (c == slash) ≡ false
    other = ground arith

All-snoc {ℓ} :
    {A : Type ℓ} (P : A → Type 0) (xs : List A) (x : A) → All P xs → P x → All P (xs ++ x ∷ [])
All-snoc P [] x a h = (h, tt)
All-snoc P (y ∷ ys) x a h = (a.0, All-snoc P ys x a.1 h)

trim-filled : (ps : List Bytes) → All (λ n. n ≢ []) ps → trim ps ≡ ps
unfolding trim
trim-filled [] a = refl
trim-filled (p ∷ ps) a = rw (not_blank ps a.1, trim-filled ps a.1)
  where
    not_blank : (ps : List Bytes) → All (λ n. n ≢ []) ps → is_blank ps ≡ false
    not_blank [] a = refl
    not_blank ([] ∷ qs) a = absurd (a.0 refl)
    not_blank ((c ∷ cs) ∷ qs) a = refl

rest_filled :
    (rest : Bytes) (ps : List Bytes)
    → All (λ n. n ≢ []) ps
    → split rest ≡ ps
    → is_empty rest ≡ false
unfolding split
rest_filled [] ps a r = absurd ((subst (All (λ n. n ≢ [])) (sym r) a).0 refl)
rest_filled (c ∷ cs) ps a r = refl

snoc-ne-nil {ℓ} : {A : Type ℓ} (xs : List A) (x : A) → xs ++ x ∷ [] ≢ []
snoc-ne-nil [] x h = cc
snoc-ne-nil (y ∷ ys) x h = cc

-- What follows the first slash of a path that starts with one.
split-absolute :
    (path : Bytes) (ps : List Bytes)
    → split path ≡ [] ∷ ps
    → ps ≢ []
    → (rest : Bytes) × (path ≡ slash ∷ rest) × (split rest ≡ ps)
unfolding split
split-absolute [] ps h n = absurd (n cc)
split-absolute (c ∷ cs) ps h n = elim (Bool-cases (c == slash)) [
  | inl e ↦ (cs, ap (λ x. x ∷ cs) (==→eq c slash e), tail_eq (rw e at h))
  | inr e ↦ absurd (filled (split cs) (rw e at h))
]
  where
    tail_eq : [] ∷ split cs ≡ [] ∷ ps → split cs ≡ ps
    tail_eq h = cc

    filled : (qs : List Bytes) → onto_first c qs ≢ [] ∷ ps
    filled [] h = cc
    filled (q ∷ qs) h = cc

module _ (os : FileSystem) where
  split-get_path : (node : Node) → Standing os node → split (get_path node) ≡ [] ∷ names node
  unfolding get_path split
  split-get_path (root p f) s = refl
  split-get_path (interix p n path) s =
      rw (split-slash (get_path p) n, split-get_path p s.0, split-NoSlash n s.1.clean)
  split-get_path (dev p f) s = rw (split-slash (get_path p) (codes "dev"), split-get_path p s.0)
  split-get_path (pts p) s = rw (split-slash (get_path p) (codes "pts"), split-get_path p s.0)

  names-filled : (node : Node) → Standing os node → All (λ n. n ≢ []) (names node)
  names-filled (root p f) s = tt
  names-filled (interix p n path) s = All-snoc _ (names p) n (names-filled p s.0) s.1.filled
  names-filled (dev p f) s = All-snoc _ (names p) (codes "dev") (names-filled p s.0) (λ h. cc)
  names-filled (pts p) s = All-snoc _ (names p) (codes "pts") (names-filled p s.0) (λ h. cc)

  module _ (v : Vfs) (l : Bool) where
    into :
        (parent node : Node) (n e : Bytes) (es : List Bytes) (p : Place (tree os v))
        → Listed os parent n node
        → Resolves (tree os v) l node (e ∷ es) p
        → Resolves (tree os v) l parent (n ∷ e ∷ es) p
    into parent node [] e es p x d = absurd (x.filled refl)
    into parent node (c ∷ cs) e es p x d =
        Resolves.enters (Follows.plain x.is_directory (λ h. cc)) refl x.found d

    leads :
        (node : Node) (e : Bytes) (es : List Bytes) (p : Place (tree os v))
        → Standing os node
        → Resolves (tree os v) l node (e ∷ es) p
        → Resolves (tree os v) l (root_of node) (names node ++ e ∷ es) p
    leads (root q f) e es p s d = d
    leads (interix q n path) e es p s d =
        rw (append_assoc (names q) (n ∷ []) (e ∷ es))
          (leads q n (e ∷ es) p s.0 (into q (interix q n path) n e es p s.1 d))
    leads (dev q f) e es p s d =
        rw (append_assoc (names q) (codes "dev" ∷ []) (e ∷ es))
          (leads q (codes "dev") (e ∷ es) p s.0 (into q (dev q f) (codes "dev") e es p s.1 d))
    leads (pts q) e es p s d =
        rw (append_assoc (names q) (codes "pts" ∷ []) (e ∷ es))
          (leads q (codes "pts") (e ∷ es) p s.0 (into q (pts q) (codes "pts") e es p s.1 d))

    ends :
        (parent node : Node) (n : Bytes)
        → Listed os parent n node
        → Resolves (tree os v) l parent (n ∷ []) (record { node = parent; leaf = n })
    ends parent node [] x = absurd (x.filled refl)
    ends parent node (c ∷ cs) x = Resolves.last (Follows.plain x.is_directory (λ h. cc))

    -- From the root, the names lead to a node's place in its parent.
    placed :
        (parent node : Node) (n : Bytes)
        → Standing os parent
        → Listed os parent n node
        → (q : Place (tree os v)) × (traverse os q.node q.leaf ≡ ok node)
          × Resolves (tree os v) l (root_of parent) (names parent ++ n ∷ []) q
    placed parent node n s x = (
      record { node = parent; leaf = n },
      x.found,
      leads parent n [] (record { node = parent; leaf = n }) s (ends parent node n x),
    )

  -- SetCWD of a path that starts with a slash and leads to a place in the node's parent.
  set_cwd_placed :
      (w : Vfs) (node : Node) (q : Place (tree os w))
      → root_of node ≡ w.root_node
      → Standing os node
      → names node ≢ []
      → traverse os q.node q.leaf ≡ ok node
      → Resolves (tree os w) true (root_of node) (names node) q
      → (k : ℕ) × ((rounds : ℕ)
          → k ≤ rounds
          → set_cwd os (record w { rounds = rounds }) none (get_path node)
            ≡ ok (record w { cwd = node; rounds = rounds }))
  unfolding set_cwd
  set_cwd_placed w node q at_root s filled found d =
      let (rest, e, r) =
        split-absolute (get_path node) (names node) (split-get_path node s) filled in
      let whole : elements rest ≡ names node =
        ap trim r ∙ trim-filled (names node) (names-filled node s) in
      let d' : Resolves (tree os w) true w.root_node (elements rest) q =
        subst₂ (λ n es. Resolves (tree os w) true n es q) at_root (sym whole) d in
      let (k, walks) = (walk_iff (tree os w) w.root_node rest true q).1 d' in
      (
        k,
        λ rounds h.
            rw (e, set_cwd)
              (rw (rest_filled rest (names node) (names-filled node s) r)
                (rw (walks rounds h) (rw found))),
      )

  get_path-filled : (parent : Bytes) (n : Bytes) → is_empty (parent ++ slash ∷ n) ≡ false
  get_path-filled [] n = refl
  get_path-filled (c ∷ cs) n = refl

  abbrev Returns : Vfs → Node → Bytes → Type 0
  Returns w node path =
      (k : ℕ) × ((rounds : ℕ)
        → k ≤ rounds
        → set_cwd os (record w { rounds = rounds }) none path
          ≡ ok (record w { cwd = node; rounds = rounds }))

  -- As GetCWD writes the path.
  abbrev written : Bytes → Bytes
  written path = if is_empty path then slash ∷ [] else path

  returns :
      (w : Vfs) (node : Node)
      → root_of node ≡ w.root_node
      → Standing os node
      → Returns w node (written (get_path node))
  unfolding get_path set_cwd traverse
  returns w (root q f) at_root s = (0, λ rounds h. rw (← at_root))
  returns w (interix p n path) at_root s =
      let (q, found, d) = placed w true p (interix p n path) n s.0 s.1 in
      rw (get_path-filled (get_path p) n)
        (set_cwd_placed w (interix p n path) q at_root s (snoc-ne-nil (names p) n) found d)
  returns w (dev p f) at_root s =
      let (q, found, d) = placed w true p (dev p f) (codes "dev") s.0 s.1 in
      rw (get_path-filled (get_path p) (codes "dev"))
        (set_cwd_placed w (dev p f) q at_root s (snoc-ne-nil (names p) (codes "dev")) found d)
  returns w (pts p) at_root s =
      let (q, found, d) = placed w true p (pts p) (codes "pts") s.0 s.1 in
      rw (get_path-filled (get_path p) (codes "pts"))
        (set_cwd_placed w (pts p) q at_root s (snoc-ne-nil (names p) (codes "pts")) found d)

  -- If every node from the current directory up to the root is what a lookup of its name gives, then
  -- SetCWD of the path that GetCWD returned leads back to the current directory, with enough rounds,
  -- from whatever other directory of the same root it is called in.
  pub set_cwd-get_cwd :
      (v w : Vfs)
      → w.root_node ≡ v.root_node
      → root_of v.cwd ≡ v.root_node
      → Standing os v.cwd
      → (k : ℕ) × ((rounds : ℕ)
          → k ≤ rounds
          → set_cwd os (record w { rounds = rounds }) none (get_cwd v)
            ≡ ok (record w { cwd = v.cwd; rounds = rounds }))
  unfolding get_cwd
  set_cwd-get_cwd v w same at_root s = returns w v.cwd (at_root ∙ sym same) s
