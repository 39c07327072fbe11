-- ===== src/Vfs/Containment.antt =====
-- src/filesystem/VFS.cc: no path leads out of the root directory.
use lbw.Prelude.{
  ℕ, ◌≡◌, ◌≢◌, Bool, true, [], ◌∷◌, Option, none, some, arith, ◌==◌, Bool-cases, inl, inr, subst,
}
use lbw.Prelude.Results.{ok, and_then-ok, ok-injective}
use lbw.Prelude.Text.{Bytes, slash, NoSlash, is_empty}
use lbw.Nodes.{FileSystem, Node, get_real_path}
use lbw.Nodes.Jail.{Inside, InJail, Inside-InJail, traverse-Inside}
use lbw.PathWalk.{Place, resolve, walk}
use lbw.PathWalk.Refinement.{walk-Resolves}
use lbw.PathWalk.Invariants.{Resolves-keeps}
use lbw.Vfs.{Vfs, tree, enter_path, set_cwd}
use mathlib.Core.Option.{get_or}

-- The root is the directory `base`, and the current directory and `dir` are inside.
pub record IsJailed (base : Bytes) (v : Vfs) (dir : Option Node) : Type 0 where
  pub root_inside : Inside base v.root_node
  pub cwd_inside : Inside base v.cwd
  pub dir_inside : Inside base (get_or dir v.root_node)

module _ (os : FileSystem) (base : Bytes) (v : Vfs) (dir : Option Node)
    (j : IsJailed base v dir) where
  walk-Inside :
      (k : ℕ) (n : Node) (path : Bytes) (l : Bool) (p : Place (tree os v))
      → Inside base n
      → walk (tree os v) k n path l ≡ ok p
      → Inside base p.node × NoSlash p.leaf
  walk-Inside k n path l p i h =
      Resolves-keeps (tree os v) (Inside base) j.root_inside
        (λ n m e i clean down. traverse-Inside os base n m e i clean down) path
        (walk-Resolves (tree os v) k n path l p h) i

  resolve-Inside :
      (k : ℕ) (path : Bytes) (l : Bool) (p : Place (tree os v))
      → resolve (tree os v) k dir path l ≡ ok p
      → Inside base p.node × NoSlash p.leaf
  unfolding resolve
  resolve-Inside k [] l p h = empty dir j.dir_inside h
    where
      empty :
          (d : Option Node)
          → Inside base (get_or d v.root_node)
          → resolve (tree os v) k d [] l ≡ ok p
          → Inside base p.node × NoSlash p.leaf
      empty none i h = walk-Inside k v.cwd [] l p j.cwd_inside h
      empty (some d) i h = walk-Inside k d [] l p i h
  resolve-Inside k (c ∷ cs) l p h = elim (Bool-cases (c == slash)) [
    | inl absolute ↦ elim (Bool-cases (is_empty cs)) [
      | inl alone ↦
          subst (λ q. Inside base q.node × NoSlash q.leaf)
            (ok-injective (rw (absolute, alone) at h)) (j.dir_inside, (not_slash, tt))
      | inr more ↦ walk-Inside k v.root_node cs l p j.root_inside (rw (absolute, more) at h)
    ]
    | inr relative ↦
        walk-Inside k (get_or dir v.cwd) (c ∷ cs) l p (start dir j.dir_inside) (rw relative at h)
  ]
    where
      not_slash : 46 ≢ slash
      not_slash h = absurd (omega arith)

      start : (d : Option Node) → Inside base (get_or d v.root_node) → Inside base (get_or d v.cwd)
      start none i = j.cwd_inside
      start (some d) i = i

  -- With the root, the current directory and the directory of the call inside the root's directory:
  -- whatever a path and the links on it say, the directory to which it is resolved is the root's or
  -- lies below it (or below /dev/fs and /dev/ptmx, which the device nodes open), by elements that
  -- are none of "", "." and ".."; the name that is left to look up has no slash; and a change of the
  -- current directory keeps all of this.
  pub resolve-IsJailed :
      (path : Bytes) (l : Bool)
      → ((p : Place (tree os v)) (q : Bytes)
          → resolve (tree os v) v.rounds dir path l ≡ ok p
          → get_real_path p.node ≡ some q
          → InJail base q × NoSlash p.leaf)
        × ((v' : Vfs) → set_cwd os v dir path ≡ ok v' → IsJailed base v' dir)
  unfolding set_cwd
  resolve-IsJailed path l = (
    λ p q h e.
        let (i, clean) = resolve-Inside v.rounds path l p h in
        (Inside-InJail base q p.node i e, clean),
    λ v' h.
        let (n, entered, done) = and_then-ok (enter_path os v dir path true) _ h in
        let (p, found, down) = and_then-ok (resolve (tree os v) v.rounds dir path true) _ entered in
        let (i, clean) = resolve-Inside v.rounds path true p found in
        subst (λ w. IsJailed base w dir) (ok-injective done)
          (record {
            root_inside = j.root_inside;
            cwd_inside = traverse-Inside os base p.node n p.leaf i clean down;
            dir_inside = j.dir_inside;
          }),
  )
