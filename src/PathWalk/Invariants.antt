-- ===== src/PathWalk/Invariants.antt =====
-- src/filesystem/VFSNode.cc: what the nodes keep while a path is followed.
use lbw.Prelude.{ℕ, ◌≡◌, ◌≢◌, Bool, List, [], ◌∷◌, arith, ◌==◌, Bool-cases, inl, inr}
use lbw.Prelude.Results.{ok}
use lbw.Prelude.Flags.{All}
use lbw.Prelude.Text.{Bytes, slash, NoSlash}
use lbw.PathWalk.{Tree, Place, Followed}
use lbw.PathWalk.Elements.{elements, split, trim, onto_first, is_blank}
use lbw.PathWalk.Paths.{Resolves, Follows, Target}

-- The elements of a path have no slashes.
onto_first-All :
    (c : ℕ) (ps : List Bytes) → c ≢ slash → All NoSlash ps → All NoSlash (onto_first c ps)
onto_first-All c [] h a = ((h, tt), tt)
onto_first-All c (p ∷ ps) h a = ((h, a.0), a.1)

split-All : (path : Bytes) → All NoSlash (split path)
unfolding split
split-All [] = (tt, tt)
split-All (c ∷ cs) = elim (Bool-cases (c == slash)) [
  | inl e ↦ rw e (tt, split-All cs)
  | inr e ↦ rw e (onto_first-All c (split cs) (ground arith) (split-All cs))
]

trim-All : (ps : List Bytes) → All NoSlash ps → All NoSlash (trim ps)
unfolding trim
trim-All [] a = tt
trim-All (p ∷ ps) a = elim (Bool-cases (is_blank ps)) [
  | inl e ↦ rw e (a.0, tt)
  | inr e ↦ rw e (a.0, trim-All ps a.1)
]

pub elements-All : (path : Bytes) → All NoSlash (elements path)
elements-All path = trim-All (split path) (split-All path)

-- A property of nodes that the root has and that Traverse keeps.
module _ (t : Tree) (I : Tree.Node t → Type 0) (at_root : I (Tree.root t))
    (kept : (n m : Tree.Node t) (e : Bytes)
      → I n
      → NoSlash e
      → Tree.traverse t n e ≡ ok m
      → I m) where
  mutual
    Resolves-kept :
        {l : Bool} {n : Tree.Node t} {es : List Bytes} {p : Place t}
        → Resolves t l n es p
        → All NoSlash es
        → I n
        → I p.node × NoSlash p.leaf
    Resolves-kept Resolves.here a i = (i, tt)
    Resolves-kept (Resolves.skip d) a i = Resolves-kept d a.1 i
    Resolves-kept (Resolves.last g) a i = Follows-keeps g a.0 i
    Resolves-kept (Resolves.enters {n} {m} {f} g is_dir down rest) a i =
        let (here, clean) = Follows-keeps g a.0 i in
        Resolves-kept rest a.1 (kept f.node m f.element here clean down)

    Follows-keeps :
        {l b : Bool} {n : Tree.Node t} {e : Bytes} {f : Followed t}
        → Follows t l b n e f
        → NoSlash e
        → I n
        → I f.node × NoSlash f.element
    Follows-keeps (Follows.plain known other) a i = (i, a)
    Follows-keeps (Follows.kept known s) a i = (i, a)
    Follows-keeps (Follows.through known s read d g) a i =
        let (here, clean) = Target-keeps d i in Follows-keeps g clean here

    Target-keeps :
        {n : Tree.Node t} {target : Bytes} {p : Place t}
        → Target t n target p
        → I n
        → I p.node × NoSlash p.leaf
    Target-keeps (Target.to_root e) i = (at_root, (λ h. absurd (omega arith), tt))
    Target-keeps (Target.absolute {d} {cs} e r) i = Resolves-kept r (elements-All (d ∷ cs)) at_root
    Target-keeps (Target.relative {target} e r) i = Resolves-kept r (elements-All target) i

  pub Resolves-keeps :
      {l : Bool} {n : Tree.Node t} {p : Place t} (path : Bytes)
      → Resolves t l n (elements path) p
      → I n
      → I p.node × NoSlash p.leaf
  Resolves-keeps path d i = Resolves-kept d (elements-All path) i
