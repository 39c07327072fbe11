-- ===== src/PathWalk/Completeness.antt =====
-- src/filesystem/VFSNode.cc: with enough rounds, the loop of VFSNode::Resolve reaches the place to
-- which a path leads.
use lbw.Prelude.{
  ℕ, zero, suc, ◌+◌, ◌≤◌, ◌≡◌, ◌≢◌, refl, Bool, true, false, not, ◌&&◌, List, [], ◌∷◌, Option, none,
  some, arith, ◌∙◌, sym, ap,
}
use lbw.Prelude.Results.{ok, and_then}
use lbw.Prelude.Text.{Bytes, is_absolute}
use lbw.Nodes.{FileType, directory, link}
use lbw.PathWalk.{Tree, Place, Followed, walk, follow, next_element, stays, target_of}
use lbw.PathWalk.Elements.{elements, Cut, next_element-Cut, elements-cons}
use lbw.PathWalk.Paths.{Resolves, Follows, Target}
use lbw.PathWalk.Refinement.{walk-Resolves}

Cut-last :
    (path e : Bytes) (r : Bytes × Option Bytes)
    → Cut path r
    → elements path ≡ e ∷ []
    → r ≡ (e, none)
Cut-last path e (e', none) h k = let q : e' ∷ [] ≡ e ∷ [] = sym h ∙ k in cc
Cut-last path e (e', some r) h k =
    let (d, ds, more) = elements-cons r in
    let q : e' ∷ d ∷ ds ≡ e ∷ [] = sym (h ∙ ap (◌∷◌ e') more) ∙ k in cc

Cut-more :
    (path e d : Bytes) (ds : List Bytes) (r : Bytes × Option Bytes)
    → Cut path r
    → elements path ≡ e ∷ d ∷ ds
    → (rest : Bytes) × (r ≡ (e, some rest)) × (elements rest ≡ d ∷ ds)
Cut-more path e d ds (e', none) h k = let q : e' ∷ [] ≡ e ∷ d ∷ ds = sym h ∙ k in cc
Cut-more path e d ds (e', some r) h k =
    let q : e' ∷ elements r ≡ e ∷ d ∷ ds = sym h ∙ k in (r, cc, cc)

from_suc : (k : ℕ) (P : ℕ → Type 0) → ((f : ℕ) → k ≤ f → P (suc f)) → (f : ℕ) → suc k ≤ f → P f
from_suc k P h zero lt = absurd (omega arith)
from_suc k P h (suc f) lt = h f (omega arith)

module _ (t : Tree) where
  open t use {Node, root, get_file_type, read_link, traverse}

  stays-other : (ty : FileType) (l b : Bool) → ty ≢ link → stays t ty l b ≡ true
  stays-other link l b h = absurd (h refl)
  stays-other _ l b h = refl

  abbrev Found : Node → Bytes → Bool → Place t → Type 0
  Found n path l p = (k : ℕ) × ((f : ℕ) → k ≤ f → walk t f n path l ≡ ok p)

  abbrev Ends : Node → Bytes → Bool → Bool → Followed t → Type 0
  Ends n e b l g = (k : ℕ) × ((f : ℕ) → k ≤ f → follow t f n e b l ≡ ok g)

  abbrev Reaches : Node → Bytes → Place t → Type 0
  Reaches n target p =
      (k : ℕ) × ((f : ℕ) → k ≤ f → target_of t n target (λ n p. walk t f n p true) ≡ ok p)

  Found-here :
      (n : Node) (path : Bytes) (l : Bool)
      → next_element path ≡ ([], none)
      → Found n path l (record { node = n; leaf = [] })
  unfolding walk
  Found-here n path l e = (1, from_suc 0 _ (λ f h. rw (e, walk)))

  Found-skip :
      (n : Node) (path r : Bytes) (l : Bool) (p : Place t)
      → next_element path ≡ ([], some r)
      → Found n r l p
      → Found n path l p
  unfolding walk
  Found-skip n path r l p e (k, found) = (suc k, from_suc k _ (λ f h. rw (e, walk) (found f h)))

  Found-last :
      (n : Node) (path : Bytes) (c : ℕ) (cs : Bytes) (l : Bool) (g : Followed t)
      → next_element path ≡ (c ∷ cs, none)
      → Ends n (c ∷ cs) true l g
      → Found n path l (record { node = g.node; leaf = g.element })
  unfolding walk
  Found-last n path c cs l g e (k, ends) = (suc k, from_suc k _ (λ f h. rw (e, walk, ends f h)))

  Found-enters :
      (n m : Node) (path r : Bytes) (c : ℕ) (cs : Bytes) (l : Bool) (g : Followed t) (p : Place t)
      → next_element path ≡ (c ∷ cs, some r)
      → Ends n (c ∷ cs) false l g
      → g.type ≡ directory
      → traverse g.node g.element ≡ ok m
      → Found m r l p
      → Found n path l p
  unfolding walk
  Found-enters n m path r c cs l g p e (k, ends) d down (k', found) = (
    suc (k + k'),
    from_suc (k + k') _
        (λ f h. rw (e, walk, ends f (omega arith), d, down) (found f (omega arith))),
  )

  Ends-stays :
      (n : Node) (e : Bytes) (b l : Bool) (ty : FileType)
      → get_file_type n e ≡ ok ty
      → stays t ty l b ≡ true
      → Ends n e b l (record { node = n; element = e; type = ty })
  unfolding follow
  Ends-stays n e b l ty known s = (1, from_suc 0 _ (λ f h. rw (known, follow, and_then) (rw s)))

  Ends-through :
      (n : Node) (e target : Bytes) (b l : Bool) (p : Place t) (g : Followed t)
      → get_file_type n e ≡ ok link
      → (not l && b) ≡ false
      → read_link n e ≡ ok target
      → Reaches n target p
      → Ends p.node p.leaf b l g
      → Ends n e b l g
  unfolding follow
  Ends-through n e target b l p g known s read (k, reached) (k', ends) = (
    suc (k + k'),
    from_suc (k + k') _ (λ f h.
        rw (known, follow, and_then)
          (rw s (rw (read, and_then) (rw (reached f (omega arith)) (ends f (omega arith)))))),
  )

  relative_target :
      (n : Node) (target : Bytes) (p : Place t) (f : ℕ)
      → is_absolute target ≡ false
      → walk t f n target true ≡ ok p
      → target_of t n target (λ n p. walk t f n p true) ≡ ok p
  relative_target n [] p f e h = h
  relative_target n (c ∷ cs) p f e h = rw (e, target_of) h

  mutual
    Resolves-complete :
        {l : Bool} {n : Node} {es : List Bytes} {p : Place t}
        → Resolves t l n es p
        → (path : Bytes) → elements path ≡ es
        → Found n path l p
    Resolves-complete (Resolves.here {l} {n}) path q =
        Found-here n path l (Cut-last path [] _ (next_element-Cut path) q)
    Resolves-complete (Resolves.skip {l} {n} {e} {es} {p} d) path q =
        let (r, cut, rest) = Cut-more path [] e es _ (next_element-Cut path) q in
        Found-skip n path r l p cut (Resolves-complete d r rest)
    Resolves-complete (Resolves.last {l} {n} {c} {cs} {f} g) path q =
        Found-last n path c cs l f (Cut-last path (c ∷ cs) _ (next_element-Cut path) q)
          (Follows-complete g)
    Resolves-complete (Resolves.enters {l} {n} {m} {c} {cs} {e} {es} {f} {p} g d down rest) path q =
        let (r, cut, more) = Cut-more path (c ∷ cs) e es _ (next_element-Cut path) q in
        Found-enters n m path r c cs l f p cut (Follows-complete g) d down
          (Resolves-complete rest r more)

    Follows-complete :
        {l b : Bool} {n : Node} {e : Bytes} {g : Followed t} → Follows t l b n e g → Ends n e b l g
    Follows-complete (Follows.plain {l} {b} {n} {e} {k} known other) =
        Ends-stays n e b l k known (stays-other k l b other)
    Follows-complete (Follows.kept {l} {b} {n} {e} known s) = Ends-stays n e b l link known s
    Follows-complete (Follows.through {l} {b} {n} {e} {target} {p} {f} known s read d g) =
        Ends-through n e target b l p f known s read (Target-complete d) (Follows-complete g)

    Target-complete :
        {n : Node} {target : Bytes} {p : Place t} → Target t n target p → Reaches n target p
    Target-complete (Target.to_root {n} {c} e) = (0, λ f h. rw (e, target_of))
    Target-complete (Target.absolute {n} {c} {d} {cs} {p} e r) =
        let (k, found) = Resolves-complete r (d ∷ cs) refl in
        (k, λ f h. rw (e, target_of) (found f h))
    Target-complete (Target.relative {n} {target} {p} e r) =
        let (k, found) = Resolves-complete r target refl in
        (k, λ f h. relative_target n target p f e (found f h))

  -- VFSNode::Resolve finds exactly the places to which the elements of the path lead: what it returns,
  -- after whatever number of rounds, is such a place, and every such place is what it returns once
  -- enough rounds are allowed.
  pub walk_iff :
      (n : Node) (path : Bytes) (l : Bool) (p : Place t)
      → ((f : ℕ) → walk t f n path l ≡ ok p → Resolves t l n (elements path) p)
        × (Resolves t l n (elements path) p
            → (k : ℕ) × ((f : ℕ) → k ≤ f → walk t f n path l ≡ ok p))
  walk_iff n path l p = (λ f h. walk-Resolves t f n path l p h, λ d. Resolves-complete d path refl)
