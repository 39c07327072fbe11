-- ===== src/PathWalk/Refinement.antt =====
-- src/filesystem/VFSNode.cc: the loop of VFSNode::Resolve finds the place to which a path leads, and
-- no other.
use lbw.Prelude.{
  ℕ, zero, suc, ◌≡◌, ◌≢◌, refl, Bool, true, false, not, ◌&&◌, [], ◌∷◌, Option, none, some, ◌==◌,
  inl, inr, ◌⊎◌, ◌∙◌, sym, subst, subst₂, ap,
}
use lbw.Prelude.Results.{Result, ok, and_then, and_then-ok, ok-injective}
use lbw.Prelude.Text.{Bytes, codes, slash, is_empty}
use lbw.Nodes.{FileType, directory, link}
use lbw.PathWalk.{
  Tree, Place, Followed, walk, follow, next_element, is_last, stays, enter, round, finish_round,
  target_of,
}
use lbw.PathWalk.Elements.{elements, Cut, next_element-Cut, elements-cons}
use lbw.PathWalk.Paths.{Resolves, Follows, Target}

module _ (t : Tree) where
  open t use {Node, root, get_file_type, read_link, traverse}

  abbrev WalkSound : ℕ → Type 0
  WalkSound k =
      (n : Node) (path : Bytes) (l : Bool) (p : Place t)
      → walk t k n path l ≡ ok p
      → Resolves t l n (elements path) p

  abbrev FollowSound : ℕ → Type 0
  FollowSound k =
      (n : Node) (e : Bytes) (b l : Bool) (f : Followed t)
      → follow t k n e b l ≡ ok f
      → Follows t l b n e f

  enter-ok :
      (k : FileType) (down : Result Node) {m : Node}
      → enter t k down ≡ ok m
      → (k ≡ directory) × (down ≡ ok m)
  enter-ok directory down h = (refl, h)
  enter-ok _ down h = cc

  skip_all :
      {l : Bool} {n : Node} {p : Place t} (path : Bytes)
      → Resolves t l n (elements path) p
      → Resolves t l n ([] ∷ elements path) p
  skip_all {l} {n} {p} path h =
      let (e, es, q) = elements-cons path in
      subst (λ xs. Resolves t l n ([] ∷ xs) p) (sym q)
        (Resolves.skip (subst (λ xs. Resolves t l n xs p) q h))

  enters_all :
      {l : Bool} {n m : Node} {p : Place t} {f : Followed t} (c : ℕ) (cs path : Bytes)
      → Follows t l false n (c ∷ cs) f
      → f.type ≡ directory
      → traverse f.node f.element ≡ ok m
      → Resolves t l m (elements path) p
      → Resolves t l n ((c ∷ cs) ∷ elements path) p
  enters_all {l} {n} {m} {p} c cs path g d m' h =
      let (e, es, q) = elements-cons path in
      subst (λ xs. Resolves t l n ((c ∷ cs) ∷ xs) p) (sym q)
        (Resolves.enters g d m' (subst (λ xs. Resolves t l m xs p) q h))

  round_sound :
      (k : ℕ) (n : Node) (path : Bytes) (l : Bool) (p : Place t) (r : Bytes × Option Bytes)
      → WalkSound k
      → FollowSound k
      → Cut path r
      → round t n r
          (λ r. walk t k n r l)
          (λ element after.
            and_then
              (follow t k n element (is_last after) l)
              (λ f. finish_round t f after (λ n r. walk t k n r l)))
        ≡ ok p
      → Resolves t l n (elements path) p
  round_sound k n path l p ([], none) w f cut h =
      subst₂ (λ xs q. Resolves t l n xs q) (sym cut) (ok-injective h) Resolves.here
  round_sound k n path l p ([], some r) w f cut h =
      subst (λ xs. Resolves t l n xs p) (sym cut) (skip_all r (w n r l p h))
  round_sound k n path l p (c ∷ cs, none) w f cut h =
      let (g, found, done) = and_then-ok (follow t k n (c ∷ cs) true l) _ h in
      subst₂ (λ xs q. Resolves t l n xs q) (sym cut) (ok-injective done)
        (Resolves.last (f n (c ∷ cs) true l g found))
  round_sound k n path l p (c ∷ cs, some r) w f cut h =
      let (g, found, on) = and_then-ok (follow t k n (c ∷ cs) false l) _ h in
      let (m, entered, rest) = and_then-ok (enter t g.type (traverse g.node g.element)) _ on in
      let (is_dir, down) = enter-ok g.type (traverse g.node g.element) entered in
      subst (λ xs. Resolves t l n xs p) (sym cut)
        (enters_all c cs r (f n (c ∷ cs) false l g found) is_dir down (w m r l p rest))

  Target-sound :
      (k : ℕ) (n : Node) (target : Bytes) (p : Place t)
      → WalkSound k
      → target_of t n target (λ n p. walk t k n p true) ≡ ok p
      → Target t n target p
  Target-sound k n [] p w h = Target.relative refl (w n [] true p h)
  Target-sound k n (c ∷ cs) p w h = at_slash c cs (c == slash) refl h
    where
      alone :
          (c : ℕ) (cs : Bytes)
          → (c == slash) ≡ true
          → elim (is_empty cs) [
            | true ↦ ok (record { node = root; leaf = codes "." })
            | false ↦ walk t k root cs true
          ]
            ≡ ok p
          → Target t n (c ∷ cs) p
      alone c [] e h = subst (λ q. Target t n (c ∷ []) q) (ok-injective h) (Target.to_root e)
      alone c (d ∷ ds) e h = Target.absolute e (w root (d ∷ ds) true p h)

      at_slash :
          (c : ℕ) (cs : Bytes) (b : Bool)
          → (c == slash) ≡ b
          → elim b [
            | true ↦ elim (is_empty cs) [
              | true ↦ ok (record { node = root; leaf = codes "." })
              | false ↦ walk t k root cs true
            ]
            | false ↦ walk t k n (c ∷ cs) true
          ]
            ≡ ok p
          → Target t n (c ∷ cs) p
      at_slash c cs true e h = alone c cs e h
      at_slash c cs false e h = Target.relative e (w n (c ∷ cs) true p h)

  stays-cases :
      (ty : FileType) (l b : Bool)
      → stays t ty l b ≡ true
      → (ty ≢ link) ⊎ ((ty ≡ link) × ((not l && b) ≡ true))
  stays-cases link l b h = inr (refl, h)
  stays-cases _ l b h = inl (λ e. cc)

  stays-false :
      (ty : FileType) (l b : Bool) → stays t ty l b ≡ false → (ty ≡ link) × ((not l && b) ≡ false)
  stays-false link l b h = (refl, h)
  stays-false _ l b h = cc

  follow_sound :
      (k : ℕ) (n : Node) (e : Bytes) (b l : Bool) (f : Followed t) (ty : FileType) (s : Bool)
      → WalkSound k
      → FollowSound k
      → get_file_type n e ≡ ok ty
      → stays t ty l b ≡ s
      → elim s [
        | true ↦ ok (record { node = n; element = e; type = ty })
        | false ↦ and_then (read_link n e) λ target.
            and_then
              (target_of t n target (λ n p. walk t k n p true))
              λ p. follow t k p.node p.leaf b l
      ]
        ≡ ok f
      → Follows t l b n e f
  follow_sound k n e b l f ty true w g known s h =
      subst (λ q. Follows t l b n e q) (ok-injective h)
        (elim (stays-cases ty l b s) [
          | inl other ↦ Follows.plain known other
          | inr (same, kept) ↦ rw same (Follows.kept (known ∙ ap ok same) kept)
        ])
  follow_sound k n e b l f ty false w g known s h =
      let (same, on) = stays-false ty l b s in
      let (target, read, h₁) = and_then-ok (read_link n e) _ h in
      let (p, reached, h₂) = and_then-ok (target_of t n target (λ n p. walk t k n p true)) _ h₁ in
      Follows.through (known ∙ ap ok same) on read (Target-sound k n target p w reached)
        (g p.node p.leaf b l f h₂)

  sound : (k : ℕ) → WalkSound k × FollowSound k
  unfolding walk follow
  sound zero = (λ n path l p h. cc, λ n e b l f h. cc)
  sound (suc k) = (
    λ n path l p h.
        round_sound k n path l p (next_element path) (sound k).0 (sound k).1 (next_element-Cut path)
          h,
    λ n e b l f h.
        let (ty, known, on) = and_then-ok (get_file_type n e) _ h in
        follow_sound k n e b l f ty (stays t ty l b) (sound k).0 (sound k).1 known refl on,
  )

  pub walk-Resolves :
      (k : ℕ) (n : Node) (path : Bytes) (l : Bool) (p : Place t)
      → walk t k n path l ≡ ok p
      → Resolves t l n (elements path) p
  walk-Resolves k = (sound k).0
