-- ===== src/PathWalk/Elements.antt =====
-- src/filesystem/VFSNode.cc: how VFSNode::Resolve cuts a path into elements.
use lbw.Prelude.{
  ℕ, ◌≡◌, refl, ◌≢◌, Bool, true, false, List, [], ◌∷◌, Option, none, some, ◌==◌, ◌∙◌, if◌then◌else◌,
  ap, Bool-cases, inl, inr,
}
use lbw.Prelude.Text.{Bytes, slash, is_empty}
use lbw.PathWalk.{next_element}

-- The pieces between the slashes.
abbrev pub onto_first : ℕ → List Bytes → List Bytes
onto_first c [] = (c ∷ []) ∷ []
onto_first c (p ∷ ps) = (c ∷ p) ∷ ps

unfoldable pub split : Bytes → List Bytes
split [] = [] ∷ []
split (c ∷ cs) = if c == slash then [] ∷ split cs else onto_first c (split cs)

-- An empty last piece is dropped, unless it is the only one.
abbrev pub is_blank : List Bytes → Bool
is_blank ([] ∷ []) = true
is_blank _ = false

unfoldable pub trim : List Bytes → List Bytes
trim [] = []
trim (p ∷ ps) = p ∷ (let rest = trim ps in if is_blank ps then [] else rest)

abbrev pub elements : Bytes → List Bytes
elements path = trim (split path)

-- The loop's view of the pieces: the first, and whether more come.
abbrev pub Cut : Bytes → Bytes × Option Bytes → Type 0
Cut path (e, none) = elements path ≡ e ∷ []
Cut path (e, some r) = (elements path ≡ e ∷ elements r)

pub split-ne-nil : (cs : Bytes) → split cs ≢ []
unfolding split
split-ne-nil [] h = cc
split-ne-nil (c ∷ cs) h = elim (Bool-cases (c == slash)) [
  | inl e ↦ cc (rw e at h)
  | inr e ↦ filled (split cs) (rw e at h)
]
  where
    filled : (ps : List Bytes) → onto_first c ps ≢ []
    filled [] h = cc
    filled (p ∷ ps) h = cc

trim-onto_first : (c : ℕ) (ps : List Bytes) → trim (onto_first c ps) ≡ onto_first c (trim ps)
unfolding trim
trim-onto_first c [] = refl
trim-onto_first c (p ∷ ps) = refl

is_blank-split : (c : ℕ) (cs : Bytes) → is_blank (split (c ∷ cs)) ≡ false
unfolding split
is_blank-split c cs = elim (Bool-cases (c == slash)) [
  | inl e ↦ rw e (two (split cs) (split-ne-nil cs))
  | inr e ↦ rw e (longer (split cs))
]
  where
    two : (ps : List Bytes) → ps ≢ [] → is_blank ([] ∷ ps) ≡ false
    two [] h = absurd (h refl)
    two (p ∷ ps) h = refl

    longer : (ps : List Bytes) → is_blank (onto_first c ps) ≡ false
    longer [] = refl
    longer (p ∷ ps) = refl

Cut-longer :
    (c : ℕ) (cs : Bytes) (r : Bytes × Option Bytes)
    → elements (c ∷ cs) ≡ onto_first c (elements cs)
    → Cut cs r
    → Cut (c ∷ cs) (c ∷ r.0, r.1)
Cut-longer c cs (e, none) h k = h ∙ ap (onto_first c) k
Cut-longer c cs (e, some r) h k = h ∙ ap (onto_first c) k

pub next_element-Cut : (path : Bytes) → Cut path (next_element path)
unfolding next_element split trim
next_element-Cut [] = refl
next_element-Cut (c ∷ cs) = elim (Bool-cases (c == slash)) [
  | inl e ↦ rw (e, next_element) (at_slash c cs e)
  | inr e ↦
      rw (e, next_element)
        (Cut-longer c cs (next_element cs) (rw e (trim-onto_first c (split cs)))
          (next_element-Cut cs))
]
  where
    at_slash :
        (c : ℕ) (cs : Bytes)
        → (c == slash) ≡ true
        → Cut (c ∷ cs) ([], if is_empty cs then none else some cs)
    at_slash c [] e = rw e
    at_slash c (d ∷ ds) e = rw (e, is_blank-split d ds)

-- A path has at least one element, which may be empty.
Cut-cons :
    (path : Bytes) (r : Bytes × Option Bytes)
    → Cut path r
    → (e : Bytes) × (es : List Bytes) × (elements path ≡ e ∷ es)
Cut-cons path (e, none) h = (e, [], h)
Cut-cons path (e, some r) h = (e, elements r, h)

pub elements-cons : (path : Bytes) → (e : Bytes) × (es : List Bytes) × (elements path ≡ e ∷ es)
elements-cons path = Cut-cons path (next_element path) (next_element-Cut path)
