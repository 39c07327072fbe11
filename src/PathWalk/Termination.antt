-- ===== src/PathWalk/Termination.antt =====
-- src/filesystem/VFSNode.cc: when the loop of VFSNode::Resolve ends.
use lbw.Prelude.{
  ℕ, zero, suc, ◌+◌, ◌-◌, ◌≤◌, ◌≡◌, ◌≢◌, refl, Bool, true, false, [], ◌∷◌, Option, none, some,
  arith, ◌==◌, length, Bool-cases, inl, inr, if◌then◌else◌, ap, subst,
}
use lbw.Prelude.Results.{Result, ok, throw, fault, and_then, Fault, out_of_fuel}
use lbw.Prelude.Text.{Bytes, slash, NoSlash, is_empty}
use lbw.Nodes.{FileType, link, directory}
use lbw.PathWalk.{
  Tree, Place, Followed, walk, follow, next_element, is_last, stays, finish_round, target_of, round,
}

-- What is left of a path after an element is shorter.
abbrev Shorter : Bytes → Option Bytes → Type 0
Shorter path none = Unit
Shorter path (some r) = suc (length r) ≤ length path

next_element-Shorter : (path : Bytes) → Shorter path (next_element path).1
unfolding next_element
next_element-Shorter [] = tt
next_element-Shorter (c ∷ cs) = elim (Bool-cases (c == slash)) [
  | inl e ↦ rw e (at_slash cs)
  | inr e ↦ rw e (grow (next_element cs).1 (next_element-Shorter cs))
]
  where
    at_slash : (cs : Bytes) → Shorter (c ∷ cs) (if is_empty cs then none else some cs)
    at_slash [] = tt
    at_slash (d ∷ ds) = omega arith

    grow : (o : Option Bytes) → Shorter cs o → Shorter (c ∷ cs) o
    grow none h = tt
    grow (some r) h = omega arith

same_fault :
    {A B : Type 0} {x y : Fault}
    → ◌≡◌ {A = Result A} (fault x) (fault y)
    → ◌≡◌ {A = Result B} (fault x) (fault y)
same_fault h = cc

differs : (c : ℕ) → c ≢ slash → (c == slash) ≡ false
differs c h = ground arith

-- An element alone.
next_element-NoSlash : (e : Bytes) → NoSlash e → next_element e ≡ (e, none)
unfolding next_element
next_element-NoSlash [] h = refl
next_element-NoSlash (c ∷ cs) h = rw (differs c h.0, next_element-NoSlash cs h.1)

module _ (t : Tree) where
  open t use {Node, get_file_type, read_link, traverse}

  -- No symbolic links, and nodes whose methods end.
  pub record IsPlain : Type 0 where
    pub no_links : (n : Node) (e : Bytes) → get_file_type n e ≢ ok link
    pub types_end : (n : Node) (e : Bytes) → get_file_type n e ≢ fault out_of_fuel
    pub traverse_ends : (n : Node) (e : Bytes) → traverse n e ≢ fault out_of_fuel

  -- Without links the loop over links ends at once, at the element that it was given.
  stays_plain : (ty : FileType) (l b : Bool) → ty ≢ link → stays t ty l b ≡ true
  stays_plain link l b h = absurd (h refl)
  stays_plain _ l b h = refl

  abbrev found_type : Node → Bytes → Result FileType → Result (Followed t)
  found_type n e r = and_then r (λ ty. ok (record { node = n; element = e; type = ty }))

  follow_plain :
      (k : ℕ) (n : Node) (e : Bytes) (b l : Bool) (r : Result FileType)
      → get_file_type n e ≡ r
      → r ≢ ok link
      → follow t (suc k) n e b l ≡ found_type n e r
  unfolding follow
  follow_plain k n e b l (ok ty) known other =
      rw (known, follow, and_then) (rw (stays_plain ty l b (λ same. other (ap ok same))))
  follow_plain k n e b l (throw x) known other = rw (known, follow)
  follow_plain k n e b l (fault x) known other = rw (known, follow)

  finish_ends :
      (n : Node) (e : Bytes) (after : Option Bytes) (next : Node → Bytes → Result (Place t))
      (r : Result FileType)
      → r ≢ ok link
      → r ≢ fault out_of_fuel
      → traverse n e ≢ fault out_of_fuel
      → ((m : Node) (rest : Bytes) → after ≡ some rest → next m rest ≢ fault out_of_fuel)
      → and_then (found_type n e r) (λ f. finish_round t f after next) ≢ fault out_of_fuel
  finish_ends n e none next (ok ty) other ends down rest h = cc
  finish_ends n e after next (throw x) other ends down rest h = cc
  finish_ends n e after next (fault x) other ends down rest h = ends (same_fault h)
  finish_ends n e (some r) next (ok link) other ends down rest h = other refl
  finish_ends n e (some r) next (ok directory) other ends down rest h = below (traverse n e) down h
    where
      below :
          (m : Result Node) → m ≢ fault out_of_fuel → and_then m (λ n. next n r) ≢ fault out_of_fuel
      below (ok m) d h = rest m r refl h
      below (throw x) d h = cc
      below (fault x) d h = d (same_fault h)
  finish_ends n e (some r) next (ok _) other ends down rest h = cc

  module _ (plain : IsPlain) where
    round_ends :
        (k : ℕ) (n : Node) (path : Bytes) (l : Bool) (r : Bytes × Option Bytes)
        → Shorter path r.1
        → ((m : Node) (rest : Bytes)
            → suc (length rest) ≤ length path
            → walk t (suc k) m rest l ≢ fault out_of_fuel)
        → round t n r
            (λ r. walk t (suc k) n r l)
            (λ element after.
              and_then
                (follow t (suc k) n element (is_last after) l)
                (λ f. finish_round t f after (λ n r. walk t (suc k) n r l)))
          ≢ fault out_of_fuel
    round_ends k n path l ([], none) short ends h = cc
    round_ends k n path l ([], some r) short ends h = ends n r short h
    round_ends k n path l (c ∷ cs, after) short ends h =
        finish_ends n (c ∷ cs) after (λ n r. walk t (suc k) n r l) (get_file_type n (c ∷ cs))
          (plain.no_links n (c ∷ cs)) (plain.types_end n (c ∷ cs)) (plain.traverse_ends n (c ∷ cs))
          (λ m rest e. ends m rest (subst (Shorter path) e short))
          (rw
            (follow_plain k n (c ∷ cs) (is_last after) l (get_file_type n (c ∷ cs)) refl
              (plain.no_links n (c ∷ cs)))
            at h)

    walk_ends :
        (k : ℕ) (n : Node) (path : Bytes) (l : Bool)
        → length path ≤ k
        → walk t (suc (suc k)) n path l ≢ fault out_of_fuel
    unfolding walk
    walk_ends zero n path l h =
        round_ends zero n path l (next_element path) (next_element-Shorter path)
          (λ m rest short. absurd (omega arith))
    walk_ends (suc k) n path l h =
        round_ends (suc k) n path l (next_element path) (next_element-Shorter path)
          (λ m rest short. walk_ends k m rest l (omega arith))

    -- Where no file is a symbolic link and the methods of the nodes end, the loop ends: two rounds
    -- more than the path has bytes are enough for every node and every path, and so is every larger
    -- number of rounds.
    pub walk_total :
        (k : ℕ) (n : Node) (path : Bytes) (l : Bool)
        → length path + 2 ≤ k
        → walk t k n path l ≢ fault out_of_fuel
    walk_total k n path l h e =
        walk_ends (k - 2) n path l (omega arith)
          (subst (λ j. walk t j n path l ≡ fault out_of_fuel) (two k (omega arith)) e)
      where
        two : (k : ℕ) → 2 ≤ k → k ≡ suc (suc (k - 2))
        two k h = omega arith

  module _ (n : Node) (c : ℕ) (cs : Bytes) (clean : NoSlash (c ∷ cs))
      (is_link : get_file_type n (c ∷ cs) ≡ ok link)
      (itself : read_link n (c ∷ cs) ≡ ok (c ∷ cs)) where
    loops :
        (k : ℕ)
        → (walk t k n (c ∷ cs) true ≡ fault out_of_fuel)
          × (follow t k n (c ∷ cs) true true ≡ fault out_of_fuel)
    unfolding walk follow
    loops zero = (refl, refl)
    loops (suc k) = (
      rw (next_element-NoSlash (c ∷ cs) clean, walk) (rw (loops k).1),
      rw (is_link, follow, and_then)
          (rw (itself, and_then) (rw (differs c clean.0, target_of) (rw ((loops k).0, and_then)))),
    )

    -- A symbolic link whose target is its own name, which is not empty and has no slash, is followed
    -- for ever: no number of rounds is enough.
    pub walk-itself : (k : ℕ) → walk t k n (c ∷ cs) true ≡ fault out_of_fuel
    walk-itself k = (loops k).0
