-- ===== src/ExceptionHandler/Fragments.antt =====
-- src/ehandler.cc: allocateFragment, whose fragments do not overlap.
use lbw.Prelude.{
  ℕ, ◌+◌, ◌-◌, ◌≡◌, ◌≤◌, refl, subst, sym, Bool, true, false, List, ◌∷◌, Option, none, some, ltb,
  if◌then◌else◌, arith, inl, ◌⊎◌,
}
use lbw.Prelude.Flags.{All, All-map}
use lbw.Prelude.Results.{Result, ok, throw, fault, continue}
use lbw.ExceptionHandler.{Process, allocate_fragment, fitting_block, new_block}

-- Two regions, by their first bytes and their lengths, that share no byte.
abbrev pub Apart : ℕ → ℕ → ℕ → ℕ → Type 0
Apart a n b k = a + n ≤ b ⊎ b + k ≤ a

-- What is left of the block: where it starts, and how much it is.
abbrev pub left_at : Option ℕ → ℕ → ℕ
left_at none index = 0
left_at (some b) index = b + index

abbrev pub left_size : Option ℕ → ℕ → ℕ
left_size none index = 0
left_size (some b) index = 0x10000 - index

abbrev pub IsWithin : Option ℕ → ℕ → Type 0
IsWithin none index = Unit
IsWithin (some b) index = index ≤ 0x10000

-- The block's index is not past its end, and the rest of the block holds none of the fragments
-- handed out, given as addresses and sizes.
abbrev pub IsClear : List (ℕ × ℕ) → Option ℕ → ℕ → Type 0
IsClear fragments block index =
    IsWithin block index
    × All (λ f. Apart f.0 f.1 (left_at block index) (left_size block index)) fragments

-- The rest behind a new fragment, and the fragment, are parts of the rest before.
shrink :
    (b index size : ℕ) (f : ℕ × ℕ)
    → index + size ≤ 0x10000
    → Apart f.0 f.1 (b + index) (0x10000 - index)
    → Apart f.0 f.1 (b + (index + size)) (0x10000 - (index + size)) × Apart (b + index) size f.0 f.1
shrink b index size (a, n) fits h = ground arith

-- Taking a fragment from a block with room for it.
taken :
    (fragments : List (ℕ × ℕ)) (b index size : ℕ)
    → index + size ≤ 0x10000
    → All (λ f. Apart f.0 f.1 (b + index) (0x10000 - index)) fragments
    → All (λ f. Apart (b + index) size f.0 f.1) fragments
      × IsClear ((b + index, size) ∷ fragments) (some b) (index + size)
taken fragments b index size fits clear = (
  All-map _ _ fragments (λ f h. (shrink b index size f fits h).1) clear,
  (
    fits,
    (inl (omega arith), All-map _ _ fragments (λ f h. (shrink b index size f fits h).0) clear),
  ),
)

module _ {S : Type 0} (map_block : S → Option ℕ × S) (s : Process S) where
  abbrev alloc : ℕ → Result ℕ × Process S
  alloc size = allocate_fragment map_block size s

  -- A block that mmap returns holds none of the fragments.
  abbrev pub NewIsClear : List (ℕ × ℕ) → Option ℕ → Type 0
  NewIsClear fragments none = Unit
  NewIsClear fragments (some b) = All (λ f. Apart f.0 f.1 (b + 0) (0x10000 - 0)) fragments

  abbrev pub Fresh : List (ℕ × ℕ) → ℕ → Result ℕ × Process S → Type 0
  Fresh fragments size (ok f, s') =
      All (λ g. Apart f size g.0 g.1) fragments × IsClear ((f, size) ∷ fragments) s'.block s'.index
  Fresh fragments size (throw e, s') = (s'.block ≡ s.block) × (s'.index ≡ s.index)
  Fresh fragments size (fault x, s') = Unit

  from_new :
      (fragments : List (ℕ × ℕ)) (size : ℕ) (r : Option ℕ × S)
      → size ≤ 0x10000
      → NewIsClear fragments r.0
      → Fresh fragments size (
          continue
            (new_block map_block r s)
            (λ a s. (ok (a + s.index), record s { index = s.index + size })))
  from_new fragments size (none, pages) fits clear = (refl, refl)
  from_new fragments size (some b, pages) fits clear = taken fragments b 0 size (omega arith) clear

  -- allocateFragment: let the rest of its block hold none of the fragments handed out before, and
  -- no block that mmap returns hold one. Then a fragment of at most 64 kB that is returned shares
  -- no byte with the others, and the rest of the block holds none of them nor the new one. Where
  -- mmap fails, the block and the index stay.
  pub allocate_fragment_lem :
      (fragments : List (ℕ × ℕ)) (size : ℕ)
      → size ≤ 0x10000
      → IsClear fragments s.block s.index
      → NewIsClear fragments (map_block s.pages).0
      → Fresh fragments size (allocate_fragment map_block size s)
  unfolding allocate_fragment
  allocate_fragment_lem fragments size fits clear new = by_block s.block clear refl
    where
      by_block :
          (block : Option ℕ)
          → IsClear fragments block s.index
          → s.block ≡ block
          → Fresh fragments size (
              continue
                (fitting_block map_block size block s)
                (λ a s. (ok (a + s.index), record s { index = s.index + size })))
      by_block none clear e = from_new fragments size (map_block s.pages) fits new
      by_block (some b) clear e = by_room (ltb 0x10000 (s.index + size)) refl
        where
          by_room :
              (full : Bool)
              → ltb 0x10000 (s.index + size) ≡ full
              → Fresh fragments size (
                  continue
                    (if full then new_block map_block (map_block s.pages) s else (ok b, s))
                    (λ a s. (ok (a + s.index), record s { index = s.index + size })))
          by_room true full = from_new fragments size (map_block s.pages) fits new
          by_room false room =
              let (apart, clear') = taken fragments b s.index size (ground arith) clear.1 in
              (
                apart,
                subst (λ x. IsClear ((b + s.index, size) ∷ fragments) x (s.index + size)) (sym e)
                    clear',
              )
