-- ===== src/BlockStore/Ranges.antt =====
-- src/syscalls/mmap.cc: a loop over the pages of a range, each round of which sets one page to a
-- given use, sets exactly the pages of the range.
use lbw.Prelude.{
  ℕ, ◌+◌, ◌/◌, ◌%◌, ◌≤◌, ◌<◌, ◌≡◌, refl, Bool, ◌&&◌, arith, ltb, leb, ◌==◌, if◌then◌else◌,
}
use lbw.Prelude.Results.{Exec, ok}
use lbw.MemOp.{add32}
use lbw.BlockStore.{Store, page_size, for_each, loop_fuel}
use lbw.BlockStore.Usage.{used, IsValid}
use lbw.BlockStore.Pages.{page_address, page_count}
use lbw.BlockStore.Loops.{for_each_lem}

-- Whether a page lies among n pages from p on.
abbrev pub in_range : ℕ → ℕ → ℕ → Bool
in_range p n r = leb p r && ltb r (p + n)

-- How many pages a length touches.
abbrev pub pages_in : ℕ → ℕ
pages_in len = (len + 0xfff) / page_size

pub add32-page_address :
    (p i : ℕ)
    → i % page_size ≡ 0
    → p + i / page_size < page_count
    → add32 (page_address p) i ≡ page_address (p + i / page_size)
add32-page_address p i m h = omega arith

module _ {M : Type 0} (body : ℕ → Exec (Store M) Unit) (p len : ℕ) (b : Bool)
    (fits : p + pages_in len ≤ page_count)
    (touch : (i : ℕ) (s : Store M)
      → i % page_size ≡ 0
      → p + i / page_size < page_count
      → IsValid s
      → (s' : Store M) × (body i s ≡ (ok tt, s'))
        × IsValid s'
        × ((r : ℕ) → used s' r ≡ (if r == p + i / page_size then b else used s r))) where
  -- The store after the pages below i.
  abbrev Done : Store M → ℕ → Store M → Type 0
  Done s i s' =
      (i % page_size ≡ 0)
      × IsValid s'
      × ((r : ℕ) → used s' r ≡ (if in_range p (i / page_size) r then b else used s r))

  round :
      (s : Store M) (i : ℕ) (s₁ : Store M)
      → i < len
      → Done s i s₁
      → (s₂ : Store M) × (body i s₁ ≡ (ok tt, s₂)) × Done s (i + page_size) s₂
  round s i s₁ l d =
      let (s₂, e, v, u) = touch i s₁ d.0 (omega arith) d.1 in
      (s₂, e, (omega arith, v, λ r. ground (arith, u r, d.2 r)))

  pub range_lem :
      (s : Store M)
      → IsValid s
      → (s' : Store M) × (for_each loop_fuel 0 len page_size body s ≡ (ok tt, s'))
        × IsValid s'
        × ((r : ℕ) → used s' r ≡ (if in_range p (pages_in len) r then b else used s r))
  range_lem s v =
      let (s', j, e, lo, hi, d) =
        for_each_lem (Done s) page_size len body (omega arith) (omega arith) (round s) loop_fuel 0 s
          (omega arith) (omega arith) (refl, v, λ r. ground arith) in
      let all : j / page_size ≡ pages_in len = omega (arith, d.0) in
      (s', e, d.1, λ r. rw all at (d.2 r))
