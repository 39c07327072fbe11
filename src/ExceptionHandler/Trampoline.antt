-- ===== src/ExceptionHandler/Trampoline.antt =====
-- src/ehandler.cc: what stands in the trampoline of an instruction with a %gs prefix.
use lbw.Prelude.{
  ℕ, suc, ◌+◌, ◌≡◌, ◌<◌, refl, List, ◌∷◌, ◌++◌, Option, none, some, ltb, arith, inl, inr,
  Bool-cases,
}
use lbw.Prelude.Results.{ok, continue}
use lbw.Prelude.Text.{Bytes}
use lbw.ExceptionHandler.{
  Process, Memory, push, store_bytes, load_bytes, allocate_fragment, fitting_block, new_block,
}
use lbw.ExceptionHandler.Contents.{
  Holds, store-Holds, store-Holds_other, both-Holds, first-Holds, second-Holds,
}
use lbw.ExceptionHandler.Machine.{cpu, run, execute-push}

-- Code at an address that pushes where to go on, with an instruction behind.
abbrev pub Ready : Memory → ℕ → ℕ → Bytes → Type 0
Ready m a to out =
    ((stack : List ℕ) → run 1 m (cpu a stack) ≡ some (cpu (a + 5) (to ∷ stack)))
    × Holds (a + 5) out m

pub ready_lem :
    (m : Memory) (a to : ℕ) (out : Bytes)
    → to < 4294967296
    → Holds a (push to ++ out) m
    → Ready m a to out
unfolding run
ready_lem m a to out small whole = (
  λ stack. execute-push m a stack to small (first-Holds a (push to) out m whole),
  second-Holds a (a + 5) (push to) out m refl whole,
)

-- The trampoline once translated_case has written it.
pub trampoline-Holds :
    (m : Memory) (t to : ℕ) (out : Bytes)
    → Holds t (push to ++ out) (store_bytes t (push to) (store_bytes (t + 5) out m))
trampoline-Holds m t to out =
    both-Holds t (t + 5) (push to) out _ refl (store-Holds t (push to) (store_bytes (t + 5) out m))
      (store-Holds_other (t + 5) t out (push to) (store_bytes (t + 5) out m) (inl (omega arith))
        (store-Holds (t + 5) out m))

pub allocate_memory :
    {S : Type 0} (map_block : S → Option ℕ × S) (size : ℕ) (s : Process S)
    → (allocate_fragment map_block size s).1.memory ≡ s.memory
unfolding allocate_fragment
allocate_memory map_block size s = by_block s.block
  where
    at_new :
        (r : Option ℕ × _)
        → (continue
            (new_block map_block r s)
            (λ a s. (ok (a + s.index), record s { index = s.index + size }))).1.memory
          ≡ s.memory
    at_new (none, pages) = refl
    at_new (some a, pages) = refl

    by_block :
        (block : Option ℕ)
        → (continue
            (fitting_block map_block size block s)
            (λ a s. (ok (a + s.index), record s { index = s.index + size }))).1.memory
          ≡ s.memory
    by_block none = at_new (map_block s.pages)
    by_block (some b) = elim (Bool-cases (ltb 0x10000 (s.index + size))) [
      | inl full ↦ rw full (at_new (map_block s.pages))
      | inr room ↦ rw room refl
    ]

pub first_byte : (a : ℕ) (m : Memory) (c : ℕ) (cs : Bytes) → load_bytes 16 a m ≡ c ∷ cs → m a ≡ c
unfolding load_bytes
first_byte a m c cs h = cc

pub second_byte :
    (a : ℕ) (m : Memory) (b c : ℕ) (cs : Bytes) → load_bytes 16 a m ≡ b ∷ c ∷ cs → m (a + 1) ≡ c
unfolding load_bytes
second_byte a m b c cs h = let next : a + 1 ≡ suc a = omega arith in rw next (second_of h)
  where
    second_of : load_bytes 16 a m ≡ b ∷ c ∷ cs → m (suc a) ≡ c
    second_of h = cc
