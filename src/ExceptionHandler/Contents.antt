-- ===== src/ExceptionHandler/Contents.antt =====
-- src/ehandler.cc: which bytes are where in memory after store_bytes.
use lbw.Prelude.{ℕ, suc, ◌+◌, ◌≡◌, ◌≤◌, ◌<◌, refl, [], ◌∷◌, ◌++◌, length, arith, inl, inr, ◌⊎◌, ◌∙◌}
use lbw.Prelude.Text.{Bytes}
use lbw.ExceptionHandler.{Memory, store_bytes, load_bytes}

-- That some bytes stand at an address.
abbrev pub Holds : ℕ → Bytes → Memory → Type 0
Holds a [] m = Unit
Holds a (c ∷ cs) m = (m a ≡ c) × Holds (suc a) cs m

-- Bytes before and behind a region stay.
pub outside :
    (a : ℕ) (cs : Bytes) (m : Memory) (x : ℕ)
    → x < a ⊎ a + length cs ≤ x
    → store_bytes a cs m x ≡ m x
unfolding store_bytes
outside a [] m x h = refl
outside a (c ∷ cs) m x (inl h) =
    let rest = outside (suc a) cs m x (inl (omega arith)) in ground arith
outside a (c ∷ cs) m x (inr h) =
    let rest = outside (suc a) cs m x (inr (omega arith)) in ground arith

-- Bytes that two memories share.
pub Holds-same :
    (a : ℕ) (cs : Bytes) (m m' : Memory)
    → ((x : ℕ) → a ≤ x → x < a + length cs → m' x ≡ m x)
    → Holds a cs m
    → Holds a cs m'
Holds-same a [] m m' same h = tt
Holds-same a (c ∷ cs) m m' same (h, hs) = (
  same a (omega arith) (omega arith) ∙ h,
  Holds-same (suc a) cs m m' (λ x lo hi. same x (omega arith) (omega arith)) hs,
)

pub store-Holds : (a : ℕ) (cs : Bytes) (m : Memory) → Holds a cs (store_bytes a cs m)
unfolding store_bytes
store-Holds a [] m = tt
store-Holds a (c ∷ cs) m = (
  ground arith,
  Holds-same (suc a) cs (store_bytes (suc a) cs m) (store_bytes a (c ∷ cs) m)
      (λ x lo hi. ground arith) (store-Holds (suc a) cs m),
)

-- Another region's bytes stay.
pub store-Holds_other :
    (a b : ℕ) (cs ds : Bytes) (m : Memory)
    → b + length ds ≤ a ⊎ a + length cs ≤ b
    → Holds a cs m
    → Holds a cs (store_bytes b ds m)
store-Holds_other a b cs ds m apart h =
    Holds-same a cs m (store_bytes b ds m) (λ x lo hi. outside b ds m x (away x lo hi)) h
  where
    away : (x : ℕ) → a ≤ x → x < a + length cs → x < b ⊎ b + length ds ≤ x
    away x lo hi = ground arith

-- What is read where bytes stand.
pub load-Holds : (a : ℕ) (cs : Bytes) (m : Memory) → Holds a cs m → load_bytes (length cs) a m ≡ cs
unfolding load_bytes
load-Holds a [] m h = refl
load-Holds a (c ∷ cs) m (h, hs) = let rest = load-Holds (suc a) cs m hs in rw (h, rest) refl

pub first-Holds : (a : ℕ) (cs ds : Bytes) (m : Memory) → Holds a (cs ++ ds) m → Holds a cs m
first-Holds a [] ds m h = tt
first-Holds a (c ∷ cs) ds m (h, hs) = (h, first-Holds (suc a) cs ds m hs)

pub second-Holds :
    (a b : ℕ) (cs ds : Bytes) (m : Memory) → b ≡ a + length cs → Holds a (cs ++ ds) m → Holds b ds m
second-Holds a b [] ds m e h = let same : b ≡ a = omega arith in rw same h
second-Holds a b (c ∷ cs) ds m e (h, hs) = second-Holds (suc a) b cs ds m (omega arith) hs

pub both-Holds :
    (a b : ℕ) (cs ds : Bytes) (m : Memory)
    → b ≡ a + length cs
    → Holds a cs m
    → Holds b ds m
    → Holds a (cs ++ ds) m
both-Holds a b [] ds m e h k = let same : a ≡ b = omega arith in rw same k
both-Holds a b (c ∷ cs) ds m e (h, hs) k = (h, both-Holds (suc a) b cs ds m (omega arith) hs k)
