-- ===== src/SelectPoll/Events.antt =====
-- src/syscalls/selectpoll.cc: which events sys_poll reports.
use lbw.Prelude.{
  ℕ, ◌≡◌, ◌≢◌, refl, ap, sym, ◌∙◌, Bool, true, false, ◌||◌, ◌&&◌, List, [], ◌∷◌, ◌++◌, ◌==◌, ltb,
  if◌then◌else◌, map, bit_or, arith, Bool-cases, ==→eq, inl, inr, ◌⊎◌, subst,
}
use lbw.Prelude.Flags.{test, All}
use lbw.Prelude.Results.{Result, ok, fault, and_then-ok, out_of_bounds}
use lbw.SelectPoll.{
  ℤ, pos, negsuc, pollin, pollout, pollerr, PollFd, Sets, Asked, ask, ask_fd, ask_all, is_set,
  answer, interested,
}

-- Whether an entry for a descriptor asks for an event.
abbrev pub at_fd : ℤ → ℕ → Bool
at_fd (pos m) n = n == m
at_fd (negsuc m) n = false

abbrev pub asked_by : ℕ → List PollFd → ℕ → Bool
asked_by event [] n = false
asked_by event (p ∷ ps) n = (at_fd p.fd n && test p.events event) || asked_by event ps n

-- The sets hold what was in them and what the entries ask for, and maxfd is at least each of them.
abbrev pub Holding : List PollFd → Asked → Asked → Type 0
Holding ps a b =
    (n : ℕ)
    → (b.sets.reads n ≡ (a.sets.reads n || asked_by pollin ps n))
      × (b.sets.writes n ≡ (a.sets.writes n || asked_by pollout ps n))
      × (b.sets.excepts n ≡ (a.sets.excepts n || asked_by pollerr ps n))

swap_asked : (s a b r : Bool) → ((s || (a && b)) || r) ≡ (s || ((b && a) || r))
swap_asked s a b r = ground arith

pub at_fd-pos : (fd : ℤ) (n m : ℕ) → fd ≡ pos n → at_fd fd m ≡ (m == n)
at_fd-pos fd n m e = rw e refl

ask-Holding :
    (n : ℕ) (p : PollFd) (a : Asked) (ps : List PollFd) (b : Asked)
    → p.fd ≡ pos n
    → Holding ps (ask n p.events a) b
    → Holding (p ∷ ps) a b
ask-Holding n p a ps b e h m =
    let here = at_fd-pos p.fd n m e in
    let (r, w, x) = h m in
    (
      rw here
          (r ∙ swap_asked (a.sets.reads m) (test p.events pollin) (m == n) (asked_by pollin ps m)),
      rw here (
          w
          ∙ swap_asked (a.sets.writes m) (test p.events pollout) (m == n) (asked_by pollout ps m)),
      rw here (
          x
          ∙ swap_asked (a.sets.excepts m) (test p.events pollerr) (m == n) (asked_by pollerr ps m)),
    )

-- An entry that asks for nothing may have any number.
idle-Holding :
    (p : PollFd) (a : Asked) (ps : List PollFd) (b : Asked)
    → interested p.events ≡ false
    → Holding ps a b
    → Holding (p ∷ ps) a b
idle-Holding p a ps b e h m =
    let (r, w, x) = h m in
    (
      r
          ∙ drop_in (a.sets.reads m) (at_fd p.fd m) (test p.events pollin) (asked_by pollin ps m)
              (ground arith),
      w
          ∙ drop_in (a.sets.writes m) (at_fd p.fd m) (test p.events pollout) (asked_by pollout ps m)
              (ground arith),
      x
          ∙ drop_in (a.sets.excepts m) (at_fd p.fd m) (test p.events pollerr)
              (asked_by pollerr ps m) (ground arith),
    )
  where
    drop_in : (s f t r : Bool) → t ≡ false → (s || r) ≡ (s || ((f && t) || r))
    drop_in s f t r h = ground arith

ask_fd_cases :
    (size : ℕ) (p : PollFd) (a b : Asked) (ps : List PollFd)
    → ask_fd size p a ≡ ok b
    → (((n : ℕ) × (p.fd ≡ pos n) × (b ≡ ask n p.events a))
        ⊎ ((interested p.events ≡ false) × (b ≡ a)))
ask_fd_cases size p a b ps h = by_fd p.fd refl h
  where
    by_fd :
        (f : ℤ)
        → p.fd ≡ f
        → (elim f [
          | negsuc n ↦ if interested p.events then fault out_of_bounds else ok a
          | pos n ↦
              if ltb n size
              then ok (ask n p.events a)
              else if interested p.events
              then fault out_of_bounds
              else ok (ask n p.events a)
        ])
          ≡ ok b
        → (((n : ℕ) × (p.fd ≡ pos n) × (b ≡ ask n p.events a))
            ⊎ ((interested p.events ≡ false) × (b ≡ a)))
    by_fd (negsuc n) e h = elim (Bool-cases (interested p.events)) [
      | inl yes_it ↦
          (let no_way : ◌≡◌ {A = Result Asked} (fault out_of_bounds) (ok b) = (rw yes_it at h) in
            cc)
      | inr no_it ↦
          (let same : ◌≡◌ {A = Result Asked} (ok a) (ok b) = (rw no_it at h) in inr (no_it, cc))
    ]
    by_fd (pos n) e h = elim (Bool-cases (ltb n size)) [
      | inl room ↦
          (let same : ◌≡◌ {A = Result Asked} (ok (ask n p.events a)) (ok b) = (rw room at h) in
            inl (n, e, cc))
      | inr full ↦ elim (Bool-cases (interested p.events)) [
        | inl yes_it ↦
            (let no_way : ◌≡◌ {A = Result Asked} (fault out_of_bounds) (ok b) =
                (rw (full, yes_it) at h) in
              cc)
        | inr no_it ↦
            (let same : ◌≡◌ {A = Result Asked} (ok (ask n p.events a)) (ok b) =
                (rw (full, no_it) at h) in
              inl (n, e, cc))
      ]
    ]

pub ask_all-Holding :
    (size : ℕ) (ps : List PollFd) (a b : Asked) → ask_all size ps a ≡ ok b → Holding ps a b
unfolding ask_all
ask_all-Holding size [] a b h =
    λ n. let same : b ≡ a = cc in rw same (ground arith, ground arith, ground arith)
ask_all-Holding size (p ∷ ps) a b h =
    let (mid, e, f) = and_then-ok (ask_fd size p a) (ask_all size ps) h in
    by_case mid (ask_fd_cases size p a mid ps e) (ask_all-Holding size ps mid b f)
  where
    by_case :
        (mid : Asked)
        → (((n : ℕ) × (p.fd ≡ pos n) × (mid ≡ ask n p.events a))
            ⊎ ((interested p.events ≡ false) × (mid ≡ a)))
        → Holding ps mid b
        → Holding (p ∷ ps) a b
    by_case mid (inl (n, e, same)) rest =
        ask-Holding n p a ps b e (subst (λ x. Holding ps x b) same rest)
    by_case mid (inr (no_it, same)) rest =
        idle-Holding p a ps b no_it (subst (λ x. Holding ps x b) same rest)

-- Who asks, where only one entry has the descriptor.
asked_by-other :
    (event n : ℕ) (ps : List PollFd) → All (λ q. q.fd ≢ pos n) ps → asked_by event ps n ≡ false
asked_by-other event n [] h = refl
asked_by-other event n (q ∷ ps) (h, hs) =
    let rest = asked_by-other event n ps hs in let here = at_other q.fd h in rw (here, rest) refl
  where
    at_other : (f : ℤ) → f ≢ pos n → at_fd f n ≡ false
    at_other (negsuc m) h = refl
    at_other (pos m) h = elim (Bool-cases (n == m)) [
      | inl same ↦ absurd (h (ap pos (sym (==→eq n m same))))
      | inr other ↦ other
    ]

pub asked_by-only :
    (event n : ℕ) (front back : List PollFd) (p : PollFd)
    → p.fd ≡ pos n
    → All (λ q. q.fd ≢ pos n) front
    → All (λ q. q.fd ≢ pos n) back
    → asked_by event (front ++ p ∷ back) n ≡ test p.events event
asked_by-only event n [] back p e h k =
    let here = at_fd-pos p.fd n n e in
    let self : (n == n) ≡ true = ground arith in
    rw (here, self, asked_by-other event n back k) (or_false (test p.events event))
  where
    or_false : (b : Bool) → (b || false) ≡ b
    or_false b = ground arith
asked_by-only event n (q ∷ front) back p e (h, hs) k =
    let rest = asked_by-only event n front back p e hs k in
    let alone = asked_by-other event n (q ∷ []) (h, tt) in ground arith

-- The bits of an answer.
pub answer-tests :
    (ready : Sets) (p : PollFd)
    → (test (answer ready p).revents pollin ≡ is_set p.fd ready.reads)
      × (test (answer ready p).revents pollout ≡ is_set p.fd ready.writes)
      × (test (answer ready p).revents pollerr ≡ is_set p.fd ready.excepts)
answer-tests ready p =
    by_bits (is_set p.fd ready.reads) (is_set p.fd ready.writes) (is_set p.fd ready.excepts)
  where
    by_bits :
        (r w x : Bool)
        → (test
              (bit_or
                (bit_or (if r then pollin else 0) (if w then pollout else 0))
                (if x then pollerr else 0))
              pollin
            ≡ r)
          × (test
                (bit_or
                  (bit_or (if r then pollin else 0) (if w then pollout else 0))
                  (if x then pollerr else 0))
                pollout
              ≡ w)
          × (test
                (bit_or
                  (bit_or (if r then pollin else 0) (if w then pollout else 0))
                  (if x then pollerr else 0))
                pollerr
              ≡ x)
    by_bits true true true = (refl, refl, refl)
    by_bits true true false = (refl, refl, refl)
    by_bits true false true = (refl, refl, refl)
    by_bits true false false = (refl, refl, refl)
    by_bits false true true = (refl, refl, refl)
    by_bits false true false = (refl, refl, refl)
    by_bits false false true = (refl, refl, refl)
    by_bits false false false = (refl, refl, refl)

pub map-middle :
    (f : PollFd → PollFd) (front back : List PollFd) (p : PollFd)
    → map f (front ++ p ∷ back) ≡ map f front ++ f p ∷ map f back
map-middle f [] back p = refl
map-middle f (q ∷ front) back p = ap (λ l. f q ∷ l) (map-middle f front back p)
