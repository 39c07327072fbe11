-- ===== src/SelectPoll/Reports.antt =====
-- src/syscalls/selectpoll.cc: what sys_poll reports, and what it counts.
use lbw.Prelude.{
  ℕ, suc, ◌+◌, ◌≡◌, ◌≢◌, refl, ap, sym, ◌∙◌, Bool, true, List, [], ◌∷◌, ◌++◌, Option, ◌==◌, map,
  arith, Bool-cases, inl, inr, subst, length,
}
use lbw.Prelude.Flags.{test, All}
use lbw.Prelude.Results.{Result, ok, throw, fault, out_of_bounds}
use lbw.SelectPoll.{
  all_fit, ℤ, pos, pollin, pollout, pollerr, PollFd, Sets, no_sets, timeout_of, Asked, ask_all,
  no_events, is_set, answer, sys_poll, answered, polled,
}
use lbw.SelectPoll.Events.{Holding, ask_all-Holding, asked_by-only, answer-tests, map-middle}

-- select leaves no descriptor in a set that was not in it.
abbrev pub IsSelect : (ℕ → Sets → Option (ℤ × ℤ) → Result ℕ × Sets) → Type 0
IsSelect select =
    (count fd : ℕ) (sets : Sets) (t : Option (ℤ × ℤ))
    → ((select count sets t).1.reads fd ≡ true → sets.reads fd ≡ true)
      × ((select count sets t).1.writes fd ≡ true → sets.writes fd ≡ true)
      × ((select count sets t).1.excepts fd ≡ true → sets.excepts fd ≡ true)

-- That an entry is reported, with no events but those that it asked for.
abbrev pub Reported : PollFd → PollFd → Type 0
Reported p q =
    (q.fd ≡ p.fd)
    × (q.events ≡ p.events)
    × (test q.revents pollin ≡ true → test p.events pollin ≡ true)
    × (test q.revents pollout ≡ true → test p.events pollout ≡ true)
    × (test q.revents pollerr ≡ true → test p.events pollerr ≡ true)

none-Reported : (p : PollFd) → Reported p (no_events p)
none-Reported p =
    (refl, refl, λ h. absurd (ground arith), λ h. absurd (ground arith), λ h. absurd (ground arith))

module _ (size : ℕ) (select : ℕ → Sets → Option (ℤ × ℤ) → Result ℕ × Sets) (law : IsSelect select)
    (front back : List PollFd) (p : PollFd) (n : ℕ) (number : p.fd ≡ pos n)
    (other : All (λ q. q.fd ≢ pos n) front) (others : All (λ q. q.fd ≢ pos n) back) where
  abbrev whole : List PollFd
  whole = front ++ p ∷ back

  -- An answer for the entry, for what select leaves of the sets that were asked for.
  answer-Reported :
      (a : Asked) (count : ℕ) (t : Option (ℤ × ℤ))
      → Holding whole (record { sets = no_sets; maxfd = 0 }) a
      → Reported p (answer (select count a.sets t).1 p)
  answer-Reported a count t h =
      let ready = (select count a.sets t).1 in
      let (r, w, x) = answer-tests ready p in
      let (asked_r, asked_w, asked_x) = h n in
      let (left_r, left_w, left_x) = law count n a.sets t in
      let only = λ (event : ℕ). asked_by-only event n front back p number other others in
      (
        refl,
        refl,
        λ e. sym (only pollin) ∙ (sym asked_r ∙ left_r (at_number ready.reads (sym r ∙ e))),
        λ e. sym (only pollout) ∙ (sym asked_w ∙ left_w (at_number ready.writes (sym w ∙ e))),
        λ e. sym (only pollerr) ∙ (sym asked_x ∙ left_x (at_number ready.excepts (sym x ∙ e))),
      )
    where
      at_number : (s : ℕ → Bool) → is_set p.fd s ≡ true → s n ≡ true
      at_number s e = rw number at e

  abbrev pub Answer : List PollFd → Type 0
  Answer ps =
      (q : PollFd) × (front' : List PollFd) × (back' : List PollFd) × (ps ≡ front' ++ q ∷ back')
      × (length front' ≡ length front)
      × Reported p q

  length-map : (f : PollFd → PollFd) (qs : List PollFd) → length (map f qs) ≡ length qs
  length-map f [] = refl
  length-map f (q ∷ qs) = ap suc (length-map f qs)

  mapped : (f : PollFd → PollFd) → Reported p (f p) → Answer (map f whole)
  mapped f h = (f p, map f front, map f back, map-middle f front back p, length-map f front, h)

  -- sys_poll: where only one entry has its descriptor, and select leaves no descriptor in a set that
  -- was not in it, then an answer of sys_poll has in the place of the entry the same descriptor and
  -- the same events, and reports no reading, writing or error that the entry did not ask for.
  pub sys_poll_lem :
      (timeout : ℤ) (k : ℕ) (ps : List PollFd)
      → sys_poll size select whole timeout ≡ (ok k, ps)
      → (q : PollFd) × (front' : List PollFd) × (back' : List PollFd) × (ps ≡ front' ++ q ∷ back')
        × (length front' ≡ length front)
        × Reported p q
  unfolding sys_poll
  sys_poll_lem timeout k ps h =
      by_asked (ask_all size whole (record { sets = no_sets; maxfd = 0 })) refl h
    where
      by_answer :
          (a : Asked) (r : Result ℕ × Sets)
          → select (a.maxfd + 1) a.sets (timeout_of timeout) ≡ r
          → Holding whole (record { sets = no_sets; maxfd = 0 }) a
          → answered size select whole r ≡ (ok k, ps)
          → Answer ps
      by_answer a (throw e, ready) same holds h = cc
      by_answer a (fault x, ready) same holds h = cc
      by_answer a (ok c, ready) same holds h = elim (Bool-cases (c == 0)) [
        | inl none_of ↦
            (let shape : ◌≡◌ {A = Result ℕ × List PollFd} (ok 0, map no_events whole) (ok k, ps) =
                (rw none_of at h) in
              subst Answer (ap (λ r. r.1) shape) (mapped no_events (none-Reported p)))
        | inr some_of ↦ elim (Bool-cases (all_fit size whole)) [
          | inl fit ↦
              (let shape : ◌≡◌ {A = Result ℕ × List PollFd} (ok c, map (answer ready) whole)
                    (ok k, ps) =
                  (rw (some_of, fit) at h) in
                subst Answer (ap (λ r. r.1) shape) (
                  mapped (answer ready) (
                    subst (λ r. Reported p (answer r.1 p)) same
                      (answer-Reported a (a.maxfd + 1) (timeout_of timeout) holds))))
          | inr unfit ↦
              (let gone : ◌≡◌ {A = Result ℕ × List PollFd} (fault out_of_bounds, whole) (ok k, ps) =
                  (rw (some_of, unfit) at h) in
                cc)
        ]
      ]

      by_asked :
          (r : Result Asked)
          → ask_all size whole (record { sets = no_sets; maxfd = 0 }) ≡ r
          → polled size select whole timeout r ≡ (ok k, ps)
          → Answer ps
      by_asked (throw e) same h = cc
      by_asked (fault x) same h = cc
      by_asked (ok a) same h =
          by_answer a (select (a.maxfd + 1) a.sets (timeout_of timeout)) refl
            (ask_all-Holding size whole (record { sets = no_sets; maxfd = 0 }) a same) h
