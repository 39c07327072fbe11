-- ===== src/Descriptors/Numbers.antt =====
-- src/filesystem/FD.cc: every object in the table has the number it stands under.
use lbw.Prelude.{
  ℕ, suc, ◌-◌, ◌≡◌, ◌≢◌, ◌<◌, refl, sym, true, false, ◌⊎◌, if◌then◌else◌, Option, none, some, ◌==◌,
  inl, inr, Bool-cases, ==→eq, arith,
}
use lbw.Prelude.Results.{Result, ok, throw, fault, Exec, continue, pure, ◌>>◌, ◌>>=◌}
use lbw.MemOp.{u32_mod}
use lbw.Descriptors.{
  FdObject, Heap, Fds, DescriptorCalls, with_entry, with_object, Process, set, unset, allocate,
  new_real_fd, create_new_fdo, get, store_number, close_object, dup_object, sys_close, sys_dup,
  sys_dup2, sys_pipe, on_host,
}

abbrev pub IsNumbered : Fds → Heap → ℕ → Type 0
IsNumbered fds heap next = (n o : ℕ) → fds n ≡ some o → (o < next) × ((heap o).number ≡ n)

some_eq : (a b : ℕ) → ◌≡◌ {A = Option ℕ} (some a) (some b) → a ≡ b
some_eq a b h = cc

no_entry : (q : ℕ) → ◌≢◌ {A = Option ℕ} none (some q)
no_entry q h = cc

differs : (a b : ℕ) → (a == b) ≡ false → a ≢ b
differs a b h e = ground arith

-- FD::Set of an object that has the number.
set-IsNumbered :
    (fds : Fds) (heap : Heap) (next fd o : ℕ)
    → IsNumbered fds heap next
    → o < next
    → (heap o).number ≡ fd
    → IsNumbered (with_entry fd (some o) fds) heap next
unfolding with_entry
set-IsNumbered fds heap next fd o v below same n q e = elim (Bool-cases (n == fd)) [
  | inl here ↦ at_entry (some_eq o q (rw here at e)) (==→eq n fd here)
  | inr other ↦ v n q (rw other at e)
]
  where
    at_entry : o ≡ q → n ≡ fd → (q < next) × ((heap q).number ≡ n)
    at_entry a b = rw (sym a, b) (below, same)

-- The other objects are where they were.
allocate-IsNumbered :
    (fds : Fds) (heap : Heap) (next : ℕ) (object : FdObject)
    → IsNumbered fds heap next
    → IsNumbered fds (with_object next object heap) (suc next)
unfolding with_object
allocate-IsNumbered fds heap next object v n q e =
    let (below, same) = v n q e in
    let other : (q == next) ≡ false = (ground arith) in (omega arith, rw other same)

new_object :
    (heap : Heap) (next : ℕ) (object : FdObject) → with_object next object heap next ≡ object
unfolding with_object
new_object heap next object = ground arith

-- Without its entry the object may get any number.
unset-IsNumbered :
    (fds : Fds) (heap : Heap) (next o : ℕ) (object : FdObject)
    → IsNumbered fds heap next
    → IsNumbered (with_entry (heap o).number none fds) (with_object o object heap) next
unfolding with_entry with_object
unset-IsNumbered fds heap next o object v n q e = elim (Bool-cases (n == (heap o).number)) [
  | inl here ↦ absurd (no_entry q (rw here at e))
  | inr other ↦ elsewhere (v n q (rw other at e)) (Bool-cases (q == o)) other
]
  where
    elsewhere :
        (q < next) × ((heap q).number ≡ n)
        → ((q == o) ≡ true) ⊎ ((q == o) ≡ false)
        → (n == (heap o).number) ≡ false
        → (q < next) × ((if q == o then object else heap q).number ≡ n)
    elsewhere (below, same) (inl e) other =
        let is : q ≡ o = ==→eq q o e in
        absurd (differs n (heap o).number other (rw is at (sym same)))
    elsewhere (below, same) (inr e) other = (below, rw e same)

module _ (c : DescriptorCalls) where
  abbrev pub IsConsistent : Process c → Type 0
  IsConsistent p = IsNumbered p.fds p.heap p.next

  -- What is behind a call that keeps the table's numbers.
  abbrev Keeps : {A : Type 0} → Result A × Process c → Type 0
  Keeps r = IsConsistent r.1

  continue-Keeps :
      {A B : Type 0} (r : Result A × Process c) (f : A → Exec (Process c) B)
      → Keeps r
      → ((a : A) (p : Process c) → r ≡ (ok a, p) → IsConsistent p → Keeps (f a p))
      → Keeps (continue r f)
  continue-Keeps (ok a, p) f v next = next a p refl v
  continue-Keeps (throw e, p) f v next = v
  continue-Keeps (fault x, p) f v next = v

  new_real_fd-Keeps : (fd : ℕ) (p : Process c) → IsConsistent p → Keeps (new_real_fd c fd p)
  unfolding new_real_fd allocate set
  new_real_fd-Keeps fd p v =
      let object : FdObject = record { number = fd; node = none } in
      set-IsNumbered p.fds (with_object p.next object p.heap) (suc p.next) fd p.next
        (allocate-IsNumbered p.fds p.heap p.next object v) (omega arith)
        (rw (new_object p.heap p.next object) refl)

  create_new_fdo-Keeps : (fd : ℕ) (p : Process c) → IsConsistent p → Keeps (create_new_fdo c fd p)
  unfolding create_new_fdo new_real_fd allocate set
  create_new_fdo-Keeps fd p v = continue-Keeps (on_host c (c.getfd fd) p) _ v λ a q e w.
      let object : FdObject = record { number = fd; node = none } in
      set-IsNumbered _ (with_object q.next object q.heap) (suc q.next) fd q.next
        (new_real_fd-Keeps fd q w) (omega arith) (rw (new_object q.heap q.next object) refl)

  get-Keeps : (fd : ℕ) (p : Process c) → IsConsistent p → Keeps (get c fd p)
  unfolding get
  get-Keeps fd p v = known (p.fds fd)
    where
      known :
          (o : Option ℕ)
          → Keeps {A = ℕ} (elim o [ none ↦ create_new_fdo c fd p | some o ↦ (ok o, p) ])
      known none = create_new_fdo-Keeps fd p v
      known (some o) = v

  close_object-Keeps : (o : ℕ) (p : Process c) → IsConsistent p → Keeps (close_object c o p)
  unfolding close_object unset store_number
  close_object-Keeps o p v = closed (c.close (p.heap o).number p.host)
    where
      closed :
          (r : Result ℕ × c.State)
          → Keeps (
              continue
                (r.0, record p { host = r.1 })
                λ _. unset c (p.heap o).number >> store_number c o (u32_mod - 1))
      closed (ok n, s) = unset-IsNumbered p.fds p.heap p.next o _ v
      closed (throw e, s) = v
      closed (fault x, s) = v

  dup_object-Keeps : (o d : ℕ) (p : Process c) → IsConsistent p → Keeps (dup_object c o d p)
  unfolding dup_object
  dup_object-Keeps o d p v = elim (Bool-cases (d == u32_mod - 1)) [
    | inl e ↦ rw e v
    | inr e ↦ rw e v
  ]

  abbrev Cleared : ℕ → Result ℕ × Process c → Type 0
  Cleared fd r = r.0 ≡ ok 0 → r.1.fds fd ≡ none

  cleared :
      (fd o : ℕ) (p : Process c)
      → (p.heap o).number ≡ fd
      → Cleared fd (continue (close_object c o p) (λ _. pure 0))
  unfolding close_object unset store_number with_entry
  cleared fd o p same = closed (c.close (p.heap o).number p.host)
    where
      closed :
          (r : Result ℕ × c.State)
          → Cleared fd (
              continue
                (continue
                  (r.0, record p { host = r.1 })
                  λ _. unset c (p.heap o).number >> store_number c o (u32_mod - 1))
                (λ _. pure 0))
      closed (ok n, s) h = ground arith
      closed (throw e, s) h = cc
      closed (fault x, s) h = cc

  sys_close-Cleared : (fd : ℕ) (p : Process c) → IsConsistent p → Cleared fd (sys_close c fd p)
  unfolding sys_close get create_new_fdo new_real_fd allocate set
  sys_close-Cleared fd p v = known (p.fds fd) refl
    where
      closing : ℕ → Exec (Process c) ℕ
      closing o p = continue (close_object c o p) (λ _. pure 0)

      made :
          (r : Result ℕ × c.State)
          → Cleared fd (
              continue
                (continue
                  (r.0, record p { host = r.1 })
                  λ _. new_real_fd c fd >>= λ o. set c fd o >> pure o)
                closing)
      made (ok n, s) =
          let object : FdObject = record { number = fd; node = none } in
          let q : Process c = record {
            fds = with_entry fd (some p.next) (with_entry fd (some p.next) p.fds);
            heap = with_object p.next object p.heap;
            next = suc p.next;
            host = s;
          } in
          cleared fd p.next q (rw (new_object p.heap p.next object) refl)
      made (throw e, s) = λ h. cc
      made (fault x, s) = λ h. cc

      known :
          (o : Option ℕ)
          → p.fds fd ≡ o
          → Cleared fd
              (continue (elim o [ none ↦ create_new_fdo c fd p | some o ↦ (ok o, p) ]) closing)
      known none e = made (c.getfd fd p.host)
      known (some o) e = cleared fd o p (v fd o e).1

  -- Every object in the table of descriptors has the number that it stands under, and close, dup,
  -- dup2 and pipe keep it so, whether they succeed or fail, also where Get makes an object for a
  -- descriptor that is not in the table, and although Close leaves the object with the number -1.
  -- After a close that succeeds the table has no object for the descriptor.
  pub calls-IsNumbered :
      (fd newfd : ℕ) (p : Process c)
      → IsConsistent p
      → IsConsistent (sys_close c fd p).1
        × IsConsistent (sys_dup c fd p).1
        × IsConsistent (sys_dup2 c fd newfd p).1
        × IsConsistent (sys_pipe c p).1
        × ((sys_close c fd p).0 ≡ ok 0 → (sys_close c fd p).1.fds fd ≡ none)
  unfolding sys_close sys_dup sys_dup2 sys_pipe new_real_fd allocate set
  calls-IsNumbered fd newfd p v = (
    continue-Keeps (get c fd p) _ (get-Keeps fd p v) (λ o q e w.
        continue-Keeps (close_object c o q) _ (close_object-Keeps o q w) (λ a r e u. u)),
    continue-Keeps (get c fd p) _ (get-Keeps fd p v)
        (λ o q e w. dup_object-Keeps o (u32_mod - 1) q w),
    continue-Keeps (get c fd p) _ (get-Keeps fd p v) (λ o q e w. dup_object-Keeps o newfd q w),
    continue-Keeps (on_host c c.pipe p) _ v (λ ends q e w.
        new_real_fd-Keeps ends.1 (new_real_fd c ends.0 q).1 (new_real_fd-Keeps ends.0 q w)),
    sys_close-Cleared fd p v,
  )
