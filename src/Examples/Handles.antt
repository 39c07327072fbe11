-- ===== src/Examples/Handles.antt =====
-- The theorems on descriptors (src/filesystem/FD.cc, src/syscalls/fd.cc) at a table with two
-- directories.
use lbw.Prelude.{
  ℕ, ◌<◌, ◌≡◌, ◌≢◌, refl, sym, ==→eq, true, [], Option, none, some, arith, ◌==◌, if◌then◌else◌, inl,
  inr, Bool-cases,
}
use lbw.Prelude.Results.{ok}
use lbw.Prelude.Text.{codes}
use lbw.Nodes.{Node, root, dev}
use lbw.Descriptors.{Heap, Fds, DescriptorCalls, Process, sys_close, sys_dup, sys_dup2, sys_pipe}
use lbw.Descriptors.Numbers.{IsConsistent, calls-IsNumbered}

abbrev calls : DescriptorCalls
calls = record {
  State = Unit {0};
  getfd = λ fd s. (ok 0, s);
  close = λ fd s. (ok 0, s);
  dup = λ fd s. (ok 9, s);
  dup2 = λ old new s. (ok new, s);
  pipe = λ s. (ok (7, 8), s);
}

abbrev top : Node
top = root (codes "/r") []

-- The object of descriptor 3 is the first, that of 5 the second.
abbrev objects : Heap
objects o =
    if o == 0
    then record { number = 3; node = some top }
    else record { number = 5; node = some (dev top []) }

abbrev entries : Fds
entries n = if n == 3 then some 0 else if n == 5 then some 1 else none

abbrev process : Process calls
process = record { fds = entries; heap = objects; next = 2; host = tt }

entry_number :
    (n o k q : ℕ)
    → ◌≡◌ {A = Option ℕ} (some q) (some o)
    → (n == k) ≡ true
    → (objects q).number ≡ k
    → q < 2
    → (o < 2) × ((objects o).number ≡ n)
entry_number n o k q e h same below =
    let is : q ≡ o = cc in let at_key : n ≡ k = ==→eq n k h in rw (sym is, at_key) (below, same)

no_entry : (o : ℕ) → ◌≢◌ {A = Option ℕ} none (some o)
no_entry o h = cc

process-IsConsistent : IsConsistent calls process
process-IsConsistent n o e = elim (Bool-cases (n == 3)) [
  | inl a ↦ entry_number n o 3 0 (rw a at e) a refl (omega arith)
  | inr a ↦ elim (Bool-cases (n == 5)) [
    | inl b ↦ entry_number n o 5 1 (rw (a, b) at e) b refl (omega arith)
    | inr b ↦ absurd (no_entry o (rw (a, b) at e))
  ]
]

calls-IsNumbered_example :
    IsConsistent calls (sys_close calls 3 process).1
    × IsConsistent calls (sys_dup calls 3 process).1
    × IsConsistent calls (sys_dup2 calls 3 5 process).1
    × IsConsistent calls (sys_pipe calls process).1
    × ((sys_close calls 3 process).0 ≡ ok 0 → (sys_close calls 3 process).1.fds 3 ≡ none)
calls-IsNumbered_example = calls-IsNumbered calls 3 5 process process-IsConsistent
