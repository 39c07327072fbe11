-- ===== src/Signals/Sets.antt =====
-- src/syscalls/signals.cc: the conversions of signal numbers and signal sets.
use mathlib.Core.Logic.{◌↔◌}
use lbw.Prelude.{
  ℕ, ◌-◌, ◌^◌, ◌≡◌, refl, ap, Bool, true, false, ◌||◌, ◌&&◌, some, List, [], ◌∷◌, arith, ◌==◌,
  Bool-cases, inl, inr, ==→eq,
}
use lbw.Prelude.Flags.{test}
use lbw.Signals.{
  Signal, sighup, linux_signal, signals, case_of, convert_signal_l2i, linux_sigismember, SignalSets,
  add_l2i, convert_sigset_l2i, add_i2l, convert_sigset_i2l,
}

linux_signal-case_of :
    (ss : List Signal) (n : ℕ) (s : Signal) → case_of ss n ≡ some s → linux_signal s ≡ n
linux_signal-case_of [] n s h = cc
linux_signal-case_of (r ∷ ss) n s h = ground (arith, linux_signal-case_of ss n s, ap linux_signal)

signal_known : (s : Signal) → convert_signal_l2i (linux_signal s) ≡ some s
unfolding convert_signal_l2i
signal_known sighup = refl
signal_known _ = refl

-- A Linux signal number is converted to an Interix signal exactly if it is the number of that
-- signal; so a number that no named signal has is refused.
pub convert_signal_l2i_iff :
    (n : ℕ) (s : Signal) → (convert_signal_l2i n ≡ some s) ↔ (linux_signal s ≡ n)
convert_signal_l2i_iff n s = (number, λ e. rw (← e) (signal_known s))
  where
    number : convert_signal_l2i n ≡ some s → linux_signal s ≡ n
    number h = linux_signal-case_of signals n s (unfold convert_signal_l2i in h)

-- Whether a list names a signal.
abbrev names : List Signal → Signal → Bool
names [] s = false
names (r ∷ ss) s = (linux_signal r == linux_signal s) || names ss s

names-signals : (s : Signal) → names signals s ≡ true
unfolding linux_signal
names-signals sighup = refl
names-signals _ = refl

-- What <signal.h> promises of sigemptyset, sigaddset and sigismember.
pub record SetLaws (sets : SignalSets) : Type 0 where
  pub member-empty : (s : Signal) → sets.sigismember sets.sigemptyset s ≡ false
  pub member-add :
      (is : sets.SigSet) (r s : Signal)
      → sets.sigismember (sets.sigaddset is r) s
        ≡ ((linux_signal r == linux_signal s) || sets.sigismember is s)

module _ (sets : SignalSets) (laws : SetLaws sets) where
  member-add_l2i :
      (ss : List Signal) (ls : ℕ) (is : sets.SigSet) (s : Signal)
      → sets.sigismember (add_l2i sets ss ls is) s
        ≡ (sets.sigismember is s || (names ss s && linux_sigismember ls (linux_signal s)))
  unfolding add_l2i
  member-add_l2i [] ls is s = ground arith
  member-add_l2i (r ∷ ss) ls is s = elim (Bool-cases (linux_sigismember ls (linux_signal r))) [
    | inl on ↦
        rw (on, member-add_l2i ss ls (sets.sigaddset is r) s, laws.member-add is r s)
          (joined (linux_signal r == linux_signal s) (sets.sigismember is s) (names ss s)
            (linux_sigismember ls (linux_signal s)) (λ e. rw (← ==→eq _ _ e) on))
    | inr off ↦
        rw (off, member-add_l2i ss ls is s)
          (skipped (linux_signal r == linux_signal s) (sets.sigismember is s) (names ss s)
            (linux_sigismember ls (linux_signal s)) (λ e. rw (← ==→eq _ _ e) off))
  ]
    where
      joined :
          (a m n t : Bool) → (a ≡ true → t ≡ true) → ((a || m) || (n && t)) ≡ (m || ((a || n) && t))
      joined a m n t h = ground arith

      skipped : (a m n t : Bool) → (a ≡ true → t ≡ false) → (m || (n && t)) ≡ (m || ((a || n) && t))
      skipped a m n t h = ground arith

  -- A signal is in the converted set exactly if the Linux set has its bit.
  pub convert_sigset_l2i_lem :
      (ls : ℕ) (s : Signal)
      → sets.sigismember (convert_sigset_l2i sets ls) s ≡ test ls (2 ^ (linux_signal s - 1))
  unfolding convert_sigset_l2i linux_sigismember
  convert_sigset_l2i_lem ls s =
      rw (member-add_l2i signals ls sets.sigemptyset s, laws.member-empty s, names-signals s)

  add_i2l-empty : (ss : List Signal) (ls : ℕ) → add_i2l sets ss sets.sigemptyset ls ≡ ls
  unfolding add_i2l
  add_i2l-empty [] ls = refl
  add_i2l-empty (s ∷ ss) ls = rw laws.member-empty (add_i2l-empty ss ls)

  -- The conversion to Linux empties the Interix set that it is given, and leaves the Linux set as it
  -- was, whatever signals the Interix set had.
  convert_sigset_i2l_lem :
      (is : sets.SigSet) (ls : ℕ) → convert_sigset_i2l sets is ls ≡ (sets.sigemptyset, ls)
  unfolding convert_sigset_i2l
  convert_sigset_i2l_lem is ls = rw (add_i2l-empty signals ls)
