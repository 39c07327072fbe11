-- ===== src/ExecImage/Environment.antt =====
-- src/exec/exec.cc, linux_exec: what the next LBW finds in the environment that it is given.
use lbw.Prelude.{
  ℕ, suc, ◌-◌, ◌≡◌, refl, Bool, true, false, not, ◌&&◌, List, [], ◌∷◌, ◌++◌, map, none, some,
  length, if◌then◌else◌, ap,
}
use lbw.Prelude.Results.{ok, fault, and_then, out_of_bounds}
use lbw.Prelude.Text.{Bytes, is_empty}
use lbw.ExecImage.{
  Options, Cells, count_cells, settings, take, nulls, new_environ, strings_of, when,
}

-- An environment as the calling program has it.
abbrev pub ended : List Bytes → Cells
ended env = map some env ++ none ∷ []

count_cells-ended : (env : List Bytes) → count_cells (ended env) ≡ ok (length env)
unfolding count_cells
count_cells-ended [] = refl
count_cells-ended (s ∷ ss) = rw (count_cells-ended ss)

take-ended :
    (env : List Bytes) (more : Cells) → take (length env) (map some env ++ more) ≡ map some env
take-ended [] more = refl
take-ended (s ∷ ss) more = ap (◌∷◌ (some s)) (take-ended ss more)

strings_of-nulls : (ss : List Bytes) (k : ℕ) → strings_of (map some ss ++ nulls (suc k)) ≡ ok ss
unfolding strings_of
strings_of-nulls [] k = refl
strings_of-nulls (s ∷ ss) k = rw (strings_of-nulls ss k)

-- Every setting at once: the array has no room for the null pointer.
abbrev pub is_full : Options → Bool
is_full o = o.fake_root && o.warnings && o.force_load && not (is_empty o.chroot)

module _ (p q r t u v w x : Bytes) (env : List Bytes) where
  abbrev chosen : Bool → Bool → Bool → Bool → List Bytes
  chosen a b c d = u ∷ when a p ++ when b q ++ when c r ++ when d t ++ v ∷ w ∷ x ∷ []

  -- The array with its settings chosen, and what is found in it.
  filled :
      (a b c d : Bool)
      → strings_of (
          map some (chosen a b c d)
          ++ map some env
          ++ nulls (8 - length (map some (chosen a b c d))))
        ≡ (if a && b && c && d then fault out_of_bounds else ok (chosen a b c d ++ env))
  unfolding strings_of
  filled true true true true = rw (full env)
    where
      full : (env : List Bytes) → strings_of (map some env ++ []) ≡ fault out_of_bounds
      full [] = refl
      full (s ∷ ss) = rw (full ss)
  filled true true true false = rw (strings_of-nulls env)
  filled true true false true = rw (strings_of-nulls env)
  filled true true false false = rw (strings_of-nulls env)
  filled true false true true = rw (strings_of-nulls env)
  filled true false true false = rw (strings_of-nulls env)
  filled true false false true = rw (strings_of-nulls env)
  filled true false false false = rw (strings_of-nulls env)
  filled false true true true = rw (strings_of-nulls env)
  filled false true true false = rw (strings_of-nulls env)
  filled false true false true = rw (strings_of-nulls env)
  filled false true false false = rw (strings_of-nulls env)
  filled false false true true = rw (strings_of-nulls env)
  filled false false true false = rw (strings_of-nulls env)
  filled false false false true = rw (strings_of-nulls env)
  filled false false false false = rw (strings_of-nulls env)

-- What the next LBW, or execve, finds in the environment that linux_exec makes: the settings, of which
-- each is cut to the 159 bytes that cprintf has room for, and
-- then the strings of the calling program, in their order, unless --fakeroot, --warnings, --forceload
-- and a chroot are all set, when there is no null pointer at the end and the reader runs out of the
-- array. A calling program without an environment is not counted at all: the count runs out of its
-- array.
pub new_environ_lem :
    (o : Options) (cwd pathname s : Bytes) (ss : List Bytes)
    → (and_then (new_environ o cwd pathname (ended (s ∷ ss))) strings_of
        ≡ (if is_full o then fault out_of_bounds else ok (settings o cwd pathname ++ s ∷ ss)))
      × (new_environ o cwd pathname (ended []) ≡ fault out_of_bounds)
unfolding new_environ
new_environ_lem o cwd pathname s ss = (
  rw (count_cells-ended ss, take-ended (s ∷ ss) (none ∷ []))
      (filled _ _ _ _ _ _ _ _ (s ∷ ss) o.fake_root o.warnings o.force_load
        (not (is_empty o.chroot))),
  refl,
)
