-- ===== src/CommandLine/Inheritance.antt =====
-- src/exec/exec.cc and src/main.cc: which options pass from one LBW to the next.
use lbw.Prelude.{
  ◌≡◌, refl, Bool, true, false, List, [], ◌∷◌, ◌++◌, none, some, ◌==◌, Bool-cases, inl, inr,
}
use lbw.Prelude.Results.{ok}
use lbw.Prelude.Flags.{All}
use lbw.Prelude.Text.{Bytes, codes, starts_with}
use lbw.ExecImage.{Options, first_bytes, settings}
use lbw.CommandLine.{strip, getenv, inherit}

-- No string of the environment is one of LBW's own.
abbrev pub IsForeign : List Bytes → Type 0
IsForeign env = All (λ s. starts_with (codes "LBW_") s ≡ false) env

strip-foreign : (p q s : Bytes) → starts_with p s ≡ false → strip (p ++ q) s ≡ none
unfolding strip
strip-foreign [] q s h = cc
strip-foreign (x ∷ xs) q [] h = refl
strip-foreign (x ∷ xs) q (y ∷ ys) h = elim (Bool-cases (x == y)) [
  | inl e ↦ rw e (strip-foreign xs q ys (rw e at h))
  | inr e ↦ rw e
]

getenv-foreign :
    (name : Bytes) (env : List Bytes) → IsForeign env → getenv (codes "LBW_" ++ name) env ≡ none
unfolding getenv
getenv-foreign name [] f = refl
getenv-foreign name (s ∷ ss) f =
    rw (strip-foreign (codes "LBW_") (name ++ b'=' ∷ []) s f.0) (getenv-foreign name ss f.1)

module _ (cwd pathname lbw : Bytes) (env : List Bytes) (f : IsForeign env) where
  abbrev made : Bool → Bool → Bool → Bytes → Options
  made a b c chroot = record {
    lbw_exe = lbw;
    chroot = chroot;
    fake_root = a;
    warnings = b;
    force_load = c;
  }

  abbrev cut : Bool → Bool → Bytes → Options
  cut a c chroot = record {
    lbw_exe = first_bytes 148 lbw;
    chroot = first_bytes 148 chroot;
    fake_root = a;
    warnings = c;
    force_load = false;
  }

  inherited :
      (a b c : Bool) (chroot : Bytes)
      → inherit (settings (made a b c chroot) cwd pathname ++ env)
        ≡ ok (record {
          options = cut a c chroot;
          cwd = some (first_bytes 151 cwd);
          linux_file = first_bytes 146 pathname;
        })
  unfolding inherit settings
  inherited true true true [] = rw (getenv-foreign (codes "CHROOT") env f)
  inherited true true true (x ∷ xs) = refl
  inherited true true false [] =
      rw (getenv-foreign (codes "FORCELOAD") env f, getenv-foreign (codes "CHROOT") env f)
  inherited true true false (x ∷ xs) = rw (getenv-foreign (codes "FORCELOAD") env f)
  inherited true false true [] = rw (getenv-foreign (codes "CHROOT") env f)
  inherited true false true (x ∷ xs) = refl
  inherited true false false [] =
      rw (getenv-foreign (codes "FORCELOAD") env f, getenv-foreign (codes "CHROOT") env f)
  inherited true false false (x ∷ xs) = rw (getenv-foreign (codes "FORCELOAD") env f)
  inherited false true true [] =
      rw (getenv-foreign (codes "FAKEROOT") env f, getenv-foreign (codes "CHROOT") env f)
  inherited false true true (x ∷ xs) = rw (getenv-foreign (codes "FAKEROOT") env f)
  inherited false true false [] = rw (
    getenv-foreign (codes "FAKEROOT") env f,
    getenv-foreign (codes "FORCELOAD") env f,
    getenv-foreign (codes "CHROOT") env f,
  )
  inherited false true false (x ∷ xs) =
      rw (getenv-foreign (codes "FAKEROOT") env f, getenv-foreign (codes "FORCELOAD") env f)
  inherited false false true [] =
      rw (getenv-foreign (codes "FAKEROOT") env f, getenv-foreign (codes "CHROOT") env f)
  inherited false false true (x ∷ xs) = rw (getenv-foreign (codes "FAKEROOT") env f)
  inherited false false false [] = rw (
    getenv-foreign (codes "FAKEROOT") env f,
    getenv-foreign (codes "FORCELOAD") env f,
    getenv-foreign (codes "CHROOT") env f,
  )
  inherited false false false (x ∷ xs) =
      rw (getenv-foreign (codes "FAKEROOT") env f, getenv-foreign (codes "FORCELOAD") env f)

-- Where no string of the calling program's environment begins with "LBW_": the options that an LBW
-- takes from the settings that another wrote are --fakeroot as it was; of the executable and of the
-- chroot only the first 148 bytes, of the current directory the first 151 and of the program the first
-- 146, which is all of them where they are no longer; and --warnings and --forceload are not what
-- they were: the new LBW has --forceload for --warnings, and never --forceload.
pub inherit-settings :
    (o : Options) (cwd pathname : Bytes) (env : List Bytes)
    → IsForeign env
    → inherit (settings o cwd pathname ++ env)
      ≡ ok (record {
        options = record o {
          lbw_exe = first_bytes 148 o.lbw_exe;
          chroot = first_bytes 148 o.chroot;
          warnings = o.force_load;
          force_load = false;
        };
        cwd = some (first_bytes 151 cwd);
        linux_file = first_bytes 146 pathname;
      })
inherit-settings o cwd pathname env f =
    inherited cwd pathname o.lbw_exe env f o.fake_root o.warnings o.force_load o.chroot
