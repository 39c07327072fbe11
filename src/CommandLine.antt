-- ===== src/CommandLine.antt =====
-- src/main.cc: the options of LBW, from its command line (ArgumentParser) or, for an LBW that another
-- one started, from the environment that src/exec/exec.cc made.
pub mod Inheritance
use lbw.Prelude.{
  ℕ, Bool, true, false, not, List, [], ◌∷◌, ◌++◌, Option, none, some, ◌==◌, if◌then◌else◌,
}
use lbw.Prelude.Results.{Result, ok, throw, fault, and_then, out_of_bounds, aborted}
use lbw.Prelude.Text.{Bytes, codes, eqb, is_empty}
use lbw.ExecImage.{Options}
use mathlib.Core.Option.{get_or}

-- What ArgumentParser holds. Its constructor leaves ForceLoad as the stack has it.
pub record Arguments : Type 0 where
  pub chroot : Bytes
  pub cwd : Bytes
  pub fake_root : Bool
  pub warnings : Bool
  pub force_load : Bool

abbrev pub starts_with_dash : Bytes → Bool
starts_with_dash [] = false
starts_with_dash (c ∷ cs) = c == b'-'

-- What ArgumentParser::Option makes of an option; `stop` is the test in Parse that ends the options.
-- --help and a bad option end the process.
pub data OptionKind : Type 0 where
  stop set_fakeroot set_warnings set_chroot set_forceload bad : OptionKind

unfoldable pub kind_of : Bytes → OptionKind
kind_of s =
    if is_empty s
    then bad
    else if not (starts_with_dash s)
    then stop
    else if eqb s (codes "--fakeroot")
    then set_fakeroot
    else if eqb s (codes "--warnings")
    then set_warnings
    else if eqb s (codes "--chroot")
    then set_chroot
    else if eqb s (codes "--forceload")
    then set_forceload
    else bad

-- ArgumentParser::Parse, over the arguments behind the program's own name. `--chroot` takes two
-- arguments, whether or not there are two.
unfoldable pub parse_arguments : Arguments → List Bytes → Result (Arguments × List Bytes)
unfolding kind_of
parse_arguments a [] = ok (a, [])
parse_arguments a (s ∷ []) = elim (kind_of s) [
  | stop ↦ ok (a, s ∷ [])
  | set_fakeroot ↦ ok (record a { fake_root = true }, [])
  | set_warnings ↦ ok (record a { warnings = true }, [])
  | set_chroot ↦ fault out_of_bounds
  | set_forceload ↦ ok (record a { force_load = true }, [])
  | bad ↦ fault aborted
]
parse_arguments a (s ∷ p ∷ more) = elim (kind_of s) [
  | stop ↦ ok (a, s ∷ p ∷ more)
  | set_fakeroot ↦ parse_arguments (record a { fake_root = true }) (p ∷ more)
  | set_warnings ↦ parse_arguments (record a { warnings = true }) (p ∷ more)
  | set_chroot ↦ parse_arguments (record a { chroot = p; cwd = codes "/" }) more
  | set_forceload ↦ parse_arguments (record a { force_load = true }) (p ∷ more)
  | bad ↦ fault aborted
]

-- getenv, over the strings of an environment: the value behind the first `name=`.
unfoldable pub strip : Bytes → Bytes → Option Bytes
strip [] s = some s
strip (x ∷ xs) [] = none
strip (x ∷ xs) (y ∷ ys) = if x == y then strip xs ys else none

unfoldable pub getenv : Bytes → List Bytes → Option Bytes
unfolding strip
getenv name [] = none
getenv name (s ∷ ss) = elim (strip (name ++ b'=' ∷ []) s) [
  | none ↦ getenv name ss
  | some v ↦ some v
]

abbrev pub is_set : Option Bytes → Bool
is_set none = false
is_set (some v) = true

-- What main takes from the environment: the members of Options, and the current directory and the
-- program to run.
pub record Inherited : Type 0 where
  pub options : Options
  pub cwd : Option Bytes
  pub linux_file : Bytes

abbrev pub or_abort : Option Bytes → Result Bytes
or_abort none = fault aborted
or_abort (some v) = ok v

-- The branch of main for an LBW that another one started. Options is zero at first. LBW_FORCELOAD
-- is read into Warnings.
unfoldable pub inherit : List Bytes → Result Inherited
unfolding getenv
inherit env = and_then (or_abort (getenv (codes "LBW_LBWEXE") env)) λ lbw.
    and_then (or_abort (getenv (codes "LBW_LINUXEXE") env)) λ file. ok (record {
      options = record {
        lbw_exe = lbw;
        chroot = get_or (getenv (codes "LBW_CHROOT") env) [];
        fake_root = is_set (getenv (codes "LBW_FAKEROOT") env);
        warnings = is_set (getenv (codes "LBW_FORCELOAD") env);
        force_load = false;
      };
      cwd = getenv (codes "LBW_CWD") env;
      linux_file = file;
    })
