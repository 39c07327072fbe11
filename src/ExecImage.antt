-- ===== src/ExecImage.antt =====
-- src/exec/exec.cc: how LBW starts a program: which kind of file it is, the environment by which a
-- new LBW learns its options, and the first line of a script. Arrays of strings that end in a null
-- pointer are lists of cells; a read behind the last cell is a fault.
pub mod Environment
pub mod Shebang
use lbw.Prelude.{
  ℕ, zero, suc, ◌+◌, ◌-◌, Bool, true, false, not, ◌||◌, ◌&&◌, List, [], ◌∷◌, ◌++◌, map, Option,
  none, some, ◌==◌, if◌then◌else◌, length,
}
use lbw.Prelude.Results.{Errno, enoexec, einval, Result, ok, throw, fault, and_then, out_of_bounds}
use lbw.Prelude.Text.{Bytes, codes, is_empty, starts_with}

-- The kinds that probe_executable tells apart.
pub data Kind : Type 0 where
  unknown elf interix_image shell : Kind

-- probe_executable: `head` are the four bytes of the buffer after pread, none where that returns -1.
unfoldable pub probe_executable : Option Bytes → Kind
probe_executable none = unknown
probe_executable (some head) =
    if starts_with (0x7f ∷ codes "ELF") head
    then elf
    else if starts_with (codes "MZ") head
    then interix_image
    else if starts_with (codes "#!") head
    then shell
    else unknown

-- The members of Options that a new LBW inherits (struct Options_s of src/globals.h).
pub record Options : Type 0 where
  pub lbw_exe : Bytes
  pub chroot : Bytes
  pub fake_root : Bool
  pub warnings : Bool
  pub force_load : Bool

abbrev pub Cells : Type 0
Cells = List (Option Bytes)

-- `while (p[i]) i++;`
unfoldable pub count_cells : Cells → Result ℕ
count_cells [] = fault out_of_bounds
count_cells (none ∷ cs) = ok 0
count_cells (some s ∷ cs) = and_then (count_cells cs) (λ n. ok (suc n))

-- `int envc = 1; while (environ[envc]) envc++;`
unfoldable pub count_environ : Cells → Result ℕ
unfolding count_cells
count_environ [] = fault out_of_bounds
count_environ (c ∷ cs) = and_then (count_cells cs) (λ n. ok (suc n))

abbrev pub when : Bool → Bytes → List Bytes
when true s = s ∷ []
when false s = []

-- cprintf of src/utils.cc, of the bytes that the format gives: vsnprintf keeps as many of them as have
-- room with their terminator in char buffer[160].
abbrev pub first_bytes : ℕ → Bytes → Bytes
first_bytes zero s = []
first_bytes (suc n) [] = []
first_bytes (suc n) (b ∷ bs) = b ∷ first_bytes n bs

abbrev pub cprintf : Bytes → Bytes
cprintf formatted = first_bytes 159 formatted

-- The LBW-specific settings, in the order in which they are written.
unfoldable pub settings : Options → Bytes → Bytes → List Bytes
settings o cwd pathname =
    codes "LBW_CHILD=1" ∷ when o.fake_root (codes "LBW_FAKEROOT=1")
    ++ when o.warnings (codes "LBW_WARNINGS=1")
    ++ when o.force_load (codes "LBW_FORCELOAD=1")
    ++ when (not (is_empty o.chroot)) (cprintf (codes "LBW_CHROOT=" ++ o.chroot))
    ++ cprintf (codes "LBW_CWD=" ++ cwd)
      ∷ cprintf (codes "LBW_LBWEXE=" ++ o.lbw_exe)
      ∷ cprintf (codes "LBW_LINUXEXE=" ++ pathname)
      ∷ []

abbrev pub take : ℕ → Cells → Cells
take zero cs = []
take (suc n) [] = []
take (suc n) (c ∷ cs) = c ∷ take n cs

abbrev pub nulls : ℕ → Cells
nulls zero = []
nulls (suc n) = none ∷ nulls n

-- The array newenviron[envc + 8] of linux_exec: cleared, then the settings, then envc cells.
unfoldable pub new_environ : Options → Bytes → Bytes → Cells → Result Cells
unfolding count_environ settings
new_environ o cwd pathname environ = and_then (count_environ environ) λ envc.
    let head = map some (settings o cwd pathname) in
    ok (head ++ take envc environ ++ nulls (8 - length head))

-- What execve, or any reader of such an array, finds in it.
unfoldable pub strings_of : Cells → Result (List Bytes)
strings_of [] = fault out_of_bounds
strings_of (none ∷ cs) = ok []
strings_of (some s ∷ cs) = and_then (strings_of cs) (λ ss. ok (s ∷ ss))

abbrev pub isterm : ℕ → Bool
isterm c = c == 0 || c == 10 || c == 13

abbrev pub issep : ℕ → Bool
issep c = isterm c || c == 32 || c == 9

-- The loops of shell_exec over the buffer; what is left of it stands behind the bytes read.
unfoldable pub skip_separators : Bytes → Result Bytes
skip_separators [] = fault out_of_bounds
skip_separators (c ∷ cs) = let rest = skip_separators cs in if issep c then rest else ok (c ∷ cs)

unfoldable pub skip_blanks : Bytes → Result Bytes
skip_blanks [] = fault out_of_bounds
skip_blanks (c ∷ cs) =
    let rest = skip_blanks cs in if issep c && not (isterm c) then rest else ok (c ∷ cs)

-- `while (!issep(*end)) end++;`: the word and what stands from its end on.
unfoldable pub word : Bytes → Result (Bytes × Bytes)
word [] = fault out_of_bounds
word (c ∷ cs) =
    let rest = and_then (word cs) (λ w. ok (c ∷ w.0, w.1)) in
    if issep c then ok ([], c ∷ cs) else rest

-- A word whose first byte was already looked at.
abbrev pub word_from : Bytes → Result (Bytes × Bytes)
word_from [] = fault out_of_bounds
word_from (c ∷ cs) = and_then (word cs) (λ w. ok (c ∷ w.0, w.1))

abbrev pub argument_at : Bytes → Result (Option Bytes)
argument_at [] = fault out_of_bounds
argument_at (c ∷ cs) =
    let rest = and_then (word_from (c ∷ cs)) (λ w. ok (some w.0)) in
    if isterm c then ok none else rest

abbrev pub argument_after : Bytes → Result (Option Bytes)
argument_after [] = fault out_of_bounds
argument_after (c ∷ cs) =
    let rest = and_then (skip_blanks cs) argument_at in if isterm c then ok none else rest

-- `if (!*interpreter_start) throw EINVAL;`
abbrev pub non_null : Bytes → Result Bytes
non_null [] = fault out_of_bounds
non_null (c ∷ cs) = if c == 0 then throw einval else ok (c ∷ cs)

-- The "messy code to parse the #! line", over the buffer from its third byte on.
unfoldable pub parse_shebang : Bytes → Result (Bytes × Option Bytes)
unfolding skip_separators skip_blanks word
parse_shebang buffer = and_then (skip_separators buffer) λ s.
    and_then (non_null s)
      λ t. and_then (word_from t) λ w. and_then (argument_after w.1) (λ a. ok (w.0, a))

-- The new argument array: argv[0] gives way to the path of the script. With no argv[0] its null
-- pointer is overwritten.
abbrev pub replace_first : Bytes → Cells → Cells
replace_first pathname [] = []
replace_first pathname (c ∷ cs) = some pathname ∷ cs

abbrev pub optional : Option Bytes → Cells
optional none = []
optional (some a) = some a ∷ []

unfoldable pub new_argv : Bytes → Option Bytes → Bytes → Cells → Result Cells
unfolding count_cells
new_argv interpreter arg pathname argv =
    and_then (count_cells argv)
      λ argc. ok (some interpreter ∷ optional arg ++ replace_first pathname (take (suc argc) argv))

-- shell_exec: the arguments with which Exec is called again.
unfoldable pub shell_exec : Bytes → Bytes → Cells → Result Cells
unfolding parse_shebang new_argv
shell_exec buffer pathname argv =
    and_then (parse_shebang buffer) (λ r. new_argv r.0 r.1 pathname argv)
