-- ===== src/Examples/Programs.antt =====
-- The theorems on starting a program (src/exec/exec.cc, src/exec/ElfLoader.cc and src/main.cc) at
-- small arrays, scripts and executables.
use lbw.Prelude.{
  ℕ, zero, suc, ◌<◌, ◌≡◌, refl, ◌⊎◌, true, false, List, [], ◌∷◌, ◌++◌, Option, some, arith,
}
use lbw.Prelude.Results.{ok, fault, and_then, out_of_bounds, out_of_fuel}
use lbw.Prelude.Flags.{test}
use lbw.Prelude.Flags.{All}
use lbw.Prelude.Text.{Bytes, codes}
use lbw.ExecImage.{Options, new_environ, strings_of, settings, parse_shebang}
use lbw.ExecImage.Environment.{ended, new_environ_lem}
use lbw.ExecImage.Shebang.{IsSeparator, zero_ended, Says, parse_shebang_lem}
use lbw.CommandLine.{inherit}
use lbw.CommandLine.Inheritance.{inherit-settings}
use lbw.Elf.{ProgramHeader, ReadAt, interpreter_of, find_interpreter, protection, segment_steps}
use lbw.Nodes.{c_string}
use lbw.Elf.Headers.{IsOther, NoneBehind, find_interpreter_lem}
use lbw.Elf.Segments.{IsLoadable, Placed, segment_steps-Placed}

abbrev given : Options
given = record {
  lbw_exe = codes "/bin/lbw";
  chroot = codes "/linux";
  fake_root = true;
  warnings = false;
  force_load = true;
}

new_environ_lem_example :
    (and_then
        (new_environ given (codes "/") (codes "/bin/ls") (ended (codes "A=1" ∷ codes "B=2" ∷ [])))
        strings_of
      ≡ ok (settings given (codes "/") (codes "/bin/ls") ++ codes "A=1" ∷ codes "B=2" ∷ []))
    × (new_environ given (codes "/") (codes "/bin/ls") (ended []) ≡ fault out_of_bounds)
new_environ_lem_example =
    new_environ_lem given (codes "/") (codes "/bin/ls") (codes "A=1") (codes "B=2" ∷ [])

inherit-settings_example :
    inherit (settings given (codes "/") (codes "/bin/ls") ++ codes "A=1" ∷ [])
    ≡ ok (record {
      options = record given { warnings = true; force_load = false };
      cwd = some (codes "/");
      linux_file = codes "/bin/ls";
    })
inherit-settings_example =
    inherit-settings given (codes "/") (codes "/bin/ls") (codes "A=1" ∷ []) (refl, tt)

abbrev script : Bytes
script = codes " /bin/sh -e"

parse_shebang_lem_example :
    (All IsSeparator script × (parse_shebang (zero_ended script) ≡ fault out_of_bounds))
    ⊎ ((w : Bytes) × (a : Option Bytes) × (parse_shebang (zero_ended script) ≡ ok (w, a))
        × Says (zero_ended script) w a)
parse_shebang_lem_example = parse_shebang_lem script

script_says : parse_shebang (zero_ended script) ≡ ok (codes "/bin/sh", some (codes "-e"))
unfolding parse_shebang
script_says = refl

-- A program header for an interpreter with the one-letter name "x", after three others.
abbrev header : ℕ → ProgramHeader
header type = record {
  p_type = type;
  p_offset = 0x1234;
  p_vaddr = 0x2234;
  p_filesz = 1;
  p_memsz = 0x2000;
  p_flags = 6;
}

abbrev headers : List ProgramHeader
headers = header 6 ∷ header 1 ∷ header 1 ∷ header 3 ∷ []

abbrev read_x : ReadAt
read_x size offset = some (b'x' ∷ [])

others : (j : ℕ) → j < 3 → IsOther headers j
others zero h = (header 6, refl, refl)
others (suc zero) h = (header 1, refl, refl)
others (suc (suc zero)) h = (header 1, refl, refl)
others (suc (suc (suc j))) h = absurd (omega arith)

none_behind : NoneBehind headers 3
none_behind zero ph h e = absurd (omega arith)
none_behind (suc zero) ph h e = absurd (omega arith)
none_behind (suc (suc zero)) ph h e = absurd (omega arith)
none_behind (suc (suc (suc zero))) ph h e = absurd (omega arith)
none_behind (suc (suc (suc (suc j)))) ph h e = cc

x_is_read : interpreter_of 1 (read_x 1 0x1234) ≡ ok (codes "x")
unfolding c_string
x_is_read = refl

find_interpreter_lem_example : find_interpreter read_x headers 1005 0 [] ≡ fault out_of_fuel
find_interpreter_lem_example =
    find_interpreter_lem read_x headers 3 (header 3) (codes "x") refl refl x_is_read others 1000
      (omega arith) none_behind

header-IsLoadable : IsLoadable 0x1000_0000 (header 1)
header-IsLoadable = record {
  page = refl;
  congruent = refl;
  room = omega arith;
  in_file = omega arith;
  sizes = omega arith;
}

is_writable : test (protection 6) 2 ≡ true
unfolding protection
is_writable = refl

segment_steps-Placed_example : Placed 0x1000_0000 (header 1) (segment_steps 0x1000_0000 (header 1))
segment_steps-Placed_example =
    segment_steps-Placed 0x1000_0000 (header 1) header-IsLoadable is_writable
