-- ===== src/InitialStack.antt =====
-- src/user.cc, RunElf: what stands on the stack when a program starts.
pub mod Startup
use lbw.Prelude.{
  ℕ, zero, suc, ◌+◌, ◌*◌, Bool, true, false, List, [], ◌∷◌, ◌++◌, Option, none, some, ◌==◌, ltb,
  length, if◌then◌else◌,
}
use lbw.Prelude.Results.{Result, ok, fault, and_then, out_of_bounds}

-- What GetEntrypoint, GetProgramHeader(0) and so on say of a loaded ElfLoader.
pub record Loaded : Type 0 where
  pub entrypoint : ℕ
  pub program_header : ℕ
  pub program_header_size : ℕ
  pub num_program_headers : ℕ
  pub load_address : ℕ

-- The array calldata, as far as it is written, and its size.
pub record Calldata : Type 0 where
  pub written : List ℕ
  pub arraysize : ℕ

-- `calldata[index++] = word;`
abbrev pub put : ℕ → Calldata → Result Calldata
put word c =
    if ltb (length c.written) c.arraysize
    then ok (record c { written = c.written ++ word ∷ [] })
    else fault out_of_bounds

unfoldable pub put_all : List ℕ → Calldata → Result Calldata
put_all [] c = ok c
put_all (w ∷ ws) c = and_then (put w c) (put_all ws)

-- `while (argv[argvsize]) argvsize++;`, over the words in memory from argv on.
unfoldable pub count : List ℕ → Result ℕ
count [] = fault out_of_bounds
count (w ∷ ws) = if w == 0 then ok 0 else and_then (count ws) (λ n. ok (suc n))

-- `for (int i = 0; i < argvsize; i++) calldata[index++] = argv[i];`
unfoldable pub copy : ℕ → List ℕ → Calldata → Result Calldata
copy zero ws c = ok c
copy (suc n) [] c = fault out_of_bounds
copy (suc n) (w ∷ ws) c = and_then (put w c) (copy n ws)

abbrev pub at_null : ℕ
at_null = 0

abbrev pub at_phdr : ℕ
at_phdr = 3

abbrev pub at_phent : ℕ
at_phent = 4

abbrev pub at_phnum : ℕ
at_phnum = 5

abbrev pub at_pagesz : ℕ
at_pagesz = 6

abbrev pub at_base : ℕ
at_base = 7

abbrev pub at_flags : ℕ
at_flags = 8

abbrev pub at_entry : ℕ
at_entry = 9

abbrev pub base_of : Option Loaded → ℕ
base_of none = 0
base_of (some interpreter) = interpreter.load_address

-- What is written behind the environment.
unfoldable pub auxiliary : Loaded → Option Loaded → List ℕ
auxiliary executable interpreter =
    at_phdr
    ∷ executable.program_header
    ∷ at_phent
    ∷ executable.program_header_size
    ∷ at_phnum
    ∷ executable.num_program_headers
    ∷ at_entry
    ∷ executable.entrypoint
    ∷ at_pagesz
    ∷ 0x1000
    ∷ at_base
    ∷ base_of interpreter
    ∷ at_flags
    ∷ 0
    ∷ at_null
    ∷ []

abbrev pub auxsize : ℕ
auxsize = 7 * 2 + 1

abbrev pub entry_of : Loaded → Option Loaded → ℕ
entry_of executable none = executable.entrypoint
entry_of executable (some interpreter) = interpreter.entrypoint

-- Where the program starts, and the words on its stack from esp on.
pub record Start : Type 0 where
  pub eip : ℕ
  pub stack : List ℕ

unfoldable pub calldata_of : ℕ → ℕ → List ℕ → List ℕ → List ℕ → Result Calldata
calldata_of argvsize envsize argv environ aux =
    let empty : Calldata = record {
      written = [];
      arraysize = argvsize + 1 + envsize + 1 + auxsize;
    } in
    and_then (copy argvsize argv empty) λ c.
      and_then (put 0 c)
        λ c. and_then (copy envsize environ c) λ c. and_then (put 0 c) (put_all aux)

-- RunElf, once the program and its interpreter are loaded. `push` of argvsize and of the entry
-- point, where `ret` goes, are the end of it.
unfoldable pub run_elf : Loaded → Option Loaded → List ℕ → List ℕ → Result Start
run_elf executable interpreter argv environ = and_then (count argv) λ argvsize.
    and_then (count environ) λ envsize.
      and_then (calldata_of argvsize envsize argv environ (auxiliary executable interpreter))
        λ c. ok (record { eip = entry_of executable interpreter; stack = argvsize ∷ c.written })
