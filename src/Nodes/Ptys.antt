-- ===== src/Nodes/Ptys.antt =====
-- src/filesystem/PtsVFSNode.cc, findpty: the Linux slave of a terminal, named by a number, as the
-- path of a device of Interix, whose name is the bytes of that number.
use lbw.Prelude.{
  ℕ, ◌+◌, ◌-◌, ◌*◌, ◌/◌, ◌%◌, min, Bool, false, not, ◌&&◌, ◌||◌, [], ◌∷◌, ◌++◌, ltb, leb, ◌==◌,
  if◌then◌else◌,
}
use lbw.Prelude.Text.{Bytes, codes, slash}
use lbw.MemOp.{u32_mod}

-- strtoul(s, NULL, 10): white space, a sign and digits; a number that does not fit 32 bits is kept
-- as 2 ^ 32 and becomes ULONG_MAX, whatever its sign.
abbrev pub ulong_max : ℕ
ulong_max = 0xffff_ffff

unfoldable pub digits : ℕ → Bytes → ℕ
digits n [] = n
digits n (c ∷ cs) =
    let more = digits (min (n * 10 + (c - 48)) u32_mod) cs in
    if leb 48 c && leb c 57 then more else n

abbrev pub negated : ℕ → ℕ
negated n = if n == u32_mod then ulong_max else (u32_mod - n) % u32_mod

unfoldable pub signed : Bytes → ℕ
unfolding digits
signed [] = 0
signed (c ∷ cs) =
    if c == 43
    then min (digits 0 cs) ulong_max
    else if c == 45
    then negated (digits 0 cs)
    else min (digits 0 (c ∷ cs)) ulong_max

unfoldable pub strtoul : Bytes → ℕ
unfolding signed
strtoul [] = 0
strtoul (c ∷ cs) =
    let rest = strtoul cs in if c == 32 || (leb 9 c && leb c 13) then rest else signed (c ∷ cs)

-- The four bytes of the number in memory.
abbrev pub bytes_of : ℕ → Bytes
bytes_of n = n % 256 ∷ n / 0x100 % 256 ∷ n / 0x1_0000 % 256 ∷ n / 0x100_0000 % 256 ∷ []

-- `buffer[i] && ((buffer[i] == '/') || (buffer[i] < 32) || (buffer[i] > 126))`, as signed chars.
unfoldable pub any_strange : Bytes → Bool
any_strange [] = false
any_strange (c ∷ cs) = (not (c == 0) && (c == slash || ltb c 32 || ltb 126 c)) || any_strange cs

unfoldable pub until_zero : Bytes → Bytes
until_zero [] = []
until_zero (c ∷ cs) = if c == 0 then [] else c ∷ until_zero cs

unfoldable pub pty_path : ℕ → Bytes
pty_path n =
    if n == 0 || n == ulong_max
    then []
    else if n % 256 == 0
    then []
    else if any_strange (bytes_of n)
    then []
    else codes "/dev/tty" ++ until_zero (bytes_of n)

unfoldable pub findpty : Bytes → Bytes
unfolding strtoul pty_path any_strange until_zero
findpty name = pty_path (strtoul name)
