-- ===== src/Nodes/PtyPaths.antt =====
-- src/filesystem/PtsVFSNode.cc: which devices findpty can name.
use lbw.Prelude.{
  ℕ, ◌≤◌, ◌≡◌, ◌≢◌, refl, false, ◌||◌, [], ◌∷◌, ◌++◌, arith, ◌==◌, length, Bool-cases, inl, inr,
  ◌⊎◌, ◌%◌,
}
use lbw.Prelude.Flags.{All}
use lbw.Prelude.Text.{Bytes, codes, slash}
use lbw.Nodes.Ptys.{findpty, strtoul, pty_path, any_strange, until_zero, bytes_of, ulong_max}

abbrev pub IsPrintable : ℕ → Type 0
IsPrintable c = (32 ≤ c) × (c ≤ 126) × (c ≢ slash)

until_zero-All : (cs : Bytes) → any_strange cs ≡ false → All IsPrintable (until_zero cs)
unfolding any_strange until_zero
until_zero-All [] h = tt
until_zero-All (c ∷ cs) h = elim (Bool-cases (c == 0)) [
  | inl e ↦ rw e tt
  | inr e ↦ rw e (ground arith, until_zero-All cs (ground arith))
]

length-until_zero : (cs : Bytes) → length (until_zero cs) ≤ length cs
unfolding until_zero
length-until_zero [] = omega arith
length-until_zero (c ∷ cs) = elim (Bool-cases (c == 0)) [
  | inl e ↦ rw e (omega arith)
  | inr e ↦ rw e (omega (arith, length-until_zero cs))
]

until_zero-cons : (c : ℕ) (cs : Bytes) → (c == 0) ≡ false → 1 ≤ length (until_zero (c ∷ cs))
unfolding until_zero
until_zero-cons c cs e = rw e (omega arith)

-- A device that a number can name.
pub record IsPty (path : Bytes) : Type 0 where
  pub name : Bytes
  pub whole : path ≡ codes "/dev/tty" ++ name
  pub printable : All IsPrintable name
  pub some_name : 1 ≤ length name
  pub short : length name ≤ 4

pty_path-IsPty : (n : ℕ) → (pty_path n ≡ []) ⊎ IsPty (pty_path n)
unfolding pty_path
pty_path-IsPty n = elim (Bool-cases (n == 0 || n == ulong_max)) [
  | inl e ↦ inl (rw e)
  | inr e ↦ elim (Bool-cases (n % 256 == 0)) [
    | inl f ↦ inl (rw (e, f))
    | inr f ↦ elim (Bool-cases (any_strange (bytes_of n))) [
      | inl g ↦ inl (rw (e, f, g))
      | inr g ↦ inr (
          rw (e, f, g)
            (record {
              name = until_zero (bytes_of n);
              whole = refl;
              printable = until_zero-All (bytes_of n) g;
              some_name = until_zero-cons (n % 256) _ f;
              short = length-until_zero (bytes_of n);
            }))
    ]
  ]
]

-- Whatever name is looked up below /dev/pts, findpty gives either nothing or the path of a file
-- directly in /dev, whose name is "tty" and one to four printable characters without a slash.
pub findpty-IsPty : (name : Bytes) → (findpty name ≡ []) ⊎ IsPty (findpty name)
unfolding findpty
findpty-IsPty name = pty_path-IsPty (strtoul name)
