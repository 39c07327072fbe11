-- ===== src/Nodes/Jail.antt =====
-- src/filesystem/: the directories of Interix that the nodes below a root stand for.
use lbw.Prelude.{
  ◌≡◌, ◌≢◌, refl, ◌⊎◌, inl, inr, Bool, true, false, ◌||◌, List, [], ◌∷◌, ◌++◌, Option, none, some,
  arith, if◌then◌else◌, Bool-cases, ◌∙◌, sym, subst,
}
use lbw.Prelude.Results.{ok, and_then}
use lbw.Prelude.Text.{Bytes, codes, eqb, is_empty, is_absolute, slash, NoSlash, starts_with}
use lbw.Nodes.{
  FileSystem, FakeFile, fake_directory, tunnelled_file, tunnelled_directory, Node, root, interix,
  dev, pts, Call, check_error, dot, dotdot, Files, find_file, found_files, files_of, device_files,
  get_real_path, new_interix, new_child, open_fake_directory, open_found, traverse,
  traverse_interix, traverse_fake, get_parent, tunnel,
}

-- A path that goes down from another, by elements that are names of their own.
pub data Under (base : Bytes) : Bytes → Type 0 where
  top : Under base base
  below :
      {path : Bytes} (name : Bytes)
      → Under base path
      → NoSlash name
      → name ≢ dot
      → name ≢ dotdot
      → name ≢ []
      → Under base (path ++ slash ∷ name)

-- Below the root's directory, or below one of the two that the device nodes open.
abbrev pub InJail : Bytes → Bytes → Type 0
InJail base path = Under base path ⊎ (Under (codes "/dev/fs") path ⊎ Under (codes "/dev/ptmx") path)

-- Every node on the way up to the root is in the jail.
abbrev pub Inside : Bytes → Node → Type 0
Inside base (root p f) = p ≡ base
Inside base (interix p n path) = Inside base p × InJail base path
Inside base (dev p f) = Inside base p
Inside base (pts p) = Inside base p

-- The directory of a node that is inside.
pub Inside-InJail :
    (base path : Bytes) (n : Node) → Inside base n → get_real_path n ≡ some path → InJail base path
unfolding get_real_path
Inside-InJail base path (root p f) i e =
    inl (subst (Under base) (sym i ∙ some_injective e) Under.top)
  where
    some_injective : {a b : Bytes} → some a ≡ some b → a ≡ b
    some_injective h = cc
Inside-InJail base path (interix p n q) i e = subst (InJail base) (some_injective e) i.1
  where
    some_injective : {a b : Bytes} → some a ≡ some b → a ≡ b
    some_injective h = cc
Inside-InJail base path (dev p f) i e = cc
Inside-InJail base path (pts p) i e = cc

InJail-below :
    (base path name : Bytes)
    → InJail base path
    → NoSlash name
    → name ≢ dot
    → name ≢ dotdot
    → name ≢ []
    → InJail base (path ++ slash ∷ name)
InJail-below base path name (inl u) c d e f = inl (Under.below name u c d e f)
InJail-below base path name (inr (inl u)) c d e f = inr (inl (Under.below name u c d e f))
InJail-below base path name (inr (inr u)) c d e f = inr (inr (Under.below name u c d e f))

-- What the files of the device nodes open.
abbrev Tunnels : Node → FakeFile → Type 0
Tunnels n (fake_directory m) = m ≡ pts n
Tunnels n (tunnelled_file dest) = Unit
Tunnels n (tunnelled_directory dest) = (dest ≡ codes "/dev/fs") ⊎ (dest ≡ codes "/dev/ptmx")

abbrev AllTunnel : Node → Files → Type 0
AllTunnel n [] = Unit
AllTunnel n ((name, f) ∷ fs) = Tunnels n f × AllTunnel n fs

found_files-AllTunnel :
    (n : Node) (names : List Bytes) (fs : Files)
    → AllTunnel n fs
    → AllTunnel n (found_files names fs)
unfolding found_files
found_files-AllTunnel n [] fs a = a
found_files-AllTunnel n (m ∷ ms) fs a =
    found_files-AllTunnel n ms
      (if starts_with (codes "pty") m || starts_with (codes "tty") m then tunnel m ∷ fs else fs)
      (more (starts_with (codes "pty") m || starts_with (codes "tty") m))
  where
    more : (b : Bool) → AllTunnel n (if b then tunnel m ∷ fs else fs)
    more true = (tt, a)
    more false = a

files_of-AllTunnel : (n : Node) → AllTunnel n (files_of n)
unfolding files_of
files_of-AllTunnel (dev p f) = (
  refl,
  found_files-AllTunnel (dev p f) f device_files
      (inl refl, (tt, (tt, (tt, (tt, (tt, (tt, (tt, (tt, tt))))))))),
)
files_of-AllTunnel (pts p) = (inr refl, tt)
files_of-AllTunnel (root p f) = tt
files_of-AllTunnel (interix p n path) = tt

find_file-Tunnels :
    (n : Node) (name : Bytes) (fs : Files) (f : FakeFile)
    → AllTunnel n fs
    → find_file name fs ≡ some f
    → Tunnels n f
unfolding find_file
find_file-Tunnels n name [] f a h = cc
find_file-Tunnels n name ((m, g) ∷ fs) f a h = elim (Bool-cases (eqb m name)) [
  | inl e ↦ subst (Tunnels n) (same (rw e at h)) a.0
  | inr e ↦ find_file-Tunnels n name fs f a.1 (rw e at h)
]
  where
    same : some g ≡ some f → g ≡ f
    same h = cc

get_parent-Inside : (base : Bytes) (n : Node) → Inside base n → Inside base (get_parent n)
unfolding get_parent
get_parent-Inside base (root p f) i = i
get_parent-Inside base (interix p n path) i = i.0
get_parent-Inside base (dev p f) i = i
get_parent-Inside base (pts p) i = i

NoSlash-relative : (name : Bytes) → NoSlash name → is_absolute name ≡ false
NoSlash-relative [] h = refl
NoSlash-relative (c ∷ cs) h = ground arith

module _ (os : FileSystem) (base : Bytes) where
  new_interix-ok :
      (parent m : Node) (name path : Bytes) (r : Call (Unit {0}))
      → and_then (check_error r) (λ _. ok (interix parent name path)) ≡ ok m
      → m ≡ interix parent name path
  new_interix-ok parent m name path (inl e) h = cc
  new_interix-ok parent m name path (inr u) h = cc

  traverse_interix-Inside :
      (n m : Node) (path name : Bytes)
      → Inside base n
      → InJail base path
      → NoSlash name
      → traverse_interix os n path name ≡ ok m
      → Inside base m
  unfolding new_child new_interix
  traverse_interix-Inside n m path name i j clean h =
      elim (Bool-cases (eqb name dot || is_empty name)) [
        | inl here ↦ subst (Inside base) (same n (rw here at h)) i
        | inr there ↦ elim (Bool-cases (eqb name dotdot)) [
          | inl up ↦
              subst (Inside base) (same (get_parent n) (rw (there, up) at h))
                (get_parent-Inside base n i)
          | inr down ↦
              let e =
                new_interix-ok n m name (path ++ slash ∷ name) (os.chdir (path ++ slash ∷ name))
                  (rw (there, down, NoSlash-relative name clean) at h) in
              subst (Inside base) (sym e) (
                i,
                InJail-below base path name j clean (not_dot there) (not_dotdot down)
                    (not_empty there),
              )
        ]
      ]
    where
      same : (k : Node) → ok k ≡ ok m → k ≡ m
      same k h = cc

      not_dot : (eqb name dot || is_empty name) ≡ false → name ≢ dot
      not_dot h e = cc (subst (λ x. (eqb x dot || is_empty x) ≡ false) e h)

      not_empty : (eqb name dot || is_empty name) ≡ false → name ≢ []
      not_empty h e = cc (subst (λ x. (eqb x dot || is_empty x) ≡ false) e h)

      not_dotdot : eqb name dotdot ≡ false → name ≢ dotdot
      not_dotdot h e = cc (subst (λ x. eqb x dotdot ≡ false) e h)

  open_found-Inside :
      (n m : Node) (name : Bytes) (o : Option FakeFile)
      → Inside base n
      → Inside base (pts n)
      → ((f : FakeFile) → o ≡ some f → Tunnels n f)
      → open_found os o n name ≡ ok m
      → Inside base m
  unfolding open_fake_directory new_interix
  open_found-Inside n m name none i j t h = cc
  open_found-Inside n m name (some (fake_directory k)) i j t h =
      subst (Inside base) (sym (t (fake_directory k) refl) ∙ same h) j
    where
      same : ok k ≡ ok m → k ≡ m
      same h = cc
  open_found-Inside n m name (some (tunnelled_file dest)) i j t h = cc
  open_found-Inside n m name (some (tunnelled_directory dest)) i j t h =
      elim (t (tunnelled_directory dest) refl) [
        | inl e ↦ opened (codes "/dev/fs") e refl (inr (inl Under.top))
        | inr e ↦ opened (codes "/dev/ptmx") e refl (inr (inr Under.top))
      ]
    where
      opened :
          (path : Bytes) → dest ≡ path → is_absolute path ≡ true → InJail base path → Inside base m
      opened path e a u =
          subst (Inside base) (sym (new_interix-ok n m name path (os.chdir path) (rw (e, a) at h)))
            (i, u)

  traverse_fake-Inside :
      (n m : Node) (name : Bytes)
      → Inside base n
      → Inside base (pts n)
      → traverse_fake os n name ≡ ok m
      → Inside base m
  traverse_fake-Inside n m name i j h = elim (Bool-cases (eqb name dot || is_empty name)) [
    | inl here ↦ subst (Inside base) (same n (rw here at h)) i
    | inr there ↦ elim (Bool-cases (eqb name dotdot)) [
      | inl up ↦
          subst (Inside base) (same (get_parent n) (rw (there, up) at h))
            (get_parent-Inside base n i)
      | inr down ↦
          open_found-Inside n m name (find_file name (files_of n)) i j
            (λ f e. find_file-Tunnels n name (files_of n) f (files_of-AllTunnel n) e)
            (rw (there, down) at h)
    ]
  ]
    where
      same : (k : Node) → ok k ≡ ok m → k ≡ m
      same k h = cc

  -- Traverse stays inside.
  pub traverse-Inside :
      (n m : Node) (name : Bytes)
      → Inside base n
      → NoSlash name
      → traverse os n name ≡ ok m
      → Inside base m
  unfolding traverse
  traverse-Inside (root p f) m name i clean h = elim (Bool-cases (eqb name (codes "dev"))) [
    | inl e ↦ subst (Inside base) (same (rw e at h)) i
    | inr e ↦
        traverse_interix-Inside (root p f) m p name i (inl (subst (Under base) (sym i) Under.top))
          clean (rw e at h)
  ]
    where
      same : ok (dev (root p f) f) ≡ ok m → dev (root p f) f ≡ m
      same h = cc
  traverse-Inside (interix p n path) m name i clean h =
      traverse_interix-Inside (interix p n path) m path name i i.1 clean h
  traverse-Inside (dev p f) m name i clean h = traverse_fake-Inside (dev p f) m name i i h
  traverse-Inside (pts p) m name i clean h = traverse_fake-Inside (pts p) m name i i h
