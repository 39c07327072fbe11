-- ===== src/Prelude/Results.antt =====
-- What a C++ function gives back: a value, an exception of the program's (`throw EINVAL;`, an
-- Interix errno) or a fault that ends the process or is undefined behaviour. An action also
-- changes a state, and keeps what it wrote when it throws.
use mathlib.Core.Bool.{Bool, true, false}
use mathlib.Core.Path.{◌≡◌, refl}
use Prim.Native.Nat.{ℕ}

-- The errno symbols that the program names, and `unnamed` for any other value of `errno`.
pub data Errno : Type 0 where
  eagain ebadf echild eexist efault einprogress eintr einval eio eisconn eisdir enoent : Errno
  enoexec enomem enoprotoopt enosys enotdir enotempty enotty enxio eopnotsupp eoverflow : Errno
  eperm epipe eprotonosupport eprototype espipe esrch etimedout etxtbsy exdev : Errno
  eafnosupport efbig enolck erange : Errno
  unnamed : ℕ → Errno

-- `aborted` is a call of `error()`, which exits the process.
pub data Fault : Type 0 where
  assert_failed use_after_free null_dereference out_of_bounds aborted out_of_fuel : Fault

pub data Result {ℓ} (A : Type ℓ) : Type ℓ where
  ok : A → Result A
  throw : Errno → Result A
  fault : Fault → Result A

abbrev pub Exec {ℓ} : Type ℓ → Type ℓ → Type ℓ
Exec S A = S → Result A × S

module _ {ℓ} {S A : Type ℓ} where
  abbrev pub pure : A → Exec S A
  pure a s = (ok a, s)

  abbrev pub raise : Errno → Exec S A
  raise e s = (throw e, s)

  abbrev pub crash : Fault → Exec S A
  crash f s = (fault f, s)

  abbrev pub lift : Result A → Exec S A
  lift r s = (r, s)

module _ {ℓ} {S A B : Type ℓ} where
  abbrev pub continue : Result A × S → (A → Exec S B) → Result B × S
  continue (ok a, s) f = f a s
  continue (throw e, s) f = (throw e, s)
  continue (fault x, s) f = (fault x, s)

  infixl 10 ◌>>=◌ ◌>>◌
  abbrev pub ◌>>=◌ : Exec S A → (A → Exec S B) → Exec S B
  ◌>>=◌ m f s = continue (m s) f

  abbrev pub ◌>>◌ : Exec S A → Exec S B → Exec S B
  m >> n = m >>= λ _. n

-- `assert(b)`.
abbrev pub assert {ℓ} : {S : Type ℓ} → Bool → S → Result (Unit {ℓ}) × S
assert true s = (ok tt, s)
assert false s = (fault assert_failed, s)

module _ {ℓ} {A B : Type ℓ} where
  abbrev pub and_then : Result A → (A → Result B) → Result B
  and_then (ok a) f = f a
  and_then (throw e) f = throw e
  and_then (fault x) f = fault x

  -- Inversion of a call that is followed by another.
  pub and_then-ok :
      (m : Result A) (f : A → Result B) {b : B}
      → and_then m f ≡ ok b
      → (a : A) × (m ≡ ok a) × (f a ≡ ok b)
  and_then-ok (ok a) f h = (a, refl, h)
  and_then-ok (throw e) f h = cc
  and_then-ok (fault x) f h = cc

pub ok-injective {ℓ} : {A : Type ℓ} {a b : A} → ok a ≡ ok b → a ≡ b
ok-injective h = cc
