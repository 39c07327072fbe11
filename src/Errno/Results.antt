-- ===== src/Errno/Results.antt =====
-- src/linux_errno.cc: the program can tell errors from results, and errors from one another; what
-- it cannot be told ends the process.
use lbw.Prelude.{
  ℕ, ◌-◌, ◌≤◌, ◌<◌, ◌≡◌, refl, none, some, arith, Option, ◌==◌, if◌then◌else◌, ap, sym, ◌∙◌,
}
use lbw.Prelude.Results.{
  Errno, ok, throw, fault, aborted, efbig, eafnosupport, enolck, erange, unnamed, eagain, ebadf,
  echild, eexist, efault, einprogress, eintr, einval, eio, eisconn, eisdir, enoent, enoexec, enomem,
  enoprotoopt, enosys, enotdir, enotempty, enotty, enxio, eopnotsupp, eoverflow, eperm, epipe,
  eprotonosupport, eprototype, espipe, esrch, etimedout, etxtbsy, exdev,
}
use lbw.MemOp.{u32_mod}
use lbw.Errno.{errno_i2l, negate, finish}

errno_i2l_bounds : (e : Errno) (n : ℕ) → errno_i2l e ≡ some n → (1 ≤ n) × (n ≤ 115)
unfolding errno_i2l
errno_i2l_bounds eagain n h = ground arith
errno_i2l_bounds _ n h = ground arith

-- The errno with a given Linux number.
abbrev errno_of : Option ℕ → Errno
errno_of none = unnamed 0
errno_of (some n) =
    if n == 11
    then eagain
    else if n == 9
    then ebadf
    else if n == 10
    then echild
    else if n == 17
    then eexist
    else if n == 14
    then efault
    else if n == 115
    then einprogress
    else if n == 4
    then eintr
    else if n == 22
    then einval
    else if n == 5
    then eio
    else if n == 106
    then eisconn
    else if n == 21
    then eisdir
    else if n == 2
    then enoent
    else if n == 8
    then enoexec
    else if n == 12
    then enomem
    else if n == 92
    then enoprotoopt
    else if n == 38
    then enosys
    else if n == 20
    then enotdir
    else if n == 39
    then enotempty
    else if n == 25
    then enotty
    else if n == 6
    then enxio
    else if n == 95
    then eopnotsupp
    else if n == 75
    then eoverflow
    else if n == 1
    then eperm
    else if n == 32
    then epipe
    else if n == 93
    then eprotonosupport
    else if n == 91
    then eprototype
    else if n == 29
    then espipe
    else if n == 3
    then esrch
    else if n == 110
    then etimedout
    else if n == 26
    then etxtbsy
    else if n == 18
    then exdev
    else unnamed n

errno_of-errno_i2l : (e : Errno) (n : ℕ) → errno_i2l e ≡ some n → e ≡ errno_of (some n)
unfolding errno_i2l
errno_of-errno_i2l efbig n h = cc
errno_of-errno_i2l eafnosupport n h = cc
errno_of-errno_i2l enolck n h = cc
errno_of-errno_i2l erange n h = cc
errno_of-errno_i2l (unnamed m) n h = cc
errno_of-errno_i2l _ n h = ap errno_of h

negate-ok : (o : Option ℕ) (r : ℕ) → negate o ≡ ok r → (n : ℕ) × (o ≡ some n) × (r ≡ u32_mod - n)
unfolding negate
negate-ok none r h = cc
negate-ok (some n) r h = (n, refl, ground arith)

-- A thrown errno that has a Linux number makes the system call return a value in the range that
-- Linux keeps for errors, the negation of a number from 1 to 115, and no other errno gives the same
-- value.
pub finish-throw :
    (e f : Errno) (r : ℕ)
    → finish (throw e) ≡ ok r
    → (u32_mod - 115 ≤ r) × (r < u32_mod) × (finish (throw f) ≡ ok r → f ≡ e)
unfolding finish
finish-throw e f r h =
    let (n, known, value) = negate-ok (errno_i2l e) r h in
    let bounds = errno_i2l_bounds e n known in
    (
      omega arith,
      omega arith,
      λ k.
          let (m, known', value') = negate-ok (errno_i2l f) r k in
          let bounds' = errno_i2l_bounds f m known' in
          let same : m ≡ n = omega arith in
          errno_of-errno_i2l f m known'
          ∙ ap (λ t. errno_of (some t)) same
          ∙ sym (errno_of-errno_i2l e n known),
    )

-- The errnos that Truncate, the conversion of file locks, Connect and getcwd throw, and those that
-- the program has no name for, end the process.
pub finish-unknown :
    (n : ℕ)
    → (finish (throw efbig) ≡ fault aborted)
      × (finish (throw enolck) ≡ fault aborted)
      × (finish (throw eafnosupport) ≡ fault aborted)
      × (finish (throw erange) ≡ fault aborted)
      × (finish (throw (unnamed n)) ≡ fault aborted)
unfolding finish
finish-unknown n = (refl, refl, refl, refl, refl)
