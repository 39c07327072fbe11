-- ===== src/Errno.antt =====
-- src/linux_errno.cc, and the try block of Linux_MCE_Handler in src/syscalls/_dispatch.cc: how an
-- exception becomes the result of a system call.
pub mod Results
use lbw.Prelude.{ℕ, ◌-◌, Option, none, some}
use lbw.Prelude.Results.{
  Errno, eagain, ebadf, echild, eexist, efault, einprogress, eintr, einval, eio, eisconn, eisdir,
  enoent, enoexec, enomem, enoprotoopt, enosys, enotdir, enotempty, enotty, enxio, eopnotsupp,
  eoverflow, eperm, epipe, eprotonosupport, eprototype, espipe, esrch, etimedout, etxtbsy, exdev,
  Result, ok, throw, fault, aborted,
}
use lbw.MemOp.{u32_mod}

-- ErrnoI2L; none where it calls error(), for an Interix errno that it does not know.
unfoldable pub errno_i2l : Errno → Option ℕ
errno_i2l eagain = some 11
errno_i2l ebadf = some 9
errno_i2l echild = some 10
errno_i2l eexist = some 17
errno_i2l efault = some 14
errno_i2l einprogress = some 115
errno_i2l eintr = some 4
errno_i2l einval = some 22
errno_i2l eio = some 5
errno_i2l eisconn = some 106
errno_i2l eisdir = some 21
errno_i2l enoent = some 2
errno_i2l enoexec = some 8
errno_i2l enomem = some 12
errno_i2l enoprotoopt = some 92
errno_i2l enosys = some 38
errno_i2l enotdir = some 20
errno_i2l enotempty = some 39
errno_i2l enotty = some 25
errno_i2l enxio = some 6
errno_i2l eopnotsupp = some 95
errno_i2l eoverflow = some 75
errno_i2l eperm = some 1
errno_i2l epipe = some 32
errno_i2l eprotonosupport = some 93
errno_i2l eprototype = some 91
errno_i2l espipe = some 29
errno_i2l esrch = some 3
errno_i2l etimedout = some 110
errno_i2l etxtbsy = some 26
errno_i2l exdev = some 18
errno_i2l _ = none

-- `return -ErrnoI2L(e);`, as the 32-bit value that the program sees.
unfoldable pub negate : Option ℕ → Result ℕ
negate none = fault aborted
negate (some n) = ok (u32_mod - n)

-- The result of a system call: what it returns, or the negated errno that it throws.
unfoldable pub finish : Result ℕ → Result ℕ
unfolding errno_i2l negate
finish (ok r) = ok r
finish (throw e) = negate (errno_i2l e)
finish (fault x) = fault x
