-- ===== src/SelectPoll.antt =====
-- src/syscalls/selectpoll.cc: poll, as a call of select.
pub mod Events
pub mod Reports
use lbw.Prelude.{
  ℕ, zero, suc, ◌+◌, ◌*◌, ◌/◌, ◌%◌, Bool, true, false, not, ◌&&◌, ◌||◌, List, [], ◌∷◌, Option, none,
  some, ◌==◌, ltb, if◌then◌else◌, map, bit_or,
}
use lbw.Prelude.Flags.{test}
use lbw.Prelude.Results.{Result, ok, throw, fault, and_then, out_of_bounds}

-- A signed number of the C code.
pub data ℤ : Type 0 where
  pos negsuc : ℕ → ℤ

abbrev pub pollin : ℕ
pollin = 0x001

abbrev pub pollout : ℕ
pollout = 0x004

abbrev pub pollerr : ℕ
pollerr = 0x008

-- struct pollfd
pub record PollFd : Type 0 where
  pub fd : ℤ
  pub events : ℕ
  pub revents : ℕ

abbrev pub FdSet : Type 0
FdSet = ℕ → Bool

pub record Sets : Type 0 where
  pub reads : FdSet
  pub writes : FdSet
  pub excepts : FdSet

abbrev pub no_sets : Sets
no_sets = record { reads = λ n. false; writes = λ n. false; excepts = λ n. false }

-- FD_SET, if the flag is there.
abbrev pub set_if : Bool → ℕ → FdSet → FdSet
set_if b n s x = s x || (b && x == n)

abbrev pub minus : ℕ → ℤ
minus zero = pos zero
minus (suc k) = negsuc k

-- struct timeval from milliseconds: `/` and `%` of C go towards 0.
abbrev pub timeval : ℤ → ℤ × ℤ
timeval (pos ms) = (pos (ms / 1000), pos (ms % 1000 * 1000))
timeval (negsuc n) = (minus (suc n / 1000), minus (suc n % 1000 * 1000))

-- `(timeout == -1) ? NULL : &tv`
abbrev pub timeout_of : ℤ → Option (ℤ × ℤ)
timeout_of (negsuc zero) = none
timeout_of t = some (timeval t)

-- What the first loop has found: the sets and maxfd.
pub record Asked : Type 0 where
  pub sets : Sets
  pub maxfd : ℕ

abbrev pub ask : ℕ → ℕ → Asked → Asked
ask n events a = record {
  sets = record {
    reads = set_if (test events pollin) n a.sets.reads;
    writes = set_if (test events pollout) n a.sets.writes;
    excepts = set_if (test events pollerr) n a.sets.excepts;
  };
  maxfd = if ltb a.maxfd n then n else a.maxfd;
}

abbrev pub interested : ℕ → Bool
interested events = test events pollin || (test events pollout || test events pollerr)

-- One round; FD_SET does not look at the size of an fd_set.
abbrev pub ask_fd : ℕ → PollFd → Asked → Result Asked
ask_fd fd_setsize p a = elim p.fd [
  | negsuc n ↦ if interested p.events then fault out_of_bounds else ok a
  | pos n ↦
      if ltb n fd_setsize
      then ok (ask n p.events a)
      else if interested p.events
      then fault out_of_bounds
      else ok (ask n p.events a)
]

unfoldable pub ask_all : ℕ → List PollFd → Asked → Result Asked
ask_all fd_setsize [] a = ok a
ask_all fd_setsize (p ∷ ps) a = and_then (ask_fd fd_setsize p a) (ask_all fd_setsize ps)

abbrev pub no_events : PollFd → PollFd
no_events p = record p { revents = 0 }

-- FD_ISSET of a descriptor that fits into an fd_set.
abbrev pub is_set : ℤ → FdSet → Bool
is_set (pos n) s = s n
is_set (negsuc n) s = false

-- Whether FD_ISSET reads no memory outside of an fd_set, in all rounds of the second loop.
unfoldable pub all_fit : ℕ → List PollFd → Bool
all_fit fd_setsize [] = true
all_fit fd_setsize (p ∷ ps) =
    (elim p.fd [ negsuc n ↦ false | pos n ↦ ltb n fd_setsize ]) && all_fit fd_setsize ps

-- A round of the second loop.
abbrev pub answer : Sets → PollFd → PollFd
answer ready p = record p {
  revents =
      bit_or
        (bit_or (if is_set p.fd ready.reads then pollin else 0)
          (if is_set p.fd ready.writes then pollout else 0))
        (if is_set p.fd ready.excepts then pollerr else 0);
}

-- `select` is the call of Interix: from the number of descriptors, the sets and the time, its result
-- and the sets that it leaves.
module _ (fd_setsize : ℕ) (select : ℕ → Sets → Option (ℤ × ℤ) → Result ℕ × Sets) where
  abbrev pub answered : List PollFd → Result ℕ × Sets → Result ℕ × List PollFd
  answered ps (throw e, ready) = (throw e, map no_events ps)
  answered ps (fault x, ready) = (fault x, map no_events ps)
  answered ps (ok n, ready) =
      if n == 0
      then (ok 0, map no_events ps)
      else if all_fit fd_setsize ps
      then (ok n, map (answer ready) ps)
      else (fault out_of_bounds, ps)

  abbrev pub polled : List PollFd → ℤ → Result Asked → Result ℕ × List PollFd
  polled ps timeout (throw e) = (throw e, ps)
  polled ps timeout (fault x) = (fault x, ps)
  polled ps timeout (ok a) = answered ps (select (a.maxfd + 1) a.sets (timeout_of timeout))

  -- sys_poll, with the array that it writes to.
  unfoldable pub sys_poll : List PollFd → ℤ → Result ℕ × List PollFd
  sys_poll ps timeout =
      polled ps timeout (ask_all fd_setsize ps (record { sets = no_sets; maxfd = 0 }))
