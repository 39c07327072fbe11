-- ===== src/Threads/Startup.antt =====
-- src/Thread.cc: what holds whatever the order of the threads' steps.
use lbw.Prelude.{ℕ, ◌≡◌, ◌≢◌, ◌<◌, Bool, true, false, ◌==◌, arith, ◌⊎◌}
use lbw.Threads.{
  Slave, creating, rechecking, posting, failing, running, returned_null, Master, absent, watching,
  given_up, deleted, Creator, blocked, returned, Thread, created, Step, create_master, store_result,
  check, wait_master, recheck, post_slave, post_failure, open_ctl, open_status, command,
  post_master, set_error, post_error, wait_slave, read_state, stop, delete_this, wait_deleted,
  read_deleted, go_deleted, Reach, here, later,
}

-- Whether the master is at the end of its startup.
abbrev pub has_posted : Master → Bool
has_posted watching = true
has_posted given_up = true
has_posted deleted = true
has_posted _ = false

abbrev has_waited : Slave → Bool
has_waited rechecking = true
has_waited posting = true
has_waited running = true
has_waited _ = false

-- Whether the slave is past its last read of the startup state, with 0 or with an error.
abbrev has_started : Slave → Bool
has_started posting = true
has_started running = true
has_started _ = false

abbrev has_failed : Slave → Bool
has_failed failing = true
has_failed returned_null = true
has_failed _ = false

abbrev pub is_over : Slave → Bool
is_over running = true
is_over returned_null = true
is_over _ = false

abbrev pub is_blocked : Creator → Bool
is_blocked blocked = true
is_blocked _ = false

abbrev is_running : Slave → Bool
is_running running = true
is_running _ = false

abbrev is_creating : Slave → Bool
is_creating creating = true
is_creating _ = false

abbrev Answers : Creator → Slave → Type 0
Answers (returned r) slave = (r == 0) ≡ is_running slave
Answers _ slave = Unit

abbrev pub Inv : Thread → Type 0
Inv t =
    (is_creating t.slave ≡ true → t.master ≡ absent)
    × (0 < t.master_startup_semaphore → has_posted t.master ≡ true)
    × (has_waited t.slave ≡ true → has_posted t.master ≡ true)
    × (has_started t.slave ≡ true → t.startup_state ≡ 0)
    × (has_failed t.slave ≡ true → t.startup_state ≢ 0)
    × (0 < t.slave_startup_semaphore → is_over t.slave ≡ true)
    × (is_blocked t.creator ≡ false → is_over t.slave ≡ true)
    × Answers t.creator t.slave

pub created-Inv : Inv created
created-Inv = ground arith

module _ (eagain : ℕ) where
  -- What is not undefined was not before.
  pub defined-before : {t u : Thread} → Step eagain t u → u.undefined ≡ false → t.undefined ≡ false
  defined-before (create_master e h m) d = d
  defined-before (store_result e h m) d = d
  defined-before (check h m) d = d
  defined-before (wait_master k h m n) d = d
  defined-before (recheck h m) d = d
  defined-before (post_slave h m) d = d
  defined-before (post_failure h m) d = d
  defined-before (open_ctl true h) d = d
  defined-before (open_ctl false h) d = d
  defined-before (open_status true h) d = d
  defined-before (open_status false h) d = d
  defined-before (command h) d = d
  defined-before (post_master h) d = d
  defined-before (set_error h) d = d
  defined-before (post_error h) d = d
  defined-before (wait_slave k h m n) d = d
  defined-before (read_state h m) d = d
  defined-before (stop a h m) d = d
  defined-before (delete_this h) d = d
  defined-before (wait_deleted h m) d = cc
  defined-before (read_deleted v h m) d = cc
  defined-before (go_deleted s h m n) d = cc

module _ (eagain : ℕ) (error : eagain ≢ 0) where
  Step-Inv : {t u : Thread} → Inv t → Step eagain t u → u.undefined ≡ false → Inv u
  Step-Inv i (create_master e h m) d = ground arith
  Step-Inv i (store_result e h m) d = ground arith
  Step-Inv i (check h m) d = ground arith
  Step-Inv i (wait_master k h m n) d = ground arith
  Step-Inv i (recheck h m) d = ground arith
  Step-Inv i (post_slave h m) d = ground arith
  Step-Inv i (post_failure h m) d = ground arith
  Step-Inv i (open_ctl true h) d = ground arith
  Step-Inv i (open_ctl false h) d = ground arith
  Step-Inv i (open_status true h) d = ground arith
  Step-Inv i (open_status false h) d = ground arith
  Step-Inv i (command h) d = ground arith
  Step-Inv i (post_master h) d = ground arith
  Step-Inv i (set_error h) d = ground arith
  Step-Inv i (post_error h) d = ground arith
  Step-Inv i (wait_slave k h m n) d = ground arith
  Step-Inv i (read_state h m) d = ground arith
  Step-Inv i (stop a h m) d = ground arith
  Step-Inv i (delete_this h) d = ground arith
  Step-Inv i (wait_deleted h m) d = cc
  Step-Inv i (read_deleted v h m) d = cc
  Step-Inv i (go_deleted s h m n) d = cc

  pub reach-Inv : {t u : Thread} → Inv t → Reach eagain t u → u.undefined ≡ false → Inv u
  reach-Inv i here d = i
  reach-Inv i (later r s) d = Step-Inv (reach-Inv i r (defined-before eagain s d)) s d

  -- Create, slave_main: in whatever order the threads run, and whether or not the slave is stopped: where
  -- neither Create nor the slave has used the object after the master deleted it, and Create returns 0,
  -- the slave has come to the user's code and the master to the end of its startup, successfully or
  -- not; and where under the same condition Create returns an error, the slave has returned without
  -- having run any.
  pub created-answer :
      (t : Thread) (e : ℕ)
      → Reach eagain created t
      → t.undefined ≡ false
      → t.creator ≡ returned e
      → ((e ≡ 0) × (t.slave ≡ running) × (has_posted t.master ≡ true))
        ⊎ ((e ≢ 0) × (t.slave ≡ returned_null))
  created-answer t e r d h = let i = reach-Inv created-Inv r d in ground (arith, i)
