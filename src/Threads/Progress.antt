-- ===== src/Threads/Progress.antt =====
-- src/Thread.cc: that the start of a thread ends, whatever the order of the threads' steps.
use lbw.Prelude.{ℕ, ◌+◌, ◌≡◌, ◌≢◌, ◌<◌, Bool, true, false, if◌then◌else◌, ◌⊎◌}
use lbw.Threads.{
  Slave, creating, storing, checking, waiting, rechecking, posting, failing, running, returned_null,
  Master, absent, opening_ctl, opening_status, commanding, announcing, watching, setting_error,
  announcing_error, given_up, deleted, Creator, blocked, reading, returned, Thread, Step,
}
use lbw.Threads.Startup.{has_posted, is_over, is_blocked}

-- The steps that each thread has left at most.
abbrev slave_left : Slave → ℕ
slave_left creating = 6
slave_left (storing e) = 5
slave_left checking = 4
slave_left waiting = 3
slave_left rechecking = 2
slave_left posting = 1
slave_left failing = 1
slave_left running = 0
slave_left returned_null = 0

abbrev master_left : Master → ℕ
master_left absent = 7
master_left opening_ctl = 6
master_left opening_status = 5
master_left commanding = 4
master_left announcing = 3
master_left setting_error = 2
master_left announcing_error = 1
master_left watching = 1
master_left given_up = 0
master_left deleted = 0

abbrev creator_left : Creator → ℕ
creator_left blocked = 2
creator_left reading = 1
creator_left (returned r) = 0

abbrev pub steps_left : Thread → ℕ
steps_left t =
    slave_left t.slave
    + master_left t.master
    + creator_left t.creator
    + (if t.stopped then 0 else 1)

abbrev pub has_returned : Creator → Bool
has_returned (returned r) = true
has_returned _ = false

abbrev before_wait : Slave → Bool
before_wait creating = true
before_wait (storing e) = true
before_wait checking = true
before_wait waiting = true
before_wait _ = false

-- That a slave whose master was not created has an error.
abbrev HasError : Slave → Master → ℕ → Type 0
HasError (storing e) m state = m ≡ absent → e ≢ 0
HasError checking m state = m ≡ absent → state ≢ 0
HasError waiting m state = m ≢ absent
HasError _ m state = Unit

abbrev Live : Thread → Type 0
Live t =
    (t.slave ≡ creating → t.master ≡ absent)
    × HasError t.slave t.master t.startup_state
    × (before_wait t.slave ≡ true → has_posted t.master ≡ true → 0 < t.master_startup_semaphore)
    × (is_over t.slave ≡ true → is_blocked t.creator ≡ true → 0 < t.slave_startup_semaphore)

module _ (eagain : ℕ) (error : eagain ≢ 0) where
  abbrev Goes : Thread → Type 0
  Goes t = (has_returned t.creator ≡ true) ⊎ (u : Thread) × Step eagain t u
