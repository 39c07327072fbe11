-- ===== src/Threads/LostError.antt =====
-- src/Thread.cc: the master's error is stored in the same member as the result of pthread_create that
-- started the master.
use lbw.Prelude.{ℕ, ◌≡◌, Bool, true, false, arith, refl}
use lbw.Threads.{
  creating, storing, running, Master, absent, announcing, watching, setting_error, given_up,
  deleted, blocked, returned, Thread, created, is_deleted, Runs, Step, create_master, store_result,
  check, wait_master, recheck, post_slave, post_failure, open_ctl, open_status, command,
  post_master, set_error, post_error, wait_slave, read_state, stop, delete_this, wait_deleted,
  read_deleted, go_deleted, Reach, here, later,
}

-- Whether the master may have asked the slave to stop.
abbrev is_behind_command : Master → Bool
is_behind_command announcing = true
is_behind_command watching = true
is_behind_command deleted = true
is_behind_command _ = false

abbrev Calm : Thread → Type 0
Calm t =
    (is_deleted t.master ≡ false → t.slave ≡ creating → t.master ≡ absent)
    × (t.stop_asked ≡ true → is_behind_command t.master ≡ true)
    × (t.stopped ≡ true → t.stop_asked ≡ true)

module _ (eagain : ℕ) where
  Step-Calm : {t u : Thread} → Calm t → Step eagain t u → Calm u
  Step-Calm i (create_master e h m) = ground arith
  Step-Calm i (store_result e h m) = ground arith
  Step-Calm i (check h m) = ground arith
  Step-Calm i (wait_master k h m n) = ground arith
  Step-Calm i (recheck h m) = ground arith
  Step-Calm i (post_slave h m) = ground arith
  Step-Calm i (post_failure h m) = ground arith
  Step-Calm i (open_ctl true h) = ground arith
  Step-Calm i (open_ctl false h) = ground arith
  Step-Calm i (open_status true h) = ground arith
  Step-Calm i (open_status false h) = ground arith
  Step-Calm i (command h) = ground arith
  Step-Calm i (post_master h) = ground arith
  Step-Calm i (set_error h) = ground arith
  Step-Calm i (post_error h) = ground arith
  Step-Calm i (wait_slave k h m n) = ground arith
  Step-Calm i (read_state h m) = ground arith
  Step-Calm i (stop a h m) = ground arith
  Step-Calm i (delete_this h) = ground arith
  Step-Calm i (wait_deleted h m) = ground arith
  Step-Calm i (read_deleted v h m) = ground arith
  Step-Calm i (go_deleted s h m n) = ground arith

  reach-Calm : {t : Thread} → Reach eagain created t → Calm t
  reach-Calm here = ground arith
  reach-Calm (later r s) = Step-Calm (reach-Calm r) s

  runs_lem : (t : Thread) → Calm t → t.master ≡ setting_error → Runs t
  runs_lem t i h = (ground arith, ground arith)

-- Create, slave_main, master_main: wherever pthread_create has started the master but its result is
-- not yet stored, and the master has failed to open its files, there is an order of the next steps
-- in which the error is overwritten: the slave runs the user's code, Create returns 0, and no
-- master watches the slave.
pub lost_error :
    (eagain : ℕ) (t : Thread)
    → Reach eagain created t
    → t.slave ≡ storing 0
    → t.master ≡ setting_error
    → t.creator ≡ blocked
    → (u : Thread) × Reach eagain created u
      × (u.slave ≡ running)
      × (u.creator ≡ returned 0)
      × (u.master ≡ given_up)
lost_error eagain t r slave master creator =
    let runs = runs_lem eagain t (reach-Calm eagain r) master in
    let still = runs.0 in
    let r1 = later r (set_error master) in
    let r2 = later r1 (post_error refl) in
    let r3 = later r2 (store_result 0 slave (still, refl)) in
    let r4 = later r3 (check refl (still, refl)) in
    let r5 = later r4 (wait_master t.master_startup_semaphore refl (still, refl) refl) in
    let r6 = later r5 (recheck refl (still, refl)) in
    let r7 = later r6 (post_slave refl (still, refl)) in
    let r8 = later r7 (wait_slave t.slave_startup_semaphore creator refl refl) in
    let r9 = later r8 (read_state refl refl) in (_, r9, refl, refl, refl)
