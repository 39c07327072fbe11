-- ===== src/Threads/Stopped.antt =====
-- src/Thread.cc: a slave that is stopped, with what is reached from there.
use lbw.Prelude.{ℕ, ◌≡◌, refl, true, false, arith}
use lbw.Threads.{
  Slave, Thread, Step, create_master, store_result, check, wait_master, recheck, post_slave,
  post_failure, open_ctl, open_status, command, post_master, set_error, post_error, wait_slave,
  read_state, stop, delete_this, wait_deleted, read_deleted, go_deleted, Reach, here, later,
}
use lbw.Threads.Startup.{defined-before}

module _ (eagain : ℕ) where
  -- A stopped slave stays where it is, and stopped.
  abbrev StaysAt : Slave → Thread → Type 0
  StaysAt place u = (u.stopped ≡ true) × (u.slave ≡ place)

  Step-StaysAt :
      (place : Slave) {u v : Thread}
      → StaysAt place u
      → Step eagain u v
      → v.undefined ≡ false
      → StaysAt place v
  Step-StaysAt place i (create_master e h m) d = ground arith
  Step-StaysAt place i (store_result e h m) d = ground arith
  Step-StaysAt place i (check h m) d = ground arith
  Step-StaysAt place i (wait_master k h m n) d = ground arith
  Step-StaysAt place i (recheck h m) d = ground arith
  Step-StaysAt place i (post_slave h m) d = ground arith
  Step-StaysAt place i (post_failure h m) d = ground arith
  Step-StaysAt place i (open_ctl true h) d = ground arith
  Step-StaysAt place i (open_ctl false h) d = ground arith
  Step-StaysAt place i (open_status true h) d = ground arith
  Step-StaysAt place i (open_status false h) d = ground arith
  Step-StaysAt place i (command h) d = ground arith
  Step-StaysAt place i (post_master h) d = ground arith
  Step-StaysAt place i (set_error h) d = ground arith
  Step-StaysAt place i (post_error h) d = ground arith
  Step-StaysAt place i (wait_slave k h m n) d = ground arith
  Step-StaysAt place i (read_state h m) d = ground arith
  Step-StaysAt place i (stop a h m) d = ground arith
  Step-StaysAt place i (delete_this h) d = ground arith
  Step-StaysAt place i (wait_deleted h m) d = cc
  Step-StaysAt place i (read_deleted v h m) d = cc
  Step-StaysAt place i (go_deleted s h m n) d = cc

  pub reach-StaysAt :
      (t : Thread) {u : Thread}
      → t.stopped ≡ true
      → Reach eagain t u
      → u.undefined ≡ false
      → StaysAt t.slave u
  reach-StaysAt t s here d = (s, refl)
  reach-StaysAt t s (later r step) d =
      Step-StaysAt t.slave (reach-StaysAt t s r (defined-before eagain step d)) step d

  pub joined : {t u v : Thread} → Reach eagain t u → Reach eagain u v → Reach eagain t v
  joined r here = r
  joined r (later q s) = later (joined r q) s
