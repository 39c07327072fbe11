-- ===== src/Threads.antt =====
-- src/Thread.cc: the start of a thread. Create() starts the slave thread, which is to run the user's
-- code; the slave starts a master thread that watches it, and waits for it. The steps of the three
-- come in any order. The kernel may stop the slave at any time after it was asked to (PCSTOP), and no code
-- resumes it; `delete this` of the master ends the object that the other two use, and what they do with
-- it from then on is any outcome.
pub mod Startup
pub mod Stopped
pub mod Progress
pub mod LostError
use lbw.Prelude.{ℕ, suc, ◌≡◌, ◌≢◌, Bool, true, false, ◌==◌, if◌then◌else◌}

-- Where slave_main is: `storing e` is behind pthread_create, with its result e not yet stored.
pub data Slave : Type 0 where
  creating checking waiting rechecking posting failing running returned_null : Slave
  storing : ℕ → Slave

-- Where master_main is; `watching` is its event loop, and `deleted` is behind its `delete this`.
pub data Master : Type 0 where
  absent opening_ctl opening_status commanding announcing watching : Master
  setting_error announcing_error given_up deleted : Master

-- Where Create() is.
pub data Creator : Type 0 where
  blocked reading : Creator
  returned : ℕ → Creator

-- The members of Thread that the threads share, with the counts of the two semaphores; whether the
-- slave was asked to stop and whether it is stopped; and whether the object was used after its deletion.
pub record Thread : Type 0 where
  pub slave : Slave
  pub master : Master
  pub creator : Creator
  pub startup_state : ℕ
  pub master_startup_semaphore : ℕ
  pub slave_startup_semaphore : ℕ
  pub stop_asked : Bool
  pub stopped : Bool
  pub undefined : Bool

-- Once pthread_create in Create() has returned 0.
abbrev pub created : Thread
created = record {
  slave = creating;
  master = absent;
  creator = blocked;
  startup_state = 0;
  master_startup_semaphore = 0;
  slave_startup_semaphore = 0;
  stop_asked = false;
  stopped = false;
  undefined = false;
}

abbrev pub is_deleted : Master → Bool
is_deleted deleted = true
is_deleted _ = false

-- The slave runs, and its object is there.
abbrev pub Runs : Thread → Type 0
Runs t = (t.stopped ≡ false) × (is_deleted t.master ≡ false)

-- master_main goes on, or to its error.
abbrev pub opened : Bool → Master → Master
opened true m = m
opened false m = setting_error

module _ (eagain : ℕ) where
  -- What one thread does up to the next access of a member. The results of pthread_create and of
  -- the two calls of open are chosen.
  pub data Step (t : Thread) : Thread → Type 0 where
    create_master :
        (e : ℕ)
        → t.slave ≡ creating
        → Runs t
        → Step t (record t { slave = storing e; master = if e == 0 then opening_ctl else t.master })
    store_result :
        (e : ℕ)
        → t.slave ≡ storing e
        → Runs t
        → Step t (record t { slave = checking; startup_state = e })
    check :
        t.slave ≡ checking
        → Runs t
        → Step t (record t { slave = if t.startup_state == 0 then waiting else failing })
    wait_master :
        (k : ℕ)
        → t.slave ≡ waiting
        → Runs t
        → t.master_startup_semaphore ≡ suc k
        → Step t (record t { slave = rechecking; master_startup_semaphore = k })
    recheck :
        t.slave ≡ rechecking
        → Runs t
        → Step t (record t { slave = if t.startup_state == 0 then posting else failing })
    post_slave :
        t.slave ≡ posting
        → Runs t
        → Step t
            (record t { slave = running; slave_startup_semaphore = suc t.slave_startup_semaphore })
    post_failure :
        t.slave ≡ failing
        → Runs t
        → Step t (record t {
          slave = returned_null;
          slave_startup_semaphore = suc t.slave_startup_semaphore;
        })
    open_ctl :
        (b : Bool) → t.master ≡ opening_ctl → Step t (record t { master = opened b opening_status })
    open_status :
        (b : Bool) → t.master ≡ opening_status → Step t (record t { master = opened b commanding })
    command : t.master ≡ commanding → Step t (record t { master = announcing; stop_asked = true })
    post_master :
        t.master ≡ announcing
        → Step t (record t {
          master = watching;
          master_startup_semaphore = suc t.master_startup_semaphore;
        })
    set_error :
        t.master ≡ setting_error
        → Step t (record t { master = announcing_error; startup_state = eagain })
    post_error :
        t.master ≡ announcing_error
        → Step t (record t {
          master = given_up;
          master_startup_semaphore = suc t.master_startup_semaphore;
        })
    wait_slave :
        (k : ℕ)
        → t.creator ≡ blocked
        → is_deleted t.master ≡ false
        → t.slave_startup_semaphore ≡ suc k
        → Step t (record t { creator = reading; slave_startup_semaphore = k })
    read_state :
        t.creator ≡ reading
        → is_deleted t.master ≡ false
        → Step t (record t { creator = returned t.startup_state })
    stop :
        t.stop_asked ≡ true
        → t.stopped ≡ false
        → t.slave ≢ returned_null
        → Step t (record t { stopped = true })
    delete_this : t.master ≡ watching → Step t (record t { master = deleted })
    wait_deleted :
        t.creator ≡ blocked
        → is_deleted t.master ≡ true
        → Step t (record t { creator = reading; undefined = true })
    read_deleted :
        (v : ℕ)
        → t.creator ≡ reading
        → is_deleted t.master ≡ true
        → Step t (record t { creator = returned v; undefined = true })
    go_deleted :
        (s : Slave)
        → t.slave ≢ returned_null
        → t.stopped ≡ false
        → is_deleted t.master ≡ true
        → Step t (record t { slave = s; undefined = true })

  pub data Reach (t : Thread) : Thread → Type 0 where
    here : Reach t t
    later : {u v : Thread} → Reach t u → Step u v → Reach t v
