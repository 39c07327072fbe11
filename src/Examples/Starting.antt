-- ===== src/Examples/Starting.antt =====
-- The start of a thread and of a program, and a call of poll.
use lbw.Prelude.{
  ◌%◌, ◌^◌, ℕ, ◌+◌, ◌≡◌, ◌≢◌, refl, true, false, List, [], ◌∷◌, ◌++◌, Option, none, some, length,
  arith, ◌⊎◌,
}
use lbw.Prelude.Results.{Errno, Result, ok, throw}
use lbw.Threads.{
  Thread, created, create_master, store_result, check, wait_master, recheck, post_slave, open_ctl,
  open_status, command, post_master, wait_slave, read_state, Reach, here, later, running, returned,
  returned_null, setting_error, given_up, storing, blocked,
}
use lbw.Threads.Startup.{has_posted, created-answer}
use lbw.Threads.LostError.{lost_error}
use lbw.InitialStack.{Loaded, Start, auxsize, run_elf}
use lbw.InitialStack.Startup.{read_stack, pairs, run_elf_lem}
use lbw.Sockets.{SocketConstants, Words, store_word}
use lbw.Sockets.SocketOptions.{Outcome, convert_sockopt_lem}
use lbw.Offsets.{sys32_lseek, sys_llseek}
use lbw.Offsets.Sizes.{sys_llseek-sys32_lseek}
use lbw.SelectPoll.{ℤ, pos, PollFd, Sets, sys_poll, ask_all, all_fit}
use lbw.SelectPoll.Reports.{IsSelect, Reported, sys_poll_lem}

abbrev eagain : ℕ
eagain = 11

-- The master starts and watches before the slave runs.
started :
    (t : Thread) × Reach eagain created t
    × (t.slave ≡ running)
    × (t.undefined ≡ false)
    × (t.creator ≡ returned 0)
started =
    let r1 = later here (create_master 0 refl (refl, refl)) in
    let r2 = later r1 (store_result 0 refl (refl, refl)) in
    let r3 = later r2 (check refl (refl, refl)) in
    let r4 = later r3 (open_ctl true refl) in
    let r5 = later r4 (open_status true refl) in
    let r6 = later r5 (command refl) in
    let r7 = later r6 (post_master refl) in
    let r8 = later r7 (wait_master 0 refl (refl, refl) refl) in
    let r9 = later r8 (recheck refl (refl, refl)) in
    let r10 = later r9 (post_slave refl (refl, refl)) in
    let r11 = later r10 (wait_slave 0 refl refl refl) in
    let r12 = later r11 (read_state refl refl) in (_, r12, refl, refl, refl)

no_eagain : eagain ≢ 0
no_eagain h = absurd (omega arith)

created-answer_example :
    ((◌≡◌ {A = ℕ} 0 0) × (started.0.slave ≡ running) × (has_posted started.0.master ≡ true))
    ⊎ ((◌≢◌ {A = ℕ} 0 0) × (started.0.slave ≡ returned_null))
created-answer_example = created-answer eagain no_eagain started.0 0 started.1 started.3 started.4

-- The master cannot open its file before the slave goes on.
failing_master :
    (t : Thread) × Reach eagain created t
    × (t.slave ≡ storing 0)
    × (t.master ≡ setting_error)
    × (t.creator ≡ blocked)
failing_master =
    let r1 = later here (create_master 0 refl (refl, refl)) in
    let r2 = later r1 (open_ctl false refl) in (_, r2, refl, refl, refl)

lost_error_example :
    (u : Thread) × Reach eagain created u
    × (u.slave ≡ running)
    × (u.creator ≡ returned 0)
    × (u.master ≡ given_up)
lost_error_example =
    lost_error eagain failing_master.0 failing_master.1 failing_master.2 failing_master.3
      failing_master.4

abbrev program : Loaded
program = record {
  entrypoint = 0x0804_8100;
  program_header = 0x0804_8034;
  program_header_size = 32;
  num_program_headers = 5;
  load_address = 0;
}

abbrev interpreter : Loaded
interpreter = record {
  entrypoint = 0x5000_0800;
  program_header = 0;
  program_header_size = 32;
  num_program_headers = 6;
  load_address = 0x5000_0000;
}

run_elf_lem_example :
    (start : Start) × (run_elf program
        (some interpreter)
        (0x9000 ∷ 0x9010 ∷ 0 ∷ [])
        (0x9020 ∷ 0 ∷ [])
      ≡ ok start)
    × (start.eip ≡ 0x5000_0800)
    × (read_stack start.stack
        ≡ some (record {
          argc = 2;
          argv = 0x9000 ∷ 0x9010 ∷ [];
          environ = 0x9020 ∷ [];
          aux = pairs program (some interpreter);
        }))
    × (length start.stack ≡ 1 + (2 + 1 + 1 + 1 + auxsize))
run_elf_lem_example =
    run_elf_lem program (some interpreter) (0x9000 ∷ 0x9010 ∷ []) [] (0x9020 ∷ []) [] (omega arith)
      (omega arith)

-- Descriptor 3 may be read, and 4 is not ready.
abbrev wants_read : PollFd
wants_read = record { fd = pos 3; events = 5; revents = 0 }

abbrev wants_write : PollFd
wants_write = record { fd = pos 4; events = 4; revents = 0 }

abbrev three_ready : ℕ → Sets → Option (ℤ × ℤ) → Result ℕ × Sets
three_ready n sets t = (ok 1, record sets { writes = λ fd. false })

three_ready-IsSelect : IsSelect three_ready
three_ready-IsSelect n fd sets t = (λ h. h, λ h. cc, λ h. h)

abbrev polled_both : Result ℕ × List PollFd
polled_both = sys_poll 64 three_ready (wants_write ∷ wants_read ∷ []) (pos 100)

polled_both-ok : polled_both ≡ (ok 1, polled_both.1)
unfolding sys_poll ask_all all_fit
polled_both-ok = refl

sys_poll_lem_example :
    (q : PollFd) × (front : List PollFd) × (back : List PollFd) × (polled_both.1
      ≡ front ++ q ∷ back)
    × (length front ≡ 1)
    × Reported wants_read q
sys_poll_lem_example =
    sys_poll_lem 64 three_ready three_ready-IsSelect (wants_write ∷ []) [] wants_read 3 refl
      (λ h. cc, tt) tt (pos 100) 1 polled_both.1 polled_both-ok

abbrev constants : SocketConstants
constants = record {
  sol_socket = 0xffff;
  so_debug = 1;
  so_reuseaddr = 4;
  so_type = 0x1008;
  so_error = 0x1007;
  so_dontroute = 0x10;
  so_broadcast = 0x20;
  so_sndbuf = 0x1001;
  so_rcvbuf = 0x1002;
  so_keepalive = 8;
  so_oobinline = 0x100;
  so_linger = 0x80;
  inet_ip = 0;
  ip_options = 1;
  ip_tos = 3;
  ip_ttl = 4;
  inet_tcp = 6;
  tcp_nodelay = 1;
  tcp_maxseg = 2;
  tcp_keepalive = 8;
  inet_udp = 17;
  msg_oob = 1;
  msg_peek = 2;
  af_inet = 2;
  af_unix = 1;
}

-- TCP_KEEPIDLE
convert_sockopt_lem_example : Outcome constants 6 4
convert_sockopt_lem_example =
    convert_sockopt_lem constants (λ h. absurd (omega arith)) (λ h. absurd (omega arith))
      (λ h. absurd (omega arith)) 6 4

-- A message at 1000 and its buffer, whose element is at 2000, and the arguments of two calls.
abbrev words : Words
words = store_word 1000 7 (
    store_word 1004 16 (
      store_word 1008 2000 (
        store_word 1012 1 (
          store_word 1020 0 (
            store_word 2000 5000 (
              store_word 2004 80 (
                store_word 3000 9 (
                  store_word 3004 1000 (
                    store_word 3008 2 (
                      store_word 4000 9 (
                        store_word 4004 5000 (
                          store_word 4008 80 (
                            store_word 4012 2
                              (store_word 4016 7 (store_word 4020 16 (λ a. 0))))))))))))))))

abbrev at_offset : ℕ → ℕ → ℕ → Result ℕ
at_offset fd offset whence = ok offset

sys_llseek-sys32_lseek_example :
    ((i : ℕ)
      → at_offset 3 100 0 ≡ ok i
      → (sys32_lseek at_offset 3 100 0 ≡ ok (i % 2 ^ 32))
        × (sys_llseek at_offset 3 1 100 0 ≡ (ok 0, some i)))
    × ((e : Errno)
        → at_offset 3 100 0 ≡ throw e
        → (sys32_lseek at_offset 3 100 0 ≡ throw e)
          × (sys_llseek at_offset 3 1 100 0 ≡ (throw e, none)))
sys_llseek-sys32_lseek_example =
    sys_llseek-sys32_lseek at_offset 3 1 100 0 (omega arith) (omega arith) (omega arith)
