-- ===== src/Sockets.antt =====
-- src/syscalls/sockets.cc: socketcall, up to the methods of FD that it calls, with the conversion of
-- socket options and of the flags of messages.
pub mod Messages
pub mod SocketOptions
use lbw.Prelude.{
  ℕ, ◌+◌, ◌*◌, Bool, true, false, List, [], ◌∷◌, Option, none, some, ◌==◌, ltb, ◌||◌, if◌then◌else◌,
}
use lbw.Prelude.Flags.{Rule, copy_bits, test}
use lbw.Prelude.Results.{
  Result, ok, throw, fault, and_then, aborted, enoprotoopt, eprotonosupport, eopnotsupp,
}

-- The constants of Interix.
pub record SocketConstants : Type 0 where
  pub sol_socket : ℕ
  pub so_debug : ℕ
  pub so_reuseaddr : ℕ
  pub so_type : ℕ
  pub so_error : ℕ
  pub so_dontroute : ℕ
  pub so_broadcast : ℕ
  pub so_sndbuf : ℕ
  pub so_rcvbuf : ℕ
  pub so_keepalive : ℕ
  pub so_oobinline : ℕ
  pub so_linger : ℕ
  pub inet_ip : ℕ
  pub ip_options : ℕ
  pub ip_tos : ℕ
  pub ip_ttl : ℕ
  pub inet_tcp : ℕ
  pub tcp_nodelay : ℕ
  pub tcp_maxseg : ℕ
  pub tcp_keepalive : ℕ
  pub inet_udp : ℕ
  pub msg_oob : ℕ
  pub msg_peek : ℕ
  pub af_inet : ℕ
  pub af_unix : ℕ

abbrev pub linux_sol_socket : ℕ
linux_sol_socket = 1

-- A run of CONVERT lines: the Linux name and that of Interix.
abbrev pub converted : List (ℕ × ℕ) → ℕ → Option ℕ
converted [] optname = none
converted ((l, i) ∷ rows) optname =
    let rest = converted rows optname in if optname == l then some i else rest

-- With the level, or the throw behind `default`.
abbrev pub or_enoprotoopt : ℕ → Option ℕ → Result (ℕ × ℕ)
or_enoprotoopt level none = throw enoprotoopt
or_enoprotoopt level (some i) = ok (level, i)

module _ (c : SocketConstants) where
  abbrev pub socket_rows : List (ℕ × ℕ)
  socket_rows =
      (1, c.so_debug)
      ∷ (2, c.so_reuseaddr)
      ∷ (3, c.so_type)
      ∷ (4, c.so_error)
      ∷ (5, c.so_dontroute)
      ∷ (6, c.so_broadcast)
      ∷ (7, c.so_sndbuf)
      ∷ (8, c.so_rcvbuf)
      ∷ (9, c.so_keepalive)
      ∷ (10, c.so_oobinline)
      ∷ (13, c.so_linger)
      ∷ []

  abbrev pub ip_rows : List (ℕ × ℕ)
  ip_rows = (4, c.ip_options) ∷ (1, c.ip_tos) ∷ (2, c.ip_ttl) ∷ []

  abbrev pub tcp_rows : List (ℕ × ℕ)
  tcp_rows = (1, c.tcp_nodelay) ∷ (2, c.tcp_maxseg) ∷ []

  -- convert_sockopt. The `break` behind TCP_KEEPIDLE leads into the next case, which throws.
  unfoldable pub convert_sockopt : ℕ → ℕ → Result (ℕ × ℕ)
  convert_sockopt level optname =
      if level == linux_sol_socket
      then or_enoprotoopt c.sol_socket (converted socket_rows optname)
      else if level == c.inet_ip
      then or_enoprotoopt level (converted ip_rows optname)
      else if level == c.inet_tcp
      then or_enoprotoopt level (converted tcp_rows optname)
      else throw enoprotoopt

  abbrev pub msg_rules : List Rule
  msg_rules = record { from = 0x01; to = c.msg_oob } ∷ record { from = 0x02; to = c.msg_peek } ∷ []

  unfoldable pub convert_msg_flags : ℕ → ℕ
  convert_msg_flags lflags = copy_bits msg_rules lflags 0

-- A call of a method of FD, or of socket() with the flags that are set behind it.
pub data Request : Type 0 where
  socket : ℕ → ℕ → ℕ → Bool → Bool → Request
  bind_to connect_to : ℕ → ℕ → ℕ → Request
  set_sockopt get_sockopt : ℕ → ℕ → ℕ → ℕ → ℕ → Request
  get_sockname get_peername : ℕ → ℕ → ℕ → Request
  send_to recv_from : ℕ → ℕ → ℕ → ℕ → ℕ → ℕ → Request
  shutdown : ℕ → ℕ → Request

abbrev pub sock_cloexec : ℕ
sock_cloexec = 0x80000

abbrev pub sock_nonblock : ℕ
sock_nonblock = 0x800

-- The words of memory, by their addresses.
abbrev pub Words : Type 0
Words = ℕ → ℕ

abbrev pub store_word : ℕ → ℕ → Words → Words
store_word a w m x = if x == a then w else m x

module _ (c : SocketConstants) where
  abbrev pub do_socket : ℕ → ℕ → ℕ → Result Request
  do_socket protofamily type protocol =
      if protofamily == c.af_inet || protofamily == c.af_unix
      then ok (socket protofamily type protocol (test type sock_cloexec) (test type sock_nonblock))
      else throw eprotonosupport

  abbrev pub do_setsockopt : ℕ → ℕ → ℕ → ℕ → ℕ → Result Request
  do_setsockopt fd level optname optval optlen =
      and_then (convert_sockopt c level optname) (λ o. ok (set_sockopt fd o.0 o.1 optval optlen))

  abbrev pub do_getsockopt : ℕ → ℕ → ℕ → ℕ → ℕ → Result Request
  do_getsockopt fd level optname optval optlen =
      and_then (convert_sockopt c level optname) (λ o. ok (get_sockopt fd o.0 o.1 optval optlen))

  abbrev pub do_sendto : ℕ → ℕ → ℕ → ℕ → ℕ → ℕ → Result Request
  do_sendto fd buf len flags to tolen = ok (send_to fd buf len (convert_msg_flags c flags) to tolen)

  abbrev pub do_recvfrom : ℕ → ℕ → ℕ → ℕ → ℕ → ℕ → Result Request
  do_recvfrom fd buf len flags from fromlen =
      ok (recv_from fd buf len (convert_msg_flags c flags) from fromlen)

  abbrev pub do_send : ℕ → ℕ → ℕ → ℕ → Result Request
  do_send fd msg len flags = ok (send_to fd msg len (convert_msg_flags c flags) 0 0)

  abbrev pub do_recv : ℕ → ℕ → ℕ → ℕ → Result Request
  do_recv fd msg len flags = ok (recv_from fd msg len (convert_msg_flags c flags) 0 0)

  -- The members of linux_msghdr: name, namelen, iov, iovlen, control, controllen, flags.
  unfoldable pub do_sendmsg : ℕ → ℕ → ℕ → Words → Result Request
  do_sendmsg fd msg flags m =
      let iov = m (msg + 8) in
      if ltb 0 (m (msg + 20))
      then throw eopnotsupp
      else if m (msg + 12) == 1
      then do_sendto fd (m iov) (m (iov + 4)) flags (m msg) (m (msg + 4))
      else fault aborted

  unfoldable pub do_recvmsg : ℕ → ℕ → ℕ → Words → Result Request × Words
  do_recvmsg fd msg flags m =
      let left = store_word (msg + 20) 0 m in
      let iov = left (msg + 8) in
      if left (msg + 12) == 1
      then (do_recvfrom fd (left iov) (left (iov + 4)) flags (left msg) (msg + 4), left)
      else (fault aborted, left)

  -- compat_sys_socketcall, with the arguments at an address in memory.
  unfoldable pub compat_sys_socketcall : ℕ → ℕ → Words → Result Request × Words
  unfolding do_sendmsg do_recvmsg
  compat_sys_socketcall call args m =
      let a = λ (i : ℕ). m (args + 4 * i) in
      if call == 1
      then (do_socket (a 0) (a 1) (a 2), m)
      else if call == 2
      then (ok (bind_to (a 0) (a 1) (a 2)), m)
      else if call == 3
      then (ok (connect_to (a 0) (a 1) (a 2)), m)
      else if call == 14
      then (do_setsockopt (a 0) (a 1) (a 2) (a 3) (a 4), m)
      else if call == 15
      then (do_getsockopt (a 0) (a 1) (a 2) (a 3) (a 4), m)
      else if call == 6
      then (ok (get_sockname (a 0) (a 1) (a 2)), m)
      else if call == 7
      then (ok (get_peername (a 0) (a 1) (a 2)), m)
      else if call == 9
      then (do_send (a 0) (a 1) (a 2) (a 3), m)
      else if call == 10
      then (do_recv (a 0) (a 1) (a 2) (a 3), m)
      else if call == 11
      then (do_sendto (a 0) (a 1) (a 2) (a 3) (a 4) (a 5), m)
      else if call == 12
      then (do_recvfrom (a 0) (a 1) (a 2) (a 3) (a 4) (a 5), m)
      else if call == 13
      then (ok (shutdown (a 0) (a 1)), m)
      else if call == 16
      then (do_sendmsg (a 0) (a 1) (a 2) m, m)
      else if call == 17
      then do_recvmsg (a 0) (a 1) (a 2) m
      else (fault aborted, m)
