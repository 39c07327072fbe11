-- ===== src/Sockets/SocketOptions.antt =====
-- src/syscalls/sockets.cc: which socket options are supported.
use lbw.Prelude.{
  ℕ, ◌≡◌, ◌≢◌, refl, sym, ◌∙◌, false, List, [], ◌∷◌, Option, none, some, ◌==◌, arith, inl, inr, ◌⊎◌,
  Bool-cases, ==→eq,
}
use lbw.Prelude.Results.{ok, throw, enoprotoopt}
use lbw.Sockets.{
  SocketConstants, converted, or_enoprotoopt, socket_rows, ip_rows, tcp_rows, convert_sockopt,
}

-- An option of Linux that stands in a table with one of Interix.
abbrev pub Listed : List (ℕ × ℕ) → ℕ → ℕ → Type 0
Listed [] optname i = ⊥
Listed ((l, j) ∷ rows) optname i = ((optname ≡ l) × (i ≡ j)) ⊎ Listed rows optname i

-- The options that have one in Interix, by their numbers in Linux.
module _ (c : SocketConstants) where
  abbrev pub socket_options : List (ℕ × ℕ)
  socket_options =
      (1, c.so_debug)
      ∷ (2, c.so_reuseaddr)
      ∷ (3, c.so_type)
      ∷ (4, c.so_error)
      ∷ (5, c.so_dontroute)
      ∷ (6, c.so_broadcast)
      ∷ (7, c.so_sndbuf)
      ∷ (8, c.so_rcvbuf)
      ∷ (9, c.so_keepalive)
      ∷ (10, c.so_oobinline)
      ∷ (13, c.so_linger)
      ∷ []

  abbrev pub ip_options : List (ℕ × ℕ)
  ip_options = (4, c.ip_options) ∷ (1, c.ip_tos) ∷ (2, c.ip_ttl) ∷ []

  abbrev pub tcp_options : List (ℕ × ℕ)
  tcp_options = (1, c.tcp_nodelay) ∷ (2, c.tcp_maxseg) ∷ []

-- The same by level: of a socket, of IP and of TCP.
abbrev pub Supported : SocketConstants → ℕ → ℕ → ℕ × ℕ → Type 0
Supported c level optname (l, i) =
    ((level ≡ 1) × (l ≡ c.sol_socket) × Listed (socket_options c) optname i)
    ⊎ ((level ≡ c.inet_ip) × (l ≡ level) × Listed (ip_options c) optname i)
    ⊎ ((level ≡ c.inet_tcp) × (l ≡ level) × Listed (tcp_options c) optname i)

converted-Listed :
    (rows : List (ℕ × ℕ)) (optname i : ℕ) → converted rows optname ≡ some i → Listed rows optname i
converted-Listed [] optname i h = cc
converted-Listed ((l, j) ∷ rows) optname i h = elim (Bool-cases (optname == l)) [
  | inl e ↦
      (let found : ◌≡◌ {A = Option ℕ} (some j) (some i) = (rw e at h) in
        inl (==→eq optname l e, cc))
  | inr e ↦ inr (converted-Listed rows optname i (rw e at h))
]

not_converted :
    (rows : List (ℕ × ℕ)) (optname i : ℕ)
    → converted rows optname ≡ none
    → Listed rows optname i
    → ⊥
not_converted [] optname i h l = l
not_converted ((k, j) ∷ rows) optname i h l = elim (Bool-cases (optname == k)) [
  | inl e ↦ (let found : ◌≡◌ {A = Option ℕ} (some j) none = (rw e at h) in cc)
  | inr e ↦ at_row l (not_converted rows optname i (rw e at h)) e
]
  where
    at_row :
        ((optname ≡ k) × (i ≡ j)) ⊎ Listed rows optname i
        → (Listed rows optname i → ⊥)
        → (optname == k) ≡ false
        → ⊥
    at_row (inl (e, f)) later no_match = ground arith
    at_row (inr there) later no_match = later there

-- A level: what is found in its table is in it, and what is not found is not.
abbrev ByTable : List (ℕ × ℕ) → ℕ → ℕ → Type 0
ByTable rows level optname =
    ((i : ℕ) × (or_enoprotoopt level (converted rows optname) ≡ ok (level, i))
      × Listed rows optname i)
    ⊎ ((or_enoprotoopt level (converted rows optname) ≡ throw enoprotoopt)
        × ((i : ℕ) → Listed rows optname i → ⊥))

by_table : (rows : List (ℕ × ℕ)) (level optname : ℕ) → ByTable rows level optname
by_table rows level optname = found (converted rows optname) refl
  where
    found : (o : Option ℕ) → converted rows optname ≡ o → ByTable rows level optname
    found (some i) e = inl (i, rw e refl, converted-Listed rows optname i e)
    found none e = inr (rw e refl, λ i. not_converted rows optname i e)

abbrev pub Outcome : SocketConstants → ℕ → ℕ → Type 0
Outcome c level optname =
    ((r : ℕ × ℕ) × (convert_sockopt c level optname ≡ ok r) × Supported c level optname r)
    ⊎ ((convert_sockopt c level optname ≡ throw enoprotoopt)
        × ((r : ℕ × ℕ) → Supported c level optname r → ⊥))

module _ (c : SocketConstants) (ip : c.inet_ip ≢ 1) (tcp : c.inet_tcp ≢ 1)
    (both : c.inet_tcp ≢ c.inet_ip) (level optname : ℕ) where
  at_level :
      (rows : List (ℕ × ℕ)) (l : ℕ)
      → convert_sockopt c level optname ≡ or_enoprotoopt l (converted rows optname)
      → ((i : ℕ) → Listed rows optname i → Supported c level optname (l, i))
      → ((r : ℕ × ℕ) → Supported c level optname r → Listed rows optname r.1)
      → Outcome c level optname
  at_level rows l e sound complete = elim (by_table rows l optname) [
    | inl found ↦ inl ((l, found.0), e ∙ found.1, sound found.0 found.2)
    | inr missing ↦ inr (e ∙ missing.0, λ r s. missing.1 r.1 (complete r s))
  ]

  in_socket :
      level ≡ 1 → (r : ℕ × ℕ) → Supported c level optname r → Listed (socket_rows c) optname r.1
  in_socket e (l, i) (inl (a, b, h)) = h
  in_socket e (l, i) (inr (inl (a, b, h))) = absurd (ip (sym a ∙ e))
  in_socket e (l, i) (inr (inr (a, b, h))) = absurd (tcp (sym a ∙ e))

  in_ip :
      level ≡ c.inet_ip → (r : ℕ × ℕ) → Supported c level optname r → Listed (ip_rows c) optname r.1
  in_ip e (l, i) (inl (a, b, h)) = absurd (ip (sym e ∙ a))
  in_ip e (l, i) (inr (inl (a, b, h))) = h
  in_ip e (l, i) (inr (inr (a, b, h))) = absurd (both (sym a ∙ e))

  in_tcp :
      level ≡ c.inet_tcp
      → (r : ℕ × ℕ) → Supported c level optname r
      → Listed (tcp_rows c) optname r.1
  in_tcp e (l, i) (inl (a, b, h)) = absurd (tcp (sym e ∙ a))
  in_tcp e (l, i) (inr (inl (a, b, h))) = absurd (both (sym e ∙ a))
  in_tcp e (l, i) (inr (inr (a, b, h))) = h

  nowhere :
      level ≢ 1
      → level ≢ c.inet_ip
      → level ≢ c.inet_tcp
      → (r : ℕ × ℕ) → Supported c level optname r
      → ⊥
  nowhere x y z (l, i) (inl (a, b, h)) = x a
  nowhere x y z (l, i) (inr (inl (a, b, h))) = y a
  nowhere x y z (l, i) (inr (inr (a, b, h))) = z a

  -- convert_sockopt: where the levels are different numbers, it converts exactly the options that
  -- have one in Interix, to its level and its name, and throws ENOPROTOOPT for all others. The
  -- option TCP_KEEPIDLE is one of the others.
  pub convert_sockopt_lem : Outcome c level optname
  unfolding convert_sockopt
  convert_sockopt_lem = elim (Bool-cases (level == 1)) [
    | inl a ↦
        let e : level ≡ 1 = ==→eq level 1 a in
        at_level (socket_rows c) c.sol_socket (rw a refl) (λ i h. inl (e, refl, h)) (in_socket e)
    | inr a ↦ elim (Bool-cases (level == c.inet_ip)) [
      | inl b ↦
          let e : level ≡ c.inet_ip = ==→eq level c.inet_ip b in
          at_level (ip_rows c) level (rw (a, b) refl) (λ i h. inr (inl (e, refl, h))) (in_ip e)
      | inr b ↦ elim (Bool-cases (level == c.inet_tcp)) [
        | inl d ↦
            let e : level ≡ c.inet_tcp = ==→eq level c.inet_tcp d in
            at_level (tcp_rows c) level (rw (a, b, d) refl) (λ i h. inr (inr (e, refl, h)))
              (in_tcp e)
        | inr d ↦
            inr (
              rw (a, b, d) refl,
              nowhere (λ e. ground arith) (λ e. ground arith) (λ e. ground arith),
            )
      ]
    ]
  ]
