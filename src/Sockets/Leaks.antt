-- ===== src/Sockets/Leaks.antt =====
-- What the functions that open sockets leave open and allocated on each of their branches.
use asynchronous_http_web_se.Base.{
  ℕ, ◌+◌, ◌≡◌, refl, sym, subst, Bool, true, false, not, ◌&&◌, List, ◌∷◌, Option, none, some,
  Option-cases, inl, inr, Bool-cases, is_some, ℤ, pos, int_key, int_eq_iff, ◌=?◌, minus_one, Bytes,
  arith, if◌then◌else◌,
}
use asynchronous_http_web_se.Sockets.{
  System, AddrInfo, Endpoint, choose_endpoint, blocks, get_endpoint, SocketAnswers, get_socket,
  AcceptAnswers, accept_connection, close_fd, Connect, connect_done, connect_pending,
  connect_failed, free_endpoint, after_connect, connect_to, create_connection,
}

-- A socket was opened and made non-blocking.
abbrev pub has_socket : SocketAnswers → Bool
has_socket a = is_some a.new_fd && a.nonblocking_set

abbrev pub is_done : Connect → Bool
is_done connect_done = true
is_done connect_pending = false
is_done connect_failed = false

abbrev pub is_failed : Connect → Bool
is_failed connect_done = false
is_failed connect_pending = false
is_failed connect_failed = true

-- The descriptors with the one that `socket` gave.
abbrev pub opened : Option ℕ → List ℤ → List ℤ
opened none fds = fds
opened (some n) fds = pos n ∷ fds

abbrev pub fd_or_error : Option ℕ → ℤ
fd_or_error none = minus_one
fd_or_error (some n) = pos n

-- What is left of an endpoint `e` when `createConnection` returns.
abbrev pub Leaves : SocketAnswers → Connect → Endpoint → System → ℤ × System → Type 0
Leaves a connect e s r =
    (r.0 ≡ (if has_socket a && not (is_failed connect) then fd_or_error a.new_fd else minus_one))
    × (r.1.open_fds ≡ opened a.new_fd s.open_fds)
    × (r.1.allocated ≡ s.allocated + (if has_socket a && is_done connect then 0 else blocks e))

after_connect-Leaves :
    (connect : Connect) (e : Endpoint) (n : ℕ) (s : System)
    → Leaves
        (record { new_fd = some n; reuse_set = true; nonblocking_set = true })
        connect
        e
        s
        (after_connect connect e
          (pos n)
          (record s { open_fds = pos n ∷ s.open_fds; allocated = s.allocated + blocks e }))
unfolding after_connect free_endpoint
after_connect-Leaves connect_done e n s = (refl, refl, omega arith)
after_connect-Leaves connect_pending e n s = (refl, refl, refl)
after_connect-Leaves connect_failed e n s = (refl, refl, refl)

connect_to-Leaves :
    (a : SocketAnswers) (connect : Connect) (e : Endpoint) (s : System)
    → Leaves a connect e s
        (connect_to a connect e (record s { allocated = s.allocated + blocks e }))
unfolding connect_to get_socket
connect_to-Leaves a connect e s = elim (Option-cases a.new_fd) [
  | inl no_fd ↦ rw (no_fd, connect_to, get_socket) (refl, refl, refl)
  | inr (n, fd) ↦ elim (Bool-cases a.nonblocking_set) [
    | inl set ↦ rw (fd, set, connect_to, get_socket) (after_connect-Leaves connect e n s)
    | inr not_set ↦ rw (fd, not_set, connect_to, get_socket) (refl, refl, refl)
  ]
]

get_endpoint_found :
    (resolve : ℕ → Bool → Option Bytes → Bytes → Option (List AddrInfo)) (family : ℕ)
    (address port : Bytes) (s : System) (servlist : List AddrInfo)
    → resolve family false (some address) port ≡ some servlist
    → get_endpoint resolve family false address port s ≡ (
      some (choose_endpoint family servlist),
      record s { allocated = s.allocated + blocks (choose_endpoint family servlist) },
    )
unfolding get_endpoint
get_endpoint_found resolve family address port s servlist e = rw (e, get_endpoint) refl

-- Where the address resolves, `createConnection` returns the new socket, or -1 where a system call
-- failed. The socket stays open in both cases, and the endpoint is freed only where `connect`
-- succeeds at once: neither where it is in progress nor after a failure.
pub create_connection_leaks :
    (resolve : ℕ → Bool → Option Bytes → Bytes → Option (List AddrInfo)) (a : SocketAnswers)
    (connect : Connect) (family : ℕ) (address port : Bytes) (s : System) (servlist : List AddrInfo)
    → resolve family false (some address) port ≡ some servlist
    → Leaves a connect
        (choose_endpoint family servlist)
        s
        (create_connection resolve a connect family address port s)
unfolding create_connection
create_connection_leaks resolve a connect family address port s servlist e =
    subst
      (λ (r : Option Endpoint × System).
        Leaves a connect (choose_endpoint family servlist) s (elim r.0 [
          | none ↦ (minus_one, r.1)
          | some endpoint ↦ connect_to a connect endpoint r.1
        ]))
      (sym (get_endpoint_found resolve family address port s servlist e))
      (connect_to-Leaves a connect (choose_endpoint family servlist) s)

-- A connection that is accepted and made non-blocking is returned, whatever its address family; but
-- with an unknown family it is not open any more when it is returned.
pub accept_connection_closes :
    (a : AcceptAnswers) (n : ℕ) (s : System)
    → a.accepted ≡ some n
    → a.nonblocking_set ≡ true
    → let r = accept_connection a s in
      (r.0 ≡ pos n) × (r.1.open_fds ≡ (if a.known_family then pos n ∷ s.open_fds else s.open_fds))
unfolding accept_connection close_fd
accept_connection_closes a n s e set = elim (Bool-cases a.known_family) [
  | inl known ↦ rw (e, set, known, accept_connection) (refl, refl)
  | inr unknown ↦
      let same : (pos n =? pos n) ≡ true = (int_eq_iff (pos n) (pos n)).1 refl in
      rw (e, set, unknown, accept_connection) (refl, ground (arith, same))
]
