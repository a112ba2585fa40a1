-- ===== src/Server/Accepting.antt =====
-- The accept handler, and what a server does when its socket could not be opened.
use asynchronous_http_web_se.Base.{
  ℕ, ◌∙◌, ◌∷◌, ◌≡◌, refl, ap, ◌⊎◌, Bool, true, false, not, ◌&&◌, Option, none, some, Option-cases,
  inl, inr, Bool-cases, List, ℤ, pos, int_key, minus_one, Bytes, arith, if◌then◌else◌,
}
use asynchronous_http_web_se.Epoll.{EpollEvent, has, epollin, epollerr}
use asynchronous_http_web_se.Http.{Llhttp}
use asynchronous_http_web_se.Client.{new_client}
use asynchronous_http_web_se.Sockets.{
  System, AddrInfo, SocketAnswers, AcceptAnswers, af_inet, get_endpoint, get_socket,
  accept_connection, BindAnswers, bind_and_listen, Listening, choose_endpoint, blocks,
}
use asynchronous_http_web_se.Server.{HttpServer, conn_backlog, new_server, on_readable}

accept_connection-none :
    (a : AcceptAnswers) (s : System)
    → (a.accepted ≡ none) ⊎ (a.nonblocking_set ≡ false)
    → (accept_connection a s).0 ≡ minus_one
unfolding accept_connection
accept_connection-none a s (inl e) = rw (e, accept_connection) refl
accept_connection-none a s (inr blocks) = elim (Option-cases a.accepted) [
  | inl e ↦ rw (e, accept_connection) refl
  | inr (n, e) ↦ rw (e, blocks, accept_connection) refl
]

accept_connection-some :
    (a : AcceptAnswers) (s : System) (n : ℕ)
    → a.accepted ≡ some n
    → a.nonblocking_set ≡ true
    → (accept_connection a s).0 ≡ pos n
unfolding accept_connection
accept_connection-some a s n e set = elim (Bool-cases a.known_family) [
  | inl known ↦ rw (e, set, known, accept_connection) refl
  | inr unknown ↦ rw (e, set, unknown, accept_connection) refl
]

get_socket_result :
    (a : SocketAnswers) (s : System)
    → (get_socket a true false s).0 ≡ (
        if a.reuse_set && a.nonblocking_set
        then elim a.new_fd [ none ↦ minus_one | some n ↦ pos n ]
        else minus_one)
unfolding get_socket
get_socket_result a s = elim (Option-cases a.new_fd) [
  | inl e ↦ rw (e, get_socket) (ground arith)
  | inr (n, e) ↦ elim (Bool-cases a.reuse_set) [
    | inr f ↦ rw (e, f, get_socket) refl
    | inl f ↦ elim (Bool-cases a.nonblocking_set) [
      | inl g ↦ rw (e, f, g, get_socket) refl
      | inr g ↦ rw (e, f, g, get_socket) refl
    ]
  ]
]

-- The handler of a readable listening socket calls the application exactly when a connection was
-- accepted and made non-blocking, with a new connection object for this socket; on an error event,
-- or an event of another kind, it accepts nothing.
pub on_readable_accepts :
    {P : Type 0} (parser_lib : Llhttp P) (ev : EpollEvent) (a : AcceptAnswers) (uuid : Bytes)
    (s : System)
    → (on_readable parser_lib ev a uuid s).0 ≡ (
        if not (has ev.events epollerr) && has ev.events epollin && a.nonblocking_set
        then elim a.accepted [ none ↦ none | some n ↦ some (new_client parser_lib (pos n) uuid) ]
        else none)
unfolding on_readable
on_readable_accepts parser_lib ev a uuid s = elim (Bool-cases (has ev.events epollerr)) [
  | inl e ↦ rw e refl
  | inr e ↦ elim (Bool-cases (has ev.events epollin)) [
    | inr f ↦ rw (e, f) refl
    | inl f ↦ elim (Option-cases a.accepted) [
      | inl g ↦ elim (Bool-cases a.nonblocking_set) [
        | inl h ↦ rw (e, f, accept_connection-none a s (inl g), g, h) refl
        | inr h ↦ rw (e, f, accept_connection-none a s (inr h), h) refl
      ]
      | inr (n, g) ↦ elim (Bool-cases a.nonblocking_set) [
        | inl h ↦ rw (e, f, accept_connection-some a s n g h, g, h) refl
        | inr h ↦ rw (e, f, accept_connection-none a s (inr h), h) refl
      ]
    ]
  ]
]

-- The descriptor of a listening socket, or -1 where a system call fails.
abbrev pub server_socket : SocketAnswers → ℤ
server_socket a =
    if a.reuse_set && a.nonblocking_set
    then elim a.new_fd [ none ↦ minus_one | some n ↦ pos n ]
    else minus_one

-- The sockets that listen after the constructor.
abbrev pub listening_after :
    SocketAnswers → BindAnswers → List AddrInfo → List Listening → List Listening
listening_after a b servlist before =
    if b.bound && b.listens
    then record {
      sockfd = server_socket a;
      ai_addr = (choose_endpoint af_inet servlist).ai_addr;
      backlog = conn_backlog;
    }
      ∷ before
    else before

-- What a server is, given what the port resolves to.
abbrev pub Constructed :
    SocketAnswers
    → BindAnswers
    → Option (List AddrInfo)
    → System
    → Option HttpServer × System
    → Type 0
Constructed a b none s made = (made.0 ≡ none) × (made.1 ≡ s)
Constructed a b (some servlist) s made =
    (made.0 ≡ some (record { socket = server_socket a; status = pos 0 }))
    × (made.1.listening ≡ listening_after a b servlist s.listening)

get_socket-listening :
    (a : SocketAnswers) (s : System) → (get_socket a true false s).1.listening ≡ s.listening
unfolding get_socket
get_socket-listening a s = ground arith

bind_and_listen-listening :
    (a : SocketAnswers) (b : BindAnswers) (fd : ℤ) (servlist : List AddrInfo) (s : System)
    (before : List Listening)
    → fd ≡ server_socket a
    → s.listening ≡ before
    → (bind_and_listen b fd (choose_endpoint af_inet servlist) conn_backlog s).1.listening
      ≡ listening_after a b servlist before
unfolding bind_and_listen
bind_and_listen-listening a b fd servlist s before same earlier = elim (Bool-cases b.bound) [
  | inr e ↦ rw (e, bind_and_listen) earlier
  | inl e ↦ elim (Bool-cases b.listens) [
    | inr f ↦ rw (e, f, bind_and_listen) earlier
    | inl f ↦ rw (e, f, bind_and_listen) (ground (arith, same, earlier))
  ]
]

-- The constructor makes a server whether or not its socket could be opened, bound and made to
-- listen: it has the descriptor -1 where a system call of `getSocket` failed, and where the port does
-- not resolve it dereferences a null pointer. The socket listens, with the backlog of the program, if
-- `bind` and `listen` succeed, on the address that the port alone resolves to. Neither the address
-- that it is given nor what `bind` and `listen` answer makes a difference to the server object.
pub new_server_unchecked :
    (resolve : ℕ → Bool → Option Bytes → Bytes → Option (List AddrInfo)) (a : SocketAnswers)
    (b answered : BindAnswers) (address other port : Bytes) (s : System)
    → let made = new_server resolve a b address port s in
      (made ≡ new_server resolve a b other port s)
      × (made.0 ≡ (new_server resolve a answered address port s).0)
      × Constructed a b (resolve af_inet true none port) s made
unfolding new_server get_endpoint
new_server_unchecked resolve a b answered address other port s =
    elim (Option-cases (resolve af_inet true none port)) [
      | inl e ↦ rw (e, new_server, get_endpoint) (refl, refl, (refl, rw (e, get_endpoint) refl))
      | inr (servlist, e) ↦
          let s' = (get_endpoint resolve af_inet true address port s).1 in
          let same : s'.listening ≡ s.listening = rw (e, get_endpoint) refl in
          let socket = get_socket_result a s' in
          let made = get_socket a true false s' in
          let listens =
            bind_and_listen-listening a b made.0 servlist made.1 s.listening socket
              (get_socket-listening a s' ∙ same) in
          rw (e, new_server, get_endpoint)
            (
              refl,
              refl,
              (ap (λ (fd : ℤ). some (record { socket = fd; status = pos 0 })) socket, listens),
            )
    ]
