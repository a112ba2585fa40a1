-- ===== src/Server.antt =====
-- include/listening_server.h: `HttpServer`.
pub mod Accepting
use asynchronous_http_web_se.Base.{
  ℕ, Bool, true, false, List, [], ◌∷◌, Option, none, some, ℤ, pos, int_key, ◌=?◌, minus_one, Bytes,
  if◌then◌else◌,
}
use asynchronous_http_web_se.Epoll.{Epoll, EpollEvent, has, epollin, epollerr}
use asynchronous_http_web_se.Reactor.{Tracker, async_accept}
use asynchronous_http_web_se.Http.{Llhttp}
use asynchronous_http_web_se.Client.{ClientConnection, new_client}
use asynchronous_http_web_se.Sockets.{
  System, AddrInfo, SocketAnswers, BindAnswers, bind_and_listen, AcceptAnswers, af_inet,
  get_endpoint, get_socket, accept_connection,
}

-- `CONN_BACKLOG`
abbrev pub conn_backlog : ℕ
conn_backlog = 100000

-- The fields, but for `ioc`.
pub record HttpServer : Type 0 where
  pub socket : ℤ
  pub status : ℤ

-- The constructor: `none` is the null pointer that `getSocket` dereferences. What `bindAndListen`
-- returns is not looked at.
unfoldable pub new_server :
    (ℕ → Bool → Option Bytes → Bytes → Option (List AddrInfo))
    → SocketAnswers
    → BindAnswers
    → Bytes
    → Bytes
    → System
    → Option HttpServer × System
unfolding get_endpoint get_socket bind_and_listen
new_server resolve a b address port s =
    let r = get_endpoint resolve af_inet true address port s in
    elim r.0 [
      | none ↦ (none, r.1)
      | some endpoint ↦
          let (fd, s') = get_socket a true false r.1 in
          let (_, s'') = bind_and_listen b fd endpoint conn_backlog s' in
          (some (record { socket = fd; status = pos 0 }), s'')
    ]

-- `listen`, where `closure` is the accept handler; it returns 0.
unfoldable pub listen :
    {K C : Type 0} → Epoll K → C → HttpServer → Tracker K C → HttpServer × Tracker K C × ℤ
unfolding async_accept
listen sys closure server t =
    let (t', status) = async_accept sys t server.socket closure in
    (record server { status = status }, t', pos 0)

-- The accept handler: the connection that `cb` is called with, if it is called. `uuid` has the bytes
-- of a new UUID.
unfoldable pub on_readable :
    {P : Type 0}
    → Llhttp P
    → EpollEvent
    → AcceptAnswers
    → Bytes
    → System
    → Option (ClientConnection P) × System
unfolding accept_connection new_client
on_readable parser_lib ev a uuid s =
    let (newfd, s') = accept_connection a s in
    if has ev.events epollerr
    then (none, s)
    else if has ev.events epollin
    then (if newfd =? minus_one then (none, s') else (some (new_client parser_lib newfd uuid), s'))
    else (none, s)
