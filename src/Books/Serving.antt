-- ===== src/Books/Serving.antt =====
-- The reactor's callbacks in example/server.cpp, and `main`.
use asynchronous_http_web_se.Base.{
  ℕ, zero, suc, ◌==◌, List, [], ◌∷◌, Option, none, some, Bool, false, ℤ, pos, Bytes, text,
  if◌then◌else◌,
}
use asynchronous_http_web_se.Epoll.{Epoll, EpollEvent}
use asynchronous_http_web_se.Reactor.{Tracker, new_reactor, Wait, Outcome, reactor_run}
use asynchronous_http_web_se.Http.{Llhttp}
use asynchronous_http_web_se.Calls.{perform, callbacks}
use asynchronous_http_web_se.Client.{ClientConnection}
use asynchronous_http_web_se.Client.Handler as ClientHandler
use asynchronous_http_web_se.Db.{new_db, connect_db}
use asynchronous_http_web_se.Db.Handler as DbHandler
use asynchronous_http_web_se.Pooler.{on_event, on_connected, new_pool, at_address}
use asynchronous_http_web_se.Registry.{start, create}
use asynchronous_http_web_se.Registry.{World}
use asynchronous_http_web_se.Sockets.{System, AddrInfo, SocketAnswers, BindAnswers}
use asynchronous_http_web_se.Server.{new_server, listen, on_readable}
use asynchronous_http_web_se.Books.{
  Closure, accepts, reads, writes, connects, queries, JsonLib, Env, State, set_client,
}
use asynchronous_http_web_se.Books.Handlers.{
  use_client, crash, delete_client, sends_next, start_read, apply_log, settle, read_done,
}

module _ {K : Type 0} (sys : Epoll K) where
  -- The `connectDb` calls of the pool's constructor, on the reactor.
  unfoldable pub track_from : (ℕ → Bool) → (ℕ → ℤ) → ℕ → ℕ → Tracker K Closure → Tracker K Closure
  unfolding perform connect_db
  track_from started fd zero i t = t
  track_from started fd (suc n) i t =
      let (conn, calls) = connect_db (started i) (fd i) (new_db (text "") (pos 0)) in
      track_from started fd n (suc i) (perform sys (connects i) calls t)

-- `pool_size` of the program
abbrev pub db_connections : ℕ
db_connections = 10

-- The state after the pool's constructor.
unfoldable pub after_pool :
    {K P : Type 0}
    → Epoll K
    → K
    → (ℕ → Bool)
    → (ℕ → ℤ)
    → (ℕ → ClientConnection P)
    → System
    → State K P
unfolding new_reactor track_from new_pool start
after_pool sys epollfd started fd memory system = (
  track_from sys started fd db_connections 0 (new_reactor epollfd).tracker,
  record {
    world = start;
    clients = memory;
    pool = new_pool started fd db_connections;
    system = system;
    served = 0;
    crashed = false;
    misused = false;
  },
)

module _ {K P : Type 0} (sys : Epoll K) (parser_lib : Llhttp P) where
  -- The accept handler of `server->listen`, whose callback calls `client->read`. `allocate` gives the
  -- address of a new object, or none where `new` throws.
  unfoldable pub on_accept : (World → Option ℕ) → Env → EpollEvent → State K P → State K P
  unfolding on_readable set_client start_read create crash
  on_accept allocate e ev (t, app) =
      let (accepted, system) = on_readable parser_lib ev e.accepting e.uuid app.system in
      let app' = record app { system = system } in
      elim accepted [
        | none ↦ (t, app')
        | some client ↦ elim (allocate app.world) [
          | none ↦ crash (t, app')
          | some a ↦ start_read sys a (
            t,
            record app' {
              world =
                  create a (record { connection_id = client.connection_id; socket = client.socket })
                    app.world;
              clients = set_client a client app.clients;
            },
          )
        ]
      ]

  -- `handleEvent` of a client, where `closure` is its own closure in the reactor and `cb` the
  -- program's callback.
  unfoldable pub on_client :
      Closure → (State K P → State K P) → ℕ → Env → EpollEvent → State K P → State K P
  unfolding perform set_client use_client
  on_client closure cb a e ev (t, app) =
      let (client, calls) =
        ClientHandler.handle_event parser_lib ev e.inbound e.outbound (app.clients a) in
      let s : State K P =
        (perform sys closure calls t, record app { clients = set_client a client app.clients }) in
      use_client a (t, app) (if callbacks calls == 0 then s else cb s)

module _ {K P : Type 0} (sys : Epoll K) where
  -- A connection of the pool that is being established.
  unfoldable pub on_connecting : ℕ → Env → EpollEvent → State K P → State K P
  unfolding perform at_address on_connected
  on_connecting c e ev (t, app) =
      let (conn, calls) = DbHandler.handle_event ev e.pq (app.pool.heap c) in
      let pool = record app.pool { heap = at_address c conn app.pool.heap } in
      let t' = perform sys (connects c) calls t in
      if callbacks calls == 0
      then (t', record app { pool = pool })
      else (t', record app { pool = on_connected c pool })

module _ {K P J : Type 0} (sys : Epoll K) (json : JsonLib J) (answer : ℕ → ℤ × ℤ) where
  -- A connection of the pool that is at work on a query.
  unfoldable pub on_query : ℕ → Env → EpollEvent → State K P → State K P
  unfolding on_event sends_next apply_log settle
  on_query c e ev (t, app) =
      let r = on_event answer (sends_next app) ev e.pq c app.pool in
      settle sys json answer r.frames (apply_log sys json r.log (t, record app { pool = r.pool }))

-- `allocate` gives the address of a new object, if there is one, `answer` what `PQsendQuery` and `PQflush` return,
-- and `env` what the other calls answer in the n-th callback.
module _ {K P J : Type 0} (sys : Epoll K) (parser_lib : Llhttp P) (json : JsonLib J)
    (allocate : World → Option ℕ) (answer : ℕ → ℤ × ℤ) (env : ℕ → Env) where
  -- The callback that a closure stands for.
  unfoldable pub serve : Closure → Env → EpollEvent → State K P → State K P
  unfolding on_accept on_client on_connecting on_query read_done delete_client
  serve accepts e ev s = on_accept sys parser_lib allocate e ev s
  serve (reads a) e ev s = on_client sys parser_lib (reads a) (read_done sys json answer a) a e ev s
  serve (writes a) e ev s = on_client sys parser_lib (writes a) (delete_client a) a e ev s
  serve (connects c) e ev s = on_connecting sys c e ev s
  serve (queries c) e ev s = on_query sys json answer c e ev s

  -- A callback of the reactor; after a crash none runs.
  unfoldable pub invoke : Closure → EpollEvent → State K P → State K P
  unfolding serve
  invoke closure ev (t, app) =
      if app.crashed
      then (t, app)
      else serve closure (env app.served) ev (t, record app { served = suc app.served })

  -- The constructor of `HttpServer`, `listen` and `reactorRun`. `none` is
  -- the null pointer that the constructor of `HttpServer` dereferences.
  unfoldable pub serve_forever :
      (ℕ → Bool → Option Bytes → Bytes → Option (List AddrInfo))
      → SocketAnswers
      → BindAnswers
      → Bytes
      → Bytes
      → List Wait
      → State K P
      → Option (State K P × Outcome)
  unfolding new_server listen invoke reactor_run
  serve_forever resolve a b address port waits (t, app) =
      let (made, system) = new_server resolve a b address port app.system in
      elim made [
        | none ↦ none
        | some server ↦
            let (server', t', status) = listen sys accepts server t in
            some (reactor_run invoke waits [] (t', record app { system = system }))
      ]

-- How `main` ends: with 1, by a null pointer, or with 0 once `reactorRun` has returned; the result
-- has the state then.
pub data Ran (K P : Type 0) : Type 0 where
  too_few_arguments null_pointer : Ran K P
  ran : State K P → Outcome → Ran K P

-- What the system gives to `main` before the reactor runs: the new epoll instance, whether
-- `PQconnectStart` gives a connection and the socket that it has then, what stands in memory, the
-- descriptors, the addresses of the port, and the answers of the calls on the listening socket.
pub record Setup (K P : Type 0) : Type 0 where
  pub epollfd : K
  pub started : ℕ → Bool
  pub db_fd : ℕ → ℤ
  pub memory : ℕ → ClientConnection P
  pub system : System
  pub resolve : ℕ → Bool → Option Bytes → Bytes → Option (List AddrInfo)
  pub listening : SocketAnswers
  pub binding : BindAnswers

module _ {K P J : Type 0} (sys : Epoll K) (parser_lib : Llhttp P) (json : JsonLib J)
    (allocate : World → Option ℕ) (answer : ℕ → ℤ × ℤ) (env : ℕ → Env) (setup : Setup K P)
    (waits : List Wait) where
  -- `main` after the test of its arguments.
  unfoldable pub run_main : Bytes → Bytes → Ran K P
  unfolding after_pool serve_forever
  run_main address port =
      let s = after_pool sys setup.epollfd setup.started setup.db_fd setup.memory setup.system in
      elim (serve_forever sys parser_lib json allocate answer env setup.resolve setup.listening
        setup.binding address port waits s) [
          | none ↦ null_pointer
          | some (s', outcome) ↦ ran s' outcome
        ]

  unfoldable pub main : List Bytes → Ran K P
  unfolding run_main
  main (program ∷ address ∷ port ∷ more) = run_main address port
  main _ = too_few_arguments
