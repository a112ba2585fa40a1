-- ===== src/Books/Sharing/Runs.antt =====
-- The reactor's callbacks in example/server.cpp, and `main`, keep the pool's connections apart.
use asynchronous_http_web_se.Base.{
  sym, ◌∙◌, false, suc, int_key, nat_key, ℕ, ◌≤◌, ◌≡◌, refl, inl, inr, List, [], ◌∷◌, Option, none,
  some, Option-cases, Bool, ℤ, Bytes, if_cases, ◌==◌,
}
use asynchronous_http_web_se.SafeMap.{get}
use asynchronous_http_web_se.Epoll.{Epoll, EpollLaws, EpollEvent}
use asynchronous_http_web_se.Reactor.{Wait, Outcome, async_accept}
use asynchronous_http_web_se.Reactor.Running.{reactor_run_keeps}
use asynchronous_http_web_se.Http.{Llhttp}
use asynchronous_http_web_se.Calls.{perform, callbacks}
use asynchronous_http_web_se.Calls.Adding.{async_accept-OnlyAdds}
use asynchronous_http_web_se.Client.Handler as ClientHandler
use asynchronous_http_web_se.Pooler.{new_pool}
use asynchronous_http_web_se.Pooler.Sending.{IsCounted}
use asynchronous_http_web_se.Pooler.Places.{places}
use asynchronous_http_web_se.Registry.{World, ClientObject, create}
use asynchronous_http_web_se.Sockets.{AddrInfo, SocketAnswers, BindAnswers}
use asynchronous_http_web_se.Server.{on_readable, new_server, listen}
use asynchronous_http_web_se.Books.{
  Closure, accepts, reads, writes, connects, queries, JsonLib, Env, State, set_client,
}
use asynchronous_http_web_se.Books.Handlers.{crash, delete_client, read_done}
use asynchronous_http_web_se.Books.Serving.{
  on_accept, on_client, serve, invoke, after_pool, serve_forever, db_connections, Ran, ran,
  null_pointer, too_few_arguments, Setup, run_main, main,
}
use asynchronous_http_web_se.Books.Sharing.{
  connection_of, working_on, IsHeld, IsShared, Apart, Adds-IsShared, perform-IsShared,
}
use asynchronous_http_web_se.Books.Sharing.Callbacks.{
  use_client-Apart, delete_client-Apart, start_read-Apart, read_done-Apart,
}
use asynchronous_http_web_se.Books.Sharing.Queries.{on_query-Apart}
use asynchronous_http_web_se.Books.Sharing.Connecting.{on_connecting-Shared}
use asynchronous_http_web_se.Books.Sharing.Starting.{new_pool-IsShared}

module _ {K P : Type 0} (sys : Epoll K) (laws : EpollLaws sys) (home : ℕ → ℤ) where
  module _ (parser_lib : Llhttp P) where
    on_client-Apart :
        (closure : Closure) (cb : State K P → State K P) (a : ℕ) (e : Env) (ev : EpollEvent)
        (s : State K P)
        → connection_of closure ≡ none
        → working_on closure ≡ none
        → ((r : State K P) → Apart sys home r → Apart sys home (cb r))
        → Apart sys home s
        → Apart sys home (on_client sys parser_lib closure cb a e ev s)
    unfolding on_client
    on_client-Apart closure cb a e ev (t, app) other other' keep h =
        let handled =
          ClientHandler.handle_event parser_lib ev e.inbound e.outbound (app.clients a) in
        let s' : State K P = (
          perform sys closure handled.1 t,
          record app { clients = set_client a handled.0 app.clients },
        ) in
        let kept : Apart sys home s' =
          perform-IsShared sys laws home h closure handled.1 other other' in
        use_client-Apart sys laws home a (t, app) _ h
          (if_cases (λ (r : State K P). Apart sys home r) (callbacks handled.1 == 0) _ _ (λ _. kept)
            (λ _. keep s' kept))

    on_accept-Apart :
        (allocate : World → Option ℕ) (e : Env) (ev : EpollEvent) (s : State K P)
        → Apart sys home s
        → Apart sys home (on_accept sys parser_lib allocate e ev s)
    unfolding on_accept
    on_accept-Apart allocate e ev (t, app) h =
        let r = on_readable parser_lib ev e.accepting e.uuid app.system in
        elim (Option-cases r.0) [
          | inl f ↦ rw (f, on_accept) h
          | inr (client, f) ↦ elim (Option-cases (allocate app.world)) [
            | inl g ↦ rw (f, on_accept, g, crash) h
            | inr (a, g) ↦
                let o : ClientObject = record {
                  connection_id = client.connection_id;
                  socket = client.socket;
                } in
                let s' : State K P = (
                  t,
                  record app {
                    world = create a o app.world;
                    clients = set_client a client app.clients;
                    system = r.1;
                  },
                ) in
                rw (f, on_accept, g) (start_read-Apart sys laws home a s' h)
          ]
        ]

  -- What a run leaves, if it comes to a run.
  abbrev LeavesApart : Option (State K P × Outcome) → Type 0
  LeavesApart none = Unit {0}
  LeavesApart (some (s, outcome)) = Apart sys home s

module _ {K P J : Type 0} (sys : Epoll K) (laws : EpollLaws sys) (parser_lib : Llhttp P)
    (json : JsonLib J) (allocate : World → Option ℕ) (answer : ℕ → ℤ × ℤ) (env : ℕ → Env)
    (home : ℕ → ℤ) where
  serve-Apart :
      (closure : Closure) (e : Env) (ev : EpollEvent) (s : State K P)
      → get ev.fd s.0.event_callback ≡ some closure
      → s.1.crashed ≡ false
      → Apart sys home s
      → Apart sys home (serve sys parser_lib json allocate answer env closure e ev s)
  unfolding serve
  serve-Apart accepts e ev s held running h =
      on_accept-Apart sys laws home parser_lib allocate e ev s h
  serve-Apart (reads a) e ev s held running h =
      on_client-Apart sys laws home parser_lib (reads a) (read_done sys json answer a) a e ev s refl
        refl (λ r. read_done-Apart sys laws home json answer a r) h
  serve-Apart (writes a) e ev s held running h =
      on_client-Apart sys laws home parser_lib (writes a) (delete_client a) a e ev s refl refl
        (λ r. delete_client-Apart sys laws home a r) h
  serve-Apart (connects c) e ev s held running h =
      on_connecting-Shared sys laws home c e ev s held h
  serve-Apart (queries c) e ev s held running h =
      on_query-Apart sys laws home json answer c e ev s h running

  invoke-Apart :
      (closure : Closure) (ev : EpollEvent) (s : State K P)
      → get ev.fd s.0.event_callback ≡ some closure
      → Apart sys home s
      → Apart sys home (invoke sys parser_lib json allocate answer env closure ev s)
  unfolding invoke
  invoke-Apart closure ev (t, app) held h =
      if_cases (λ (r : State K P). Apart sys home r) app.crashed _ _ (λ _. h)
        λ running.
          serve-Apart closure (env app.served) ev (t, record app { served = suc app.served }) held
            running h

  serve_forever-Apart :
      (resolve : ℕ → Bool → Option Bytes → Bytes → Option (List AddrInfo)) (a : SocketAnswers)
      (b : BindAnswers) (address port : Bytes) (waits : List Wait) (s : State K P)
      → Apart sys home s
      → LeavesApart sys laws home
          (serve_forever sys parser_lib json allocate answer env resolve a b address port waits s)
  unfolding serve_forever listen
  serve_forever-Apart resolve a b address port waits (t, app) h =
      let made = new_server resolve a b address port app.system in
      elim (Option-cases made.0) [
        | inl f ↦ rw (f, serve_forever) tt
        | inr (server, f) ↦
            let t' = (async_accept sys t server.socket accepts).0 in
            let adds = async_accept-OnlyAdds sys laws server.socket accepts t h.tracked in
            let ready_to_run : IsShared sys home [] t' app.pool =
              Adds-IsShared sys laws home h accepts t' refl refl (
                adds.0,
                λ j x f. elim (adds.1 j x f) [ inl old ↦ inl old | inr new ↦ inr new.1 ],
              ) in
            rw (f, serve_forever)
              (reactor_run_keeps (invoke sys parser_lib json allocate answer env)
                (λ (r : State K P). Apart sys home r) invoke-Apart waits []
                (t', record app { system = made.1 }) ready_to_run)
      ]

module _ {K P : Type 0} where
  -- No connection of the pool is in two places; `idle_count` is the size of the queue of those that
  -- are idle; and each whose query the reactor waits for is at work, under its socket.
  abbrev pub EndsApart : Ran K P → Type 0
  EndsApart (ran s outcome) =
      ((c : ℕ) → places c [] s.1.pool ≤ 1)
      × IsCounted s.1.pool
      × ((fd : ℤ) (closure : Closure) (c : ℕ)
          → get fd s.0.event_callback ≡ some closure
          → working_on closure ≡ some c
          → IsHeld c s.1.pool × (fd ≡ (s.1.pool.heap c).socket))
  EndsApart too_few_arguments = Unit {0}
  EndsApart null_pointer = Unit {0}

  EndsApart-of :
      (sys : Epoll K) (laws : EpollLaws sys) (home : ℕ → ℤ) (r : Option (State K P × Outcome))
      → LeavesApart sys laws home r
      → EndsApart (elim r [ none ↦ null_pointer | some (s, outcome) ↦ ran s outcome ])
  EndsApart-of sys laws home none h = tt
  EndsApart-of sys laws home (some (s, outcome)) h = (
    h.once,
    h.counted,
    λ fd x c e own. let held = h.works fd x c e own in (held.0, held.1 ∙ sym (h.at_home c)),
  )

module _ {K P J : Type 0} (sys : Epoll K) (laws : EpollLaws sys) (parser_lib : Llhttp P)
    (json : JsonLib J) (allocate : World → Option ℕ) (answer : ℕ → ℤ × ℤ) (env : ℕ → Env)
    (setup : Setup K P) (waits : List Wait) where
  run_main-EndsApart :
      (address port : Bytes)
      → ((j : ℤ) → sys.interest setup.epollfd j ≡ none)
      → EndsApart (run_main sys parser_lib json allocate answer env setup waits address port)
  unfolding run_main after_pool
  run_main-EndsApart address port none_yet =
      let pool = new_pool setup.started setup.db_fd db_connections in
      let home : ℕ → ℤ = λ c. (pool.heap c).socket in
      let s = after_pool sys setup.epollfd setup.started setup.db_fd setup.memory setup.system in
      let first : Apart sys home s =
        new_pool-IsShared setup.started setup.db_fd sys laws setup.epollfd none_yet in
      EndsApart-of sys laws home _ (
        serve_forever-Apart sys laws parser_lib json allocate answer env home setup.resolve
          setup.listening setup.binding address port waits s first)

  -- However `main` runs, and whatever the clients, the database and the system answer: when `main`
  -- returns, or waits for the next event, no connection of the pool is idle twice, at work on two
  -- queries, or both idle and at work; `idle_count` is the number of the idle ones; and where the
  -- reactor waits for the end of a query, it waits under the socket of the connection, and the
  -- connection is at work on a query whose callback the pool has. Here a new epoll instance watches
  -- nothing.
  pub main-EndsApart :
      (arguments : List Bytes)
      → ((j : ℤ) → sys.interest setup.epollfd j ≡ none)
      → EndsApart (main sys parser_lib json allocate answer env setup waits arguments)
  unfolding main
  main-EndsApart [] none_yet = tt
  main-EndsApart (program ∷ []) none_yet = tt
  main-EndsApart (program ∷ address ∷ []) none_yet = tt
  main-EndsApart (program ∷ address ∷ port ∷ more) none_yet =
      run_main-EndsApart address port none_yet
