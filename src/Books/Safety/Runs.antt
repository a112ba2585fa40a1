-- ===== src/Books/Safety/Runs.antt =====
-- The reactor's callbacks in example/server.cpp, and `main`, keep the program safe.
use asynchronous_http_web_se.Base.{
  false, ℕ, zero, suc, ◌≡◌, refl, sym, ◌∙◌, inl, inr, List, [], ◌∷◌, Option, none, some,
  Option-cases, Bool, ℤ, pos, int_key, nat_key, if_cases, Bytes, text,
}
use asynchronous_http_web_se.SafeMap.{get}
use asynchronous_http_web_se.SafeMap.Laws.{get-empty}
use asynchronous_http_web_se.Epoll.{Epoll, EpollLaws, EpollEvent}
use asynchronous_http_web_se.Reactor.{Tracker, Wait, Outcome, new_reactor, async_accept}
use asynchronous_http_web_se.Reactor.Tracking.{new_reactor-IsTracked}
use asynchronous_http_web_se.Reactor.Running.{reactor_run_keeps}
use asynchronous_http_web_se.Http.{Llhttp}
use asynchronous_http_web_se.Calls.{perform}
use asynchronous_http_web_se.Client.{ClientConnection}
use asynchronous_http_web_se.Db.{new_db, connect_db}
use asynchronous_http_web_se.Registry.{World, ClientObject, start}
use asynchronous_http_web_se.Registry.Parents.{start-IsSound}
use asynchronous_http_web_se.Server.{new_server, listen}
use asynchronous_http_web_se.Sockets.{AddrInfo, SocketAnswers, BindAnswers}
use asynchronous_http_web_se.Sockets.{AddrInfo, SocketAnswers}
use asynchronous_http_web_se.Books.{
  Closure, accepts, reads, writes, connects, queries, JsonLib, Env, State,
}
use asynchronous_http_web_se.Books.Handlers.{delete_client, read_done}
use asynchronous_http_web_se.Books.Serving.{
  serve, invoke, track_from, after_pool, db_connections, serve_forever, Ran, ran, null_pointer,
  too_few_arguments, Setup, run_main, main,
}
use asynchronous_http_web_se.Calls.Adding.{async_accept-OnlyAdds}
use asynchronous_http_web_se.Books.Safety.{IsSafe, IsSafeIn}
use asynchronous_http_web_se.Books.Safety.Parts.{OnlyAdds-IsSafeIn, perform-IsSafeIn}
use asynchronous_http_web_se.Books.Safety.Callbacks.{delete_client-IsSafe, read_done-IsSafe}
use asynchronous_http_web_se.Books.Safety.Events.{
  IsFresh, on_client-IsSafe, on_connecting-IsSafe, on_query-IsSafe, on_accept-IsSafe,
}

track_from-IsSafeIn :
    {K P : Type 0} (sys : Epoll K) (laws : EpollLaws sys) (started : ℕ → Bool) (fd : ℕ → ℤ)
    (n i : ℕ) (t : Tracker K Closure) (clients : ℕ → ClientConnection P)
    → IsSafeIn sys t start clients false
    → IsSafeIn sys (track_from sys started fd n i t) start clients false
unfolding track_from
track_from-IsSafeIn sys laws started fd zero i t clients h = h
track_from-IsSafeIn sys laws started fd (suc n) i t clients h =
    let calls = (connect_db (started i) (fd i) (new_db (text "") (pos 0))).1 in
    track_from-IsSafeIn sys laws started fd n (suc i) (perform sys (connects i) calls t) clients
      (perform-IsSafeIn sys laws h (connects i) calls refl)

nothing_at_start : {X : Type 0} (a : ℕ) (o : ClientObject) → start.objects a ≡ some o → X
unfolding start
nothing_at_start a o e = cc

nothing_held :
    {K X : Type 0} (k : K) (fd : ℤ) (closure : Closure)
    → get fd (new_reactor k).tracker.event_callback ≡ some closure
    → X
unfolding new_reactor
nothing_held k fd closure e = let e' = sym (get-empty {V = Closure} fd) ∙ e in cc

module _ {K P : Type 0} (sys : Epoll K) where
  -- What a run leaves, if it comes to a run.
  abbrev LeavesSafe : Option (State K P × Outcome) → Type 0
  LeavesSafe none = Unit {0}
  LeavesSafe (some (s, outcome)) = IsSafe sys s

  abbrev pub EndsSafe : Ran K P → Type 0
  EndsSafe (ran s outcome) = IsSafe sys s
  EndsSafe too_few_arguments = Unit {0}
  EndsSafe null_pointer = Unit {0}

  EndsSafe-of :
      (r : Option (State K P × Outcome))
      → LeavesSafe r
      → EndsSafe (elim r [ none ↦ null_pointer | some (s, outcome) ↦ ran s outcome ])
  EndsSafe-of none h = tt
  EndsSafe-of (some (s, outcome)) h = h

module _ {K P J : Type 0} (sys : Epoll K) (laws : EpollLaws sys) (parser_lib : Llhttp P)
    (json : JsonLib J) (allocate : World → Option ℕ) (fresh : IsFresh allocate) (answer : ℕ → ℤ × ℤ)
    (env : ℕ → Env) where
  serve-IsSafe :
      (closure : Closure) (e : Env) (ev : EpollEvent) (s : State K P)
      → get ev.fd s.0.event_callback ≡ some closure
      → IsSafe sys s
      → IsSafe sys (serve sys parser_lib json allocate answer env closure e ev s)
  unfolding serve
  serve-IsSafe accepts e ev s held h = on_accept-IsSafe sys laws parser_lib allocate e ev s fresh h
  serve-IsSafe (reads a) e ev s held h =
      let (o, at_a, on_fd) = h.lives ev.fd (reads a) a held refl in
      on_client-IsSafe sys laws parser_lib (reads a) (read_done sys json answer a) a e ev s h
        (o, at_a) (λ r safe living gone. read_done-IsSafe sys laws json answer a r safe living gone)
  serve-IsSafe (writes a) e ev s held h =
      let (o, at_a, on_fd) = h.lives ev.fd (writes a) a held refl in
      on_client-IsSafe sys laws parser_lib (writes a) (delete_client a) a e ev s h (o, at_a)
        (λ r safe living gone. delete_client-IsSafe sys laws a r safe living gone)
  serve-IsSafe (connects c) e ev s held h = on_connecting-IsSafe sys laws c e ev s h
  serve-IsSafe (queries c) e ev s held h = on_query-IsSafe sys laws json answer c e ev s h

  -- A callback that the reactor holds for the fd of an event, run on that event, keeps the program
  -- safe: it uses no client object after its end, and afterwards too the reactor holds for a client
  -- only callbacks of one that is not deleted. Here an address that `new` gives is one at which no
  -- client stands.
  pub invoke-IsSafe :
      (closure : Closure) (ev : EpollEvent) (s : State K P)
      → get ev.fd s.0.event_callback ≡ some closure
      → IsSafe sys s
      → IsSafe sys (invoke sys parser_lib json allocate answer env closure ev s)
  unfolding invoke
  invoke-IsSafe closure ev (t, app) held h =
      if_cases (λ (r : State K P). IsSafe sys r) app.crashed _ _ (λ _. h)
        λ _.
          serve-IsSafe closure (env app.served) ev (t, record app { served = suc app.served }) held
            h

  serve_forever-IsSafe :
      (resolve : ℕ → Bool → Option Bytes → Bytes → Option (List AddrInfo)) (a : SocketAnswers)
      (b : BindAnswers) (address port : Bytes) (waits : List Wait) (s : State K P)
      → IsSafe sys s
      → LeavesSafe sys
          (serve_forever sys parser_lib json allocate answer env resolve a b address port waits s)
  unfolding serve_forever listen
  serve_forever-IsSafe resolve a b address port waits (t, app) h =
      let made = new_server resolve a b address port app.system in
      elim (Option-cases made.0) [
        | inl f ↦ rw (f, serve_forever) tt
        | inr (server, f) ↦
            let t' = (async_accept sys t server.socket accepts).0 in
            let adds = async_accept-OnlyAdds sys laws server.socket accepts t h.tracked in
            let ready_to_run : IsSafeIn sys t' app.world app.clients app.misused =
              OnlyAdds-IsSafeIn sys laws h server.socket accepts t' adds (λ a e. cc) in
            rw (f, serve_forever)
              (reactor_run_keeps (invoke sys parser_lib json allocate answer env)
                (λ (r : State K P). IsSafe sys r) invoke-IsSafe waits []
                (t', record app { system = made.1 }) ready_to_run)
      ]

  run_main-IsSafe :
      (setup : Setup K P) (waits : List Wait) (address port : Bytes)
      → ((j : ℤ) → sys.interest setup.epollfd j ≡ none)
      → EndsSafe sys (run_main sys parser_lib json allocate answer env setup waits address port)
  unfolding run_main after_pool
  run_main-IsSafe setup waits address port none_yet =
      let s = after_pool sys setup.epollfd setup.started setup.db_fd setup.memory setup.system in
      let first : IsSafeIn sys (new_reactor {C = Closure} setup.epollfd).tracker start setup.memory
          false =
        record {
          tracked = new_reactor-IsTracked sys setup.epollfd none_yet;
          sound = start-IsSound;
          well_used = refl;
          sockets = λ a o e. nothing_at_start a o e;
          lives = λ fd closure a e own. nothing_held setup.epollfd fd closure e;
        } in
      let connecting : IsSafe sys s =
        track_from-IsSafeIn sys laws setup.started setup.db_fd db_connections 0
          (new_reactor setup.epollfd).tracker setup.memory first in
      EndsSafe-of sys _ (
        serve_forever-IsSafe setup.resolve setup.listening setup.binding address port waits s
          connecting)

  -- However `main` runs, and whatever the clients, the database and the system answer: no client
  -- object was used after its end or deleted twice; and when `main` returns, or waits for the next
  -- event, the reactor holds for a client only callbacks of one that is not deleted, under the socket
  -- of that client, the registry has only such clients, and the maps of the reactor are in step with
  -- epoll. Here an address that `new` gives is one at which no client stands, and a new epoll
  -- instance watches nothing.
  pub main-EndsSafe :
      (setup : Setup K P) (waits : List Wait) (arguments : List Bytes)
      → ((j : ℤ) → sys.interest setup.epollfd j ≡ none)
      → EndsSafe sys (main sys parser_lib json allocate answer env setup waits arguments)
  unfolding main
  main-EndsSafe setup waits [] none_yet = tt
  main-EndsSafe setup waits (program ∷ []) none_yet = tt
  main-EndsSafe setup waits (program ∷ address ∷ []) none_yet = tt
  main-EndsSafe setup waits (program ∷ address ∷ port ∷ more) none_yet =
      run_main-IsSafe setup waits address port none_yet
