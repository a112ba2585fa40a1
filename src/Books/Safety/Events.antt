-- ===== src/Books/Safety/Events.antt =====
-- The reactor's callbacks in example/server.cpp keep the program safe.
use asynchronous_http_web_se.Base.{
  Option, ℕ, ◌≡◌, refl, sym, ap, subst, ◌∙◌, inl, inr, none, some, Option-cases, ℤ, int_key,
  nat_key, ◌==◌, arith, if_cases,
}
use asynchronous_http_web_se.SafeMap.{get}
use asynchronous_http_web_se.Epoll.{Epoll, EpollLaws, EpollEvent}
use asynchronous_http_web_se.Reactor.{Tracker}
use asynchronous_http_web_se.Http.{Llhttp}
use asynchronous_http_web_se.Calls.{perform, callbacks}
use asynchronous_http_web_se.Client.{ClientConnection}
use asynchronous_http_web_se.Client.Handler as ClientHandler
use asynchronous_http_web_se.Client.Handler.Once.{handle_event_once, handle_event-socket}
use asynchronous_http_web_se.Db.Handler as DbHandler
use asynchronous_http_web_se.Pooler.{on_event}
use asynchronous_http_web_se.Registry.{World, ClientObject, create, put}
use asynchronous_http_web_se.Server.{on_readable}
use asynchronous_http_web_se.Books.{Closure, connects, JsonLib, Env, State, set_client}
use asynchronous_http_web_se.Books.Handlers.{crash, sends_next, apply_log}
use asynchronous_http_web_se.Books.Serving.{on_accept, on_client, on_connecting, on_query}
use asynchronous_http_web_se.Books.Safety.{IsSafe, IsSafeIn, Untracked}
use asynchronous_http_web_se.Books.Safety.Parts.{
  perform-IsSafeIn, remove_track-IsSafeIn, set_client-IsSafeIn, create-IsSafeIn,
}
use asynchronous_http_web_se.Books.Safety.Callbacks.{
  IsLiving, start_read-IsSafe, use_client-IsSafe, apply_log-IsSafe, settle-IsSafe,
}

-- An address that `new` gives is one at which no client stands.
abbrev pub IsFresh : (World → Option ℕ) → Type 0
IsFresh allocate = (w : World) (a : ℕ) → allocate w ≡ some a → w.objects a ≡ none

set_client_self :
    {P : Type 0} (a : ℕ) (conn : ClientConnection P) (clients : ℕ → ClientConnection P)
    → set_client a conn clients a ≡ conn
unfolding set_client
set_client_self a conn clients = ground arith

put_self : (a : ℕ) (o : ClientObject) (w : World) → (create a o w).objects a ≡ some o
unfolding create put
put_self a o w = ground arith

module _ {K P : Type 0} (sys : Epoll K) (laws : EpollLaws sys) where
  -- A client's closures are gone with its socket.
  gone_with_socket :
      (s : State K P) (a : ℕ)
      → IsSafe sys s
      → get (s.1.clients a).socket s.0.event_callback ≡ none
      → Untracked a s.0
  gone_with_socket s a h none_there fd closure held own =
      let (o, at_a, on_fd) = h.lives fd closure a held own in
      let here : fd ≡ (s.1.clients a).socket = sym on_fd ∙ sym (h.sockets a o at_a) in
      let held' : get (s.1.clients a).socket s.0.event_callback ≡ some closure =
        subst (λ j. get j s.0.event_callback ≡ some closure) here held in
      cc

  pub on_connecting-IsSafe :
      (c : ℕ) (e : Env) (ev : EpollEvent) (s : State K P)
      → IsSafe sys s
      → IsSafe sys (on_connecting sys c e ev s)
  unfolding on_connecting
  on_connecting-IsSafe c e ev (t, app) h =
      let calls = (DbHandler.handle_event ev e.pq (app.pool.heap c)).1 in
      let kept : IsSafeIn sys (perform sys (connects c) calls t) app.world app.clients app.misused =
        perform-IsSafeIn sys laws h (connects c) calls refl in
      if_cases (λ (r : State K P). IsSafe sys r) (callbacks calls == 0) _ _ (λ _. kept) (λ _. kept)

  pub on_query-IsSafe :
      {J : Type 0} (json : JsonLib J) (answer : ℕ → ℤ × ℤ) (c : ℕ) (e : Env) (ev : EpollEvent)
      (s : State K P)
      → IsSafe sys s
      → IsSafe sys (on_query sys json answer c e ev s)
  unfolding on_query
  on_query-IsSafe json answer c e ev (t, app) h =
      let r = on_event answer (sends_next app) ev e.pq c app.pool in
      let s' : State K P = (t, record app { pool = r.pool }) in
      settle-IsSafe sys laws json answer r.frames (apply_log sys json r.log s')
        (apply_log-IsSafe sys laws json r.log s' h)

  module _ (parser_lib : Llhttp P) where
    pub on_client-IsSafe :
        (closure : Closure) (cb : State K P → State K P) (a : ℕ) (e : Env) (ev : EpollEvent)
        (s : State K P)
        → IsSafe sys s
        → IsLiving s.1.world a
        → ((r : State K P)
            → IsSafe sys r
            → IsLiving r.1.world a
            → Untracked a r.0
            → IsSafe sys (cb r))
        → IsSafe sys (on_client sys parser_lib closure cb a e ev s)
    unfolding on_client
    on_client-IsSafe closure cb a e ev (t, app) h living keep =
        let conn = app.clients a in
        let handled = ClientHandler.handle_event parser_lib ev e.inbound e.outbound conn in
        let same_socket = handle_event-socket parser_lib ev e.inbound e.outbound conn in
        let t' = perform sys closure handled.1 t in
        let clients' = set_client a handled.0 app.clients in
        let kept : IsSafeIn sys t app.world clients' app.misused =
          set_client-IsSafeIn sys laws h a handled.0 same_socket in
        let s' : State K P = (t', record app { clients = clients' }) in
        use_client-IsSafe sys laws a (t, app) _ living
          (elim (handle_event_once parser_lib sys closure t ev e.inbound e.outbound conn laws
            h.tracked) [
              | inl (quiet, same) ↦
                  if_cases (λ (r : State K P). IsSafe sys r) (callbacks handled.1 == 0) _ _
                    (λ _.
                      subst
                        (λ (u : Tracker K Closure). IsSafeIn sys u app.world clients' app.misused)
                        (sym same) kept)
                    (λ loud. absurd (ground (arith, quiet, loud)))
              | inr (called, removed, none_there) ↦
                  let safe : IsSafe sys s' =
                    subst (λ (u : Tracker K Closure). IsSafeIn sys u app.world clients' app.misused)
                      (sym removed) (remove_track-IsSafeIn sys laws kept conn.socket) in
                  let own_socket : (clients' a).socket ≡ conn.socket =
                    ap (λ (c : ClientConnection P). c.socket)
                      (set_client_self a handled.0 app.clients)
                    ∙ same_socket in
                  if_cases (λ (r : State K P). IsSafe sys r) (callbacks handled.1 == 0) _ _
                    (λ quiet. absurd (ground (arith, quiet, called)))
                    (λ _. keep s' safe living (
                      gone_with_socket s' a safe
                        (subst (λ j. get j t'.event_callback ≡ none) (sym own_socket) none_there)))
            ])

    pub on_accept-IsSafe :
        (allocate : World → Option ℕ) (e : Env) (ev : EpollEvent) (s : State K P)
        → IsFresh allocate
        → IsSafe sys s
        → IsSafe sys (on_accept sys parser_lib allocate e ev s)
    unfolding on_accept
    on_accept-IsSafe allocate e ev (t, app) fresh h =
        let r = on_readable parser_lib ev e.accepting e.uuid app.system in
        elim (Option-cases r.0) [
          | inl f ↦ rw (f, on_accept) h
          | inr (client, f) ↦ elim (Option-cases (allocate app.world)) [
            | inl g ↦ rw (f, on_accept, g, crash) h
            | inr (a, g) ↦
                let o : ClientObject = record {
                  connection_id = client.connection_id;
                  socket = client.socket;
                } in
                let made : IsSafeIn sys t (create a o app.world) (set_client a client app.clients)
                    app.misused =
                  create-IsSafeIn sys laws h a o client (fresh app.world a g) refl in
                let s' : State K P = (
                  t,
                  record app {
                    world = create a o app.world;
                    clients = set_client a client app.clients;
                    system = r.1;
                  },
                ) in
                rw (f, on_accept, g)
                  (start_read-IsSafe sys laws a s' made (o, put_self a o app.world))
          ]
        ]
