-- ===== src/Books/Visiting.antt =====
-- A visit to example/server.cpp: a client is accepted, its request is read, and it gets its answer.
-- Here it is accepted.
pub mod Reading
pub mod Sending
pub mod Writing
pub mod Asking
pub mod Answered
pub mod Crashing
use asynchronous_http_web_se.Base.{
  ℕ, suc, ◌≡◌, ◌≢◌, refl, sym, ap, subst, ◌∙◌, inl, inr, true, false, List, [], ◌∷◌, ◌++◌, Option,
  none, some, is_some, ℤ, pos, minus_one, int_key, nat_key, ◌=?◌, ◌==◌, Bytes, bytes_eq,
  bytes_eq_iff, text, arith, if_cases, if◌then◌else◌,
}
use asynchronous_http_web_se.Epoll.{
  Epoll, EpollEvent, has, epollin, epollout, epollerr, read_mask, write_mask,
}
use asynchronous_http_web_se.SocketIo.{Inbound, Outbound}
use asynchronous_http_web_se.Reactor.{Tracker, add_track, remove_track, new_sock, helper_sock}
use asynchronous_http_web_se.Http.{Llhttp, ParserCall, new_request}
use asynchronous_http_web_se.Calls.{perform, callbacks, untracks, calls_back}
use asynchronous_http_web_se.Client.{ClientConnection, new_client}
use asynchronous_http_web_se.Client.Handler as ClientHandler
use asynchronous_http_web_se.Client.Handler.{read, write}
use asynchronous_http_web_se.Client.Handler.Reading.{Arrives, pieces, handle_event_reads_message}
use asynchronous_http_web_se.Client.Message.{Message, MessageCalls, request_of}
use asynchronous_http_web_se.Registry.{World, ClientObject, create, put, destroy}
use asynchronous_http_web_se.Sockets.{System, accept_connection}
use asynchronous_http_web_se.Server.{on_readable}
use asynchronous_http_web_se.Books.{
  Closure, accepts, reads, writes, JsonLib, Env, App, State, set_client,
}
use asynchronous_http_web_se.Books.Text.{response_text}
use asynchronous_http_web_se.Books.Handlers.{
  use_client, crash, delete_client, start_read, start_write, root_page, read_done,
}
use asynchronous_http_web_se.Books.Answering.{page_body, root_page-start_write, client_at}
use asynchronous_http_web_se.Books.Serving.{on_accept, on_client, serve, invoke}

pub put_same : (a : ℕ) (o : Option ClientObject) (w : World) → put a o w.objects a ≡ o
unfolding put
put_same a o w = ground arith

module _ {K P J : Type 0} (sys : Epoll K) (parser_lib : Llhttp P) (json : JsonLib J)
    (allocate : World → Option ℕ) (answer : ℕ → ℤ × ℤ) (env : ℕ → Env) where
  pub invoke_running :
      (cb : Closure) (ev : EpollEvent) (s : State K P)
      → s.1.crashed ≡ false
      → invoke sys parser_lib json allocate answer env cb ev s
        ≡ serve sys parser_lib json allocate answer env cb
            (env s.1.served)
            ev
            (s.0, record s.1 { served = suc s.1.served })
  unfolding invoke
  invoke_running cb ev (t, app) running =
      let served = record app { served = suc app.served } in
      let next = serve sys parser_lib json allocate answer env cb (env app.served) ev (t, served) in
      if_cases (λ (r : State K P). r ≡ next) app.crashed _ _ (λ crashed. cc) (λ _. refl)

  -- The program after a client with descriptor `fd` was accepted at the address `a`.
  abbrev pub after_accept : ℤ → ℕ → State K P → State K P
  after_accept fd a (t, app) =
      let e = env app.served in
      let client = new_client parser_lib fd e.uuid in
      (
        (add_track sys t fd read_mask new_sock (reads a)).0,
        record app {
          world = create a (record { connection_id = e.uuid; socket = fd }) app.world;
          clients = set_client a client app.clients;
          system = (accept_connection e.accepting app.system).1;
          served = suc app.served;
        },
      )

  readable_accepts :
      (ev : EpollEvent) (e : Env) (system : System) (fd : ℤ)
      → has ev.events epollerr ≡ false
      → has ev.events epollin ≡ true
      → (accept_connection e.accepting system).0 ≡ fd
      → (fd =? minus_one) ≡ false
      → on_readable parser_lib ev e.accepting e.uuid system
        ≡ (some (new_client parser_lib fd e.uuid), (accept_connection e.accepting system).1)
  unfolding on_readable
  readable_accepts ev e system fd no_err readable accepted valid =
      rw (no_err, readable, accepted, valid) refl

  start_read_lem :
      (a : ℕ) (t : Tracker K Closure) (app : App P) (o : ClientObject)
      → app.world.objects a ≡ some o
      → start_read sys a (t, app)
        ≡ ((add_track sys t (app.clients a).socket read_mask new_sock (reads a)).0, app)
  unfolding start_read use_client read perform
  start_read_lem a t app o at_a =
      let next : State K P =
        ((add_track sys t (app.clients a).socket read_mask new_sock (reads a)).0, app) in
      if_cases (λ (r : State K P). r ≡ next) (is_some (app.world.objects a)) _ _ (λ _. refl)
        (λ dead. absurd (ground (arith, at_a, dead)))

  pub invoke-accepts :
      (ev : EpollEvent) (s : State K P) (fd : ℤ) (a : ℕ)
      → s.1.crashed ≡ false
      → has ev.events epollerr ≡ false
      → has ev.events epollin ≡ true
      → (accept_connection (env s.1.served).accepting s.1.system).0 ≡ fd
      → (fd =? minus_one) ≡ false
      → allocate s.1.world ≡ some a
      → invoke sys parser_lib json allocate answer env accepts ev s ≡ after_accept fd a s
  unfolding serve on_accept new_client create
  invoke-accepts ev (t, app) fd a running no_err readable accepted valid given =
      let e = env app.served in
      let client = new_client parser_lib fd e.uuid in
      let o : ClientObject = record { connection_id = e.uuid; socket = fd } in
      let read_by = readable_accepts ev e app.system fd no_err readable accepted valid in
      let next : System → App P = λ system. record app {
        world = create a o app.world;
        clients = set_client a client app.clients;
        system = system;
        served = suc app.served;
      } in
      let own_socket : (set_client a client app.clients a).socket ≡ fd =
        ap (λ (c : ClientConnection P). c.socket) (client_at a client app.clients) in
      let system = (on_readable parser_lib ev e.accepting e.uuid app.system).1 in
      invoke_running accepts ev (t, app) running
      ∙ rw (ap (λ (r : Option (ClientConnection P) × System). r.0) read_by, on_accept, given)
          (start_read_lem a t (next system) o (put_same a (some o) app.world))
      ∙ ap (λ (j : ℤ). ((add_track sys t j read_mask new_sock (reads a)).0, next system)) own_socket
      ∙ ap (λ (u : System). ((add_track sys t fd read_mask new_sock (reads a)).0, next u))
          (ap (λ (r : Option (ClientConnection P) × System). r.1) read_by)
