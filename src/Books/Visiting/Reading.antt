-- ===== src/Books/Visiting/Reading.antt =====
-- The callbacks of `client->read` and `client->write` in example/server.cpp, for a client that asks
-- for `/`.
use asynchronous_http_web_se.Base.{
  ℕ, suc, ◌≡◌, ◌≢◌, refl, ap, ◌∙◌, false, ◌∷◌, ◌++◌, Option, none, some, is_some, ℤ, int_key,
  nat_key, ◌==◌, Bytes, bytes_eq, bytes_eq_iff, text, arith, if_cases,
}
use asynchronous_http_web_se.Epoll.{Epoll, EpollEvent, write_mask}
use asynchronous_http_web_se.Reactor.{Tracker, add_track, remove_track, helper_sock}
use asynchronous_http_web_se.Http.{Llhttp}
use asynchronous_http_web_se.Calls.{perform, callbacks}
use asynchronous_http_web_se.Client.{ClientConnection}
use asynchronous_http_web_se.Client.Handler as ClientHandler
use asynchronous_http_web_se.Client.Handler.{complete, write}
use asynchronous_http_web_se.Registry.{World, ClientObject, put, destroy}
use asynchronous_http_web_se.Sockets.{close_fd}
use asynchronous_http_web_se.Books.{Closure, reads, writes, JsonLib, Env, App, State, set_client}
use asynchronous_http_web_se.Books.Text.{response_text}
use asynchronous_http_web_se.Books.Handlers.{use_client, delete_client, start_write, read_done}
use asynchronous_http_web_se.Books.Answering.{page_body, root_page-start_write, client_at}
use asynchronous_http_web_se.Books.Serving.{on_client, serve, invoke}
use asynchronous_http_web_se.Books.Visiting.{invoke_running}

module _ {K P J : Type 0} (sys : Epoll K) (parser_lib : Llhttp P) (json : JsonLib J) where
  -- Where `handleEvent` is complete, the callback runs with the client off the reactor.
  on_client_done :
      (closure : Closure) (cb : State K P → State K P) (a : ℕ) (e : Env) (ev : EpollEvent)
      (t : Tracker K Closure) (app : App P) (o : ClientObject) (h : ClientConnection P)
      → app.world.objects a ≡ some o
      → ClientHandler.handle_event parser_lib ev e.inbound e.outbound (app.clients a) ≡ complete h
      → on_client sys parser_lib closure cb a e ev (t, app)
        ≡ cb ((remove_track sys t h.socket).0, record app { clients = set_client a h app.clients })
  unfolding on_client use_client perform complete
  on_client_done closure cb a e ev t app o h at_a all =
      let next : State K P =
        cb ((remove_track sys t h.socket).0, record app { clients = set_client a h app.clients }) in
      rw all (
        if_cases (λ (r : State K P). r ≡ next) (is_some (app.world.objects a)) _ _ (λ _. refl)
          (λ dead. absurd (ground (arith, at_a, dead))))

  start_write_lem :
      (a : ℕ) (body : Bytes) (t : Tracker K Closure) (app : App P) (o : ClientObject)
      → app.world.objects a ≡ some o
      → let client = app.clients a in
        start_write sys a body (t, app) ≡ (
          (add_track sys t client.socket write_mask helper_sock (writes a)).0,
          record app {
            clients =
                set_client a
                  (record client { send_buffer = client.send_buffer ++ response_text body })
                  app.clients;
          },
        )
  unfolding start_write use_client write perform
  start_write_lem a body t app o at_a =
      let client = app.clients a in
      let next : State K P = (
        (add_track sys t client.socket write_mask helper_sock (writes a)).0,
        record app {
          clients =
              set_client a
                (record client { send_buffer = client.send_buffer ++ response_text body })
                app.clients;
        },
      ) in
      if_cases (λ (r : State K P). r ≡ next) (is_some (app.world.objects a)) _ _ (λ _. refl)
        (λ dead. absurd (ground (arith, at_a, dead)))

  read_done_root :
      (answer : ℕ → ℤ × ℤ) (a : ℕ) (body : Bytes) (s : State K P)
      → (s.1.clients a).is_error ≡ false
      → (s.1.clients a).request.url ≡ text "/"
      → page_body json (s.1.clients a).request.body ≡ some body
      → read_done sys json answer a s ≡ start_write sys a body s
  unfolding read_done
  read_done_root answer a body s fine root e =
      let page = root_page-start_write sys json a s body e in
      let Q = λ (r : State K P). r ≡ start_write sys a body s in
      if_cases Q (s.1.clients a).is_error _ _ (λ failed. cc)
        (λ _.
          if_cases Q (bytes_eq (s.1.clients a).request.url (text "/")) _ _ (λ _. page)
            (λ other.
              let same = (bytes_eq_iff (s.1.clients a).request.url (text "/")).1 root in cc))

  module _ (allocate : World → Option ℕ) (answer : ℕ → ℤ × ℤ) (env : ℕ → Env) where
    -- The program after the request of a client was read, and its answer is to be written.
    abbrev pub after_read : ℕ → ClientConnection P → Bytes → State K P → State K P
    after_read a h body (t, app) = (
      (add_track sys (remove_track sys t h.socket).0 h.socket write_mask helper_sock (writes a)).0,
      record app {
        clients =
            set_client a (record h { send_buffer = h.send_buffer ++ response_text body })
              (set_client a h app.clients);
        served = suc app.served;
      },
    )

    -- The program when the callback of `client->read` starts.
    abbrev pub when_read : ℕ → ClientConnection P → State K P → State K P
    when_read a h (t, app) = (
      (remove_track sys t h.socket).0,
      record app { clients = set_client a h app.clients; served = suc app.served },
    )

    pub invoke-read_done :
        (ev : EpollEvent) (s : State K P) (a : ℕ) (o : ClientObject) (h : ClientConnection P)
        → s.1.crashed ≡ false
        → s.1.world.objects a ≡ some o
        → let e = env s.1.served in
          ClientHandler.handle_event parser_lib ev e.inbound e.outbound (s.1.clients a) ≡ complete h
          → invoke sys parser_lib json allocate answer env (reads a) ev s
            ≡ read_done sys json answer a (when_read a h s)
    unfolding serve
    invoke-read_done ev (t, app) a o h running at_a all =
        let served : App P = record app { served = suc app.served } in
        invoke_running sys parser_lib json allocate answer env (reads a) ev (t, app) running
        ∙ on_client_done (reads a) (read_done sys json answer a) a (env app.served) ev t served o h
            at_a all

    pub invoke-reads :
        (ev : EpollEvent) (s : State K P) (a : ℕ) (o : ClientObject) (h : ClientConnection P)
        (body : Bytes)
        → s.1.crashed ≡ false
        → s.1.world.objects a ≡ some o
        → let e = env s.1.served in
          ClientHandler.handle_event parser_lib ev e.inbound e.outbound (s.1.clients a) ≡ complete h
          → h.is_error ≡ false
          → h.request.url ≡ text "/"
          → page_body json h.request.body ≡ some body
          → invoke sys parser_lib json allocate answer env (reads a) ev s ≡ after_read a h body s
    invoke-reads ev (t, app) a o h body running at_a all fine root page =
        let (t', app') : State K P = when_read a h (t, app) in
        let own : set_client a h app.clients a ≡ h = client_at a h app.clients in
        let is : ClientConnection P → State K P = λ c. (
          (add_track sys t' c.socket write_mask helper_sock (writes a)).0,
          record app' {
            clients =
                set_client a (record c { send_buffer = c.send_buffer ++ response_text body })
                  (set_client a h app.clients);
          },
        ) in
        invoke-read_done ev (t, app) a o h running at_a all
        ∙ read_done_root answer a body (t', app')
            (ap (λ (c : ClientConnection P). c.is_error) own ∙ fine)
            (ap (λ (c : ClientConnection P). c.request.url) own ∙ root)
            (ap (λ (c : ClientConnection P). page_body json c.request.body) own ∙ page)
        ∙ start_write_lem a body t' app' o at_a
        ∙ ap is own

    -- The program after the answer of a client was written: the client is deleted.
    abbrev pub after_write : ℕ → ClientHandler.Handled P → State K P → State K P
    after_write a r (t, app) = delete_client a (
      perform sys (writes a) r.1 t,
      record app { clients = set_client a r.0 app.clients; served = suc app.served },
    )

    pub invoke-writes :
        (ev : EpollEvent) (s : State K P) (a : ℕ) (o : ClientObject)
        → s.1.crashed ≡ false
        → s.1.world.objects a ≡ some o
        → let e = env s.1.served in
          let r = ClientHandler.handle_event parser_lib ev e.inbound e.outbound (s.1.clients a) in
          callbacks r.1 ≢ 0
          → invoke sys parser_lib json allocate answer env (writes a) ev s ≡ after_write a r s
    unfolding serve on_client use_client
    invoke-writes ev (t, app) a o running at_a called =
        let e = env app.served in
        let r = ClientHandler.handle_event parser_lib ev e.inbound e.outbound (app.clients a) in
        let Q = λ (q : State K P). q ≡ after_write a r (t, app) in
        invoke_running sys parser_lib json allocate answer env (writes a) ev (t, app) running
        ∙ if_cases Q (is_some (app.world.objects a)) _ _
            (λ _.
              if_cases Q (callbacks r.1 == 0) _ _ (λ quiet. absurd (called (ground (arith, quiet))))
                (λ _. refl))
            (λ dead. absurd (ground (arith, at_a, dead)))

module _ {K P : Type 0} where
  -- What a client that is deleted leaves.
  pub deleted_client :
      (a : ℕ) (t : Tracker K Closure) (app : App P) (o : ClientObject)
      → app.world.objects a ≡ some o
      → let s = delete_client a (t, app) in
        (s.0 ≡ t)
        × (s.1.world.objects a ≡ none)
        × (s.1.world.closed ≡ o.socket ∷ app.world.closed)
        × (s.1.crashed ≡ app.crashed)
        × (s.1.system.open_fds ≡ close_fd (app.clients a).socket app.system.open_fds)
  unfolding delete_client use_client destroy put
  deleted_client a t app o at_a = ground (arith, at_a)
