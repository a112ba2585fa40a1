-- ===== src/Books/Visiting/Crashing.antt =====
-- A request to example/server.cpp whose body is JSON without the members that the callback of
-- `client->read` reads.
use asynchronous_http_web_se.Base.{
  ℕ, suc, ◌≡◌, refl, sym, ap, subst, ◌∙◌, true, false, List, [], ◌∷◌, Option, none, some, ℤ,
  int_key, minus_one, ◌=?◌, ◌⊎◌, inl, inr, Bytes, bytes_eq, text, if_cases,
}
use asynchronous_http_web_se.SafeMap.{get}
use asynchronous_http_web_se.Epoll.{Epoll, EpollEvent, has, epollin, epollerr, read_mask}
use asynchronous_http_web_se.SocketIo.{Inbound}
use asynchronous_http_web_se.Reactor.{new_sock, reactor_run}
use asynchronous_http_web_se.Reactor.Dispatch.{one_by_one, served, event, reactor_run-Serves}
use asynchronous_http_web_se.Http.{Llhttp, ParserCall}
use asynchronous_http_web_se.Client.{ClientConnection, new_client}
use asynchronous_http_web_se.Client.Handler.Reading.{Arrives, pieces}
use asynchronous_http_web_se.Client.Message.{Message, MessageCalls, request_of}
use asynchronous_http_web_se.Client.Assembly.{completed}
use asynchronous_http_web_se.Registry.{World, ClientObject, create}
use asynchronous_http_web_se.Sockets.{accept_connection}
use asynchronous_http_web_se.Books.{Closure, accepts, reads, JsonLib, Env, State}
use asynchronous_http_web_se.Books.Handlers.{crash, or_crash, root_page, insert_page, read_done}
use asynchronous_http_web_se.Books.Answering.{client_at}
use asynchronous_http_web_se.Books.Serving.{invoke}
use asynchronous_http_web_se.Books.Visiting.{after_accept, invoke-accepts, put_same}
use asynchronous_http_web_se.Books.Visiting.Reading.{when_read, invoke-read_done}
use asynchronous_http_web_se.Books.Visiting.Asking.{added_track, serves, reads_message}

-- `j.value` throws: for the id, or for the title after it.
abbrev pub Throws : {J : Type 0} → JsonLib J → J → Type 0
Throws {J} json j =
    (json.int_value j (text "id") ≡ none)
    ⊎ ((id : ℤ) × (json.int_value j (text "id") ≡ some id)
        × (json.text_value j (text "title") ≡ none))

module _ {K P J : Type 0} (sys : Epoll K) (json : JsonLib J) (answer : ℕ → ℤ × ℤ) where
  root_page-Throws :
      (a : ℕ) (j : J) (s : State K P)
      → json.parse (s.1.clients a).request.body ≡ some j
      → Throws json j
      → root_page sys json a s ≡ crash s
  unfolding root_page or_crash
  root_page-Throws a j s e (inl no_id) = rw (e, no_id, root_page) refl
  root_page-Throws a j s e (inr (id, an_id, no_title)) = rw (e, an_id, no_title, root_page) refl

  insert_page-Throws :
      (a : ℕ) (j : J) (s : State K P)
      → json.parse (s.1.clients a).request.body ≡ some j
      → Throws json j
      → insert_page sys json answer a s ≡ crash s
  unfolding insert_page or_crash
  insert_page-Throws a j s e (inl no_id) = rw (e, no_id, insert_page) refl
  insert_page-Throws a j s e (inr (id, an_id, no_title)) = rw (e, an_id, no_title, insert_page) refl

  read_done-Throws :
      (a : ℕ) (j : J) (s : State K P)
      → (s.1.clients a).is_error ≡ false
      → json.parse (s.1.clients a).request.body ≡ some j
      → Throws json j
      → read_done sys json answer a s ≡ crash s
  unfolding read_done
  read_done-Throws a j s fine e h =
      let Q = λ (r : State K P). r ≡ crash s in
      if_cases Q (s.1.clients a).is_error _ _ (λ failed. cc)
        (λ _.
          if_cases Q (bytes_eq (s.1.clients a).request.url (text "/")) _ _
            (λ _. root_page-Throws a j s e h) (λ _. insert_page-Throws a j s e h))

module _ {K P J : Type 0} (sys : Epoll K) (parser_lib : Llhttp P) (json : JsonLib J)
    (allocate : World → Option ℕ) (answer : ℕ → ℤ × ℤ) (env : ℕ → Env) where
  invoke-crashed :
      (cb : Closure) (ev : EpollEvent) (s : State K P)
      → s.1.crashed ≡ true
      → serves sys parser_lib json allocate answer env cb ev s ≡ s
  unfolding invoke
  invoke-crashed cb ev s ended =
      if_cases (λ (r : State K P). r ≡ s) s.1.crashed _ _ (λ _. refl) (λ running. cc)

  -- Where the listening socket gives a connection that epoll takes, and its request, for any URL,
  -- comes in any number of `recv` calls with a body that is JSON in which `j.value` throws, for the id
  -- or for the title: after these two events the program has ended, and it serves no event any more.
  pub bad_member_ends_server :
      {m : Message} {more : List Bytes} {cs : List ParserCall} (s : State K P) (fd : ℤ) (a : ℕ)
      (accept_ev read_ev : EpollEvent) (rest : Inbound) (j : J) (k : K)
      → s.1.crashed ≡ false
      → get accept_ev.fd s.0.event_callback ≡ some accepts
      → has accept_ev.events epollerr ≡ false
      → has accept_ev.events epollin ≡ true
      → (accept_connection (env s.1.served).accepting s.1.system).0 ≡ fd
      → (fd =? minus_one) ≡ false
      → allocate s.1.world ≡ some a
      → sys.ctl_add s.0.epoll (record { events = read_mask; fd = fd }) ≡ some k
      → read_ev.fd ≡ fd
      → has read_ev.events epollerr ≡ false
      → has read_ev.events epollin ≡ true
      → (env (suc s.1.served)).inbound ≡ pieces more rest
      → MessageCalls m cs
      → Arrives parser_lib parser_lib.start more cs
      → json.parse (request_of m).body ≡ some j
      → Throws json j
      → let at_end =
          (reactor_run
            (serves sys parser_lib json allocate answer env)
            (one_by_one (accept_ev ∷ read_ev ∷ []))
            []
            s).0 in
        (at_end.1.crashed ≡ true)
        × ((cb : Closure) (ev : EpollEvent)
            → serves sys parser_lib json allocate answer env cb ev at_end ≡ at_end)
  unfolding create new_client crash
  bad_member_ends_server {m} s fd a accept_ev read_ev rest j k running listening no_err readable
        accepted valid given added from_client no_err1 readable1 comes calls arrives parsed throws =
      let runs = serves sys parser_lib json allocate answer env in
      let e = env (suc s.1.served) in
      let uuid = (env s.1.served).uuid in
      let o : ClientObject = record { connection_id = uuid; socket = fd } in
      let s1 : State K P = after_accept sys parser_lib json allocate answer env fd a s in
      let first =
        invoke-accepts sys parser_lib json allocate answer env accept_ev s fd a running no_err
          readable accepted valid given in
      let (buffer, q, reading) =
        reads_message parser_lib fd uuid read_ev rest e.inbound e.outbound (s1.1.clients a)
          (client_at a (new_client parser_lib fd uuid) s.1.clients) no_err1 readable1 comes calls
          arrives in
      let h : ClientConnection P = record (completed (new_client parser_lib fd uuid) m) {
        recv_buffer = buffer;
        parser = q;
      } in
      let own : (when_read sys parser_lib json allocate answer env a h s1).1.clients a ≡ h =
        client_at a h s1.1.clients in
      let second =
        invoke-read_done sys parser_lib json allocate answer env read_ev s1 a o h running
          (put_same a (some o) s.1.world) reading
        ∙ read_done-Throws sys json answer a j
            (when_read sys parser_lib json allocate answer env a h s1)
            (ap (λ (c : ClientConnection P). c.is_error) own)
            (ap (λ (c : ClientConnection P). json.parse c.request.body) own ∙ parsed) throws in
      let reg = added_track sys s.0 k fd read_mask new_sock (reads a) added in
      let held =
        subst (λ (i : ℤ). get i s1.0.event_callback ≡ some (reads a)) (sym from_client) reg.1 in
      let ended : (reactor_run runs (one_by_one (accept_ev ∷ read_ev ∷ [])) [] s).0.1.crashed
          ≡ true =
        ap (λ (q : State K P). q.1.crashed)
          (reactor_run-Serves runs
            (event accepts listening first (event (reads a) held second served))) in
      (ended, λ cb ev. invoke-crashed cb ev _ ended)
