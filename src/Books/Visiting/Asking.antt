-- ===== src/Books/Visiting/Asking.antt =====
-- `start_read` and the callback of `client->read` in example/server.cpp, for a client that was just
-- accepted and asks for `/`.
use asynchronous_http_web_se.Base.{
  ℕ, suc, ◌≡◌, refl, sym, ap, subst, ◌∙◌, true, false, List, Option, some, ℤ, int_key, int_eq_iff,
  ◌=?◌, Bytes, text,
}
use asynchronous_http_web_se.SafeMap.{get}
use asynchronous_http_web_se.SafeMap.Laws.{get-insert}
use asynchronous_http_web_se.Epoll.{
  Epoll, EpollLaws, EpollEvent, has, epollin, epollerr, write_mask, add_epoll_interest,
  remove_epoll_interest,
}
use asynchronous_http_web_se.SocketIo.{Inbound, Outbound}
use asynchronous_http_web_se.Reactor.{Tracker, EventPriority, add_track, remove_track, helper_sock}
use asynchronous_http_web_se.Reactor.Tracking.{
  IsTracked, add_track-IsTracked, remove_track-IsTracked,
}
use asynchronous_http_web_se.Http.{Llhttp, ParserCall}
use asynchronous_http_web_se.Client.{ClientConnection, new_client}
use asynchronous_http_web_se.Client.Handler as ClientHandler
use asynchronous_http_web_se.Client.Handler.{complete}
use asynchronous_http_web_se.Client.Handler.Reading.{Arrives, pieces, handle_event_reads_message}
use asynchronous_http_web_se.Client.Message.{Message, MessageCalls, request_of}
use asynchronous_http_web_se.Client.Assembly.{completed}
use asynchronous_http_web_se.Registry.{World, ClientObject}
use asynchronous_http_web_se.Books.{Closure, reads, writes, JsonLib, Env, State, set_client}
use asynchronous_http_web_se.Books.Answering.{page_body, client_at}
use asynchronous_http_web_se.Books.Serving.{invoke}
use asynchronous_http_web_se.Books.Visiting.Reading.{after_read, invoke-reads}
use asynchronous_http_web_se.Books.Visiting.Writing.{HasAnswer}

-- A registration that epoll accepts.
pub added_track :
    {K C : Type 0} (sys : Epoll K) (t : Tracker K C) (k : K) (fd : ℤ) (mask : ℕ) (p : EventPriority)
    (cb : C)
    → sys.ctl_add t.epoll (record { events = mask; fd = fd }) ≡ some k
    → let u = (add_track sys t fd mask p cb).0 in
      (u.epoll ≡ k) × (get fd u.event_callback ≡ some cb)
unfolding add_track
added_track sys t k fd mask p cb added =
    let self : (fd =? fd) ≡ true = (int_eq_iff fd fd).1 refl in
    rw (added, add_epoll_interest) (refl, get-insert fd fd cb t.event_callback ∙ rw self refl)

module _ {P : Type 0} (parser_lib : Llhttp P) where
  -- A client that was just accepted gets a message in one event: all but its buffer and its parser.
  pub reads_message :
      {m : Message} {more : List Bytes} {cs : List ParserCall} (fd : ℤ) (uuid : Bytes)
      (ev : EpollEvent) (rest inbound : Inbound) (outbound : Outbound) (client : ClientConnection P)
      → client ≡ new_client parser_lib fd uuid
      → has ev.events epollerr ≡ false
      → has ev.events epollin ≡ true
      → inbound ≡ pieces more rest
      → MessageCalls m cs
      → Arrives parser_lib parser_lib.start more cs
      → (buffer : Bytes) × (q : P) × (ClientHandler.handle_event parser_lib ev inbound outbound
            client
          ≡ complete (record (completed (new_client parser_lib fd uuid) m) {
            recv_buffer = buffer;
            parser = q;
          }))
  unfolding new_client
  reads_message {m} {more} fd uuid ev rest inbound outbound client own no_err readable comes calls
        arrives =
      let (buffer, q, all) =
        handle_event_reads_message parser_lib ev outbound (new_client parser_lib fd uuid) no_err
          readable calls arrives refl refl in
      (
        buffer,
        q,
        ap (λ (i : Inbound). ClientHandler.handle_event parser_lib ev i outbound client) comes
            ∙ ap
                (λ (c : ClientConnection P).
                  ClientHandler.handle_event parser_lib ev (pieces more rest) outbound c)
                own
            ∙ all rest,
      )

module _ {K P J : Type 0} (sys : Epoll K) (parser_lib : Llhttp P) (json : JsonLib J)
    (allocate : World → Option ℕ) (answer : ℕ → ℤ × ℤ) (env : ℕ → Env) where
  abbrev pub serves : Closure → EpollEvent → State K P → State K P
  serves = invoke sys parser_lib json allocate answer env

module _ {K P J : Type 0} (sys : Epoll K) (laws : EpollLaws sys) (parser_lib : Llhttp P)
    (json : JsonLib J) (allocate : World → Option ℕ) (answer : ℕ → ℤ × ℤ) (env : ℕ → Env) where
  -- The request of a client that was just accepted is read in one event, and its answer registered.
  pub invoke-HasRequest :
      {m : Message} {more : List Bytes} {cs : List ParserCall} (s : State K P) (fd : ℤ) (a : ℕ)
      (uuid : Bytes) (ev : EpollEvent) (rest : Inbound) (body : Bytes) (o : ClientObject) (k2 : K)
      → IsTracked sys s.0
      → s.1.crashed ≡ false
      → s.1.world.objects a ≡ some o
      → o.socket ≡ fd
      → s.1.clients a ≡ new_client parser_lib fd uuid
      → has ev.events epollerr ≡ false
      → has ev.events epollin ≡ true
      → (env s.1.served).inbound ≡ pieces more rest
      → MessageCalls m cs
      → Arrives parser_lib parser_lib.start more cs
      → (request_of m).url ≡ text "/"
      → page_body json (request_of m).body ≡ some body
      → sys.ctl_add
          (remove_epoll_interest sys s.0.epoll fd).0
          (record { events = write_mask; fd = fd })
        ≡ some k2
      → let next = serves sys parser_lib json allocate answer env (reads a) ev s in
        HasAnswer sys a fd body next
        × (next.1.world ≡ s.1.world)
        × (next.1.system ≡ s.1.system)
        × (next.1.served ≡ suc s.1.served)
  unfolding new_client remove_track
  invoke-HasRequest {m} {more} s fd a uuid ev rest body o k2 tracked running at_a own_fd own no_err
        readable comes calls arrives root page room =
      let e = env s.1.served in
      let (buffer, q, reading) =
        reads_message parser_lib fd uuid ev rest e.inbound e.outbound (s.1.clients a) own no_err
          readable comes calls arrives in
      let h : ClientConnection P = record (completed (new_client parser_lib fd uuid) m) {
        recv_buffer = buffer;
        parser = q;
      } in
      let after = after_read sys parser_lib json allocate answer env a h body s in
      let done =
        invoke-reads sys parser_lib json allocate answer env ev s a o h body running at_a reading
          refl root page in
      let cut = (remove_track sys s.0 fd).0 in
      let answers : HasAnswer sys a fd body after = record {
        before = h;
        written = client_at a _ (set_client a h s.1.clients);
        unsent_yet = refl;
        none_sent = refl;
        fine = refl;
        own_socket = refl;
        place = o;
        at_place = at_a;
        place_socket = own_fd;
        held = (added_track sys cut k2 fd write_mask helper_sock (writes a) room).1;
        tracked =
            add_track-IsTracked sys laws cut fd write_mask helper_sock (writes a)
              (remove_track-IsTracked sys laws s.0 fd tracked);
        running = running;
      } in
      (
        subst (λ (q : State K P). HasAnswer sys a fd body q) (sym done) answers,
        ap (λ (q : State K P). q.1.world) done,
        ap (λ (q : State K P). q.1.system) done,
        ap (λ (q : State K P). q.1.served) done,
      )
