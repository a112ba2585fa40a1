-- ===== src/Books/Visiting/Answered.antt =====
-- A whole visit to example/server.cpp under the loop of the reactor: `onHttpRequest`, then the
-- callbacks of `client->read` and `client->write`.
use asynchronous_http_web_se.Base.{
  ℕ, suc, ◌≡◌, refl, sym, ap, subst, ◌∙◌, true, false, List, [], ◌∷◌, Option, none, some, ℤ,
  minus_one, int_key, int_eq_iff, ◌=?◌, Bytes, length, text,
}
use asynchronous_http_web_se.SafeMap.{get}
use asynchronous_http_web_se.Epoll.{
  Epoll, EpollLaws, EpollEvent, has, epollin, epollout, epollerr, read_mask, write_mask,
  remove_epoll_interest,
}
use asynchronous_http_web_se.SocketIo.{Inbound, FitsOffer}
use asynchronous_http_web_se.Reactor.{new_sock, reactor_run}
use asynchronous_http_web_se.Reactor.Dispatch.{one_by_one, served, event, reactor_run-Serves}
use asynchronous_http_web_se.Reactor.Tracking.{IsTracked, add_track-IsTracked}
use asynchronous_http_web_se.Http.{Llhttp, ParserCall}
use asynchronous_http_web_se.Calls.{sent_by}
use asynchronous_http_web_se.Client.{new_client}
use asynchronous_http_web_se.Client.Handler as ClientHandler
use asynchronous_http_web_se.Client.Handler.{complete}
use asynchronous_http_web_se.Client.Handler.Reading.{Arrives, pieces}
use asynchronous_http_web_se.Client.Message.{Message, MessageCalls, request_of}
use asynchronous_http_web_se.Registry.{World, ClientObject, create}
use asynchronous_http_web_se.Sockets.{System, accept_connection, close_fd}
use asynchronous_http_web_se.Books.{accepts, reads, writes, JsonLib, Env, State}
use asynchronous_http_web_se.Books.Text.{response_text}
use asynchronous_http_web_se.Http.Reading.{read_response}
use asynchronous_http_web_se.Books.Answering.{page_body, client_at}
use asynchronous_http_web_se.Books.Visiting.{after_accept, invoke-accepts, put_same}
use asynchronous_http_web_se.Books.Visiting.Sending.{Takes}
use asynchronous_http_web_se.Books.Visiting.Writing.{HasLeft, invoke-HasAnswer}
use asynchronous_http_web_se.Books.Visiting.Asking.{added_track, serves, invoke-HasRequest}

close_fd_opened : (fd : ℤ) (fds : List ℤ) → close_fd fd (fd ∷ fds) ≡ fds
unfolding close_fd
close_fd_opened fd fds = let self : (fd =? fd) ≡ true = (int_eq_iff fd fd).1 refl in rw self refl

module _ {K P J : Type 0} (sys : Epoll K) (laws : EpollLaws sys) (parser_lib : Llhttp P)
    (json : JsonLib J) (allocate : World → Option ℕ) (answer : ℕ → ℤ × ℤ) (env : ℕ → Env) where
  -- Where the listening socket gives a connection of a known family, epoll takes both of its registrations, its
  -- request is one for `/` that comes in any number of `recv` calls, and there is then room for the
  -- response in any number of `send` calls: the bytes sent are one complete response whose body is
  -- that of the page, and after these three events the client is deleted, its socket has been closed
  -- once more, the open descriptors are those from before, the reactor has no callback for the
  -- socket, and the program is running.
  pub visit_is_answered :
      {m : Message} {more : List Bytes} {cs : List ParserCall} (s : State K P) (fd : ℤ) (a : ℕ)
      (accept_ev read_ev : EpollEvent) (rest : Inbound) (body : Bytes) (k1 k2 : K)
      → IsTracked sys s.0
      → s.1.crashed ≡ false
      → get accept_ev.fd s.0.event_callback ≡ some accepts
      → has accept_ev.events epollerr ≡ false
      → has accept_ev.events epollin ≡ true
      → accept_connection (env s.1.served).accepting s.1.system
        ≡ (fd, record s.1.system { open_fds = fd ∷ s.1.system.open_fds })
      → (fd =? minus_one) ≡ false
      → allocate s.1.world ≡ some a
      → sys.ctl_add s.0.epoll (record { events = read_mask; fd = fd }) ≡ some k1
      → read_ev.fd ≡ fd
      → has read_ev.events epollerr ≡ false
      → has read_ev.events epollin ≡ true
      → (env (suc s.1.served)).inbound ≡ pieces more rest
      → MessageCalls m cs
      → Arrives parser_lib parser_lib.start more cs
      → (request_of m).url ≡ text "/"
      → page_body json (request_of m).body ≡ some body
      → sys.ctl_add (remove_epoll_interest sys k1 fd).0 (record { events = write_mask; fd = fd })
        ≡ some k2
      → FitsOffer (length (response_text body)) 0 (env (suc (suc s.1.served))).outbound
      → Takes (length (response_text body)) (env (suc (suc s.1.served))).outbound
      → let write_ev : EpollEvent = record { events = epollout; fd = fd } in
        let e = env (suc (suc s.1.served)) in
        let to_write =
          (reactor_run
            (serves sys parser_lib json allocate answer env)
            (one_by_one (accept_ev ∷ read_ev ∷ []))
            []
            s).0 in
        let at_end =
          (reactor_run
            (serves sys parser_lib json allocate answer env)
            (one_by_one (accept_ev ∷ read_ev ∷ write_ev ∷ []))
            []
            s).0 in
        let r =
          ClientHandler.handle_event parser_lib write_ev e.inbound e.outbound
            (to_write.1.clients a) in
        (read_response (sent_by r.1) ≡ some (body, []))
        × (at_end.1.world.objects a ≡ none)
        × (at_end.1.world.closed ≡ fd ∷ s.1.world.closed)
        × (at_end.1.system.open_fds ≡ s.1.system.open_fds)
        × (get fd at_end.0.event_callback ≡ none)
        × (at_end.1.crashed ≡ false)
  unfolding create new_client
  visit_is_answered {m} {more} s fd a accept_ev read_ev rest body k1 k2 tracked running listening
        no_err readable accepted valid given added1 from_client no_err1 readable1 comes calls
        arrives root page added2 fits takes =
      let runs = serves sys parser_lib json allocate answer env in
      let write_ev : EpollEvent = record { events = epollout; fd = fd } in
      let uuid = (env s.1.served).uuid in
      let o : ClientObject = record { connection_id = uuid; socket = fd } in
      let s1 : State K P = after_accept sys parser_lib json allocate answer env fd a s in
      let first =
        invoke-accepts sys parser_lib json allocate answer env accept_ev s fd a running no_err
          readable (ap (λ (r : ℤ × System). r.0) accepted) valid given in
      let reg = added_track sys s.0 k1 fd read_mask new_sock (reads a) added1 in
      let room =
        subst
          (λ (k : K).
            sys.ctl_add (remove_epoll_interest sys k fd).0 (record { events = write_mask; fd = fd })
            ≡ some k2)
          (sym reg.0) added2 in
      let (asked, same_world, same_system, next_served) =
        invoke-HasRequest sys laws parser_lib json allocate answer env s1 fd a uuid read_ev rest
          body o k2 (add_track-IsTracked sys laws s.0 fd read_mask new_sock (reads a) tracked)
          running (put_same a (some o) s.1.world) refl
          (client_at a (new_client parser_lib fd uuid) s.1.clients) no_err1 readable1 comes calls
          arrives root page room in
      let s2 : State K P = runs (reads a) read_ev s1 in
      let ends =
        invoke-HasAnswer sys laws parser_lib json allocate answer env a fd body s2 asked
          (subst (λ (n : ℕ). FitsOffer (length (response_text body)) 0 (env n).outbound)
            (sym next_served) fits)
          (subst (λ (n : ℕ). Takes (length (response_text body)) (env n).outbound) (sym next_served)
            takes) in
      let held =
        subst (λ (j : ℤ). get j s1.0.event_callback ≡ some (reads a)) (sym from_client) reg.1 in
      let to_write =
        reactor_run-Serves runs
          (event accepts listening first (event (reads a) held refl served)) in
      let at_end = reactor_run-Serves runs (
        event accepts listening first
          (event (reads a) held refl (event (writes a) asked.held refl served))) in
      let Sent : ℕ → State K P → Type 0 = λ n q.
        let e = env n in
        let r =
          ClientHandler.handle_event parser_lib write_ev e.inbound e.outbound (q.1.clients a) in
        read_response (sent_by r.1) ≡ some (body, []) in
      let (no_object, closed_once, fds, off, goes_on) =
        subst (λ (q : State K P). HasLeft sys a fd s2 q) (sym at_end) ends.1 in
      (
        subst (λ (q : State K P). Sent (suc (suc s.1.served)) q) (sym to_write)
            (subst (λ (n : ℕ). Sent n s2) next_served ends.0),
        no_object,
        closed_once ∙ ap (λ (w : World). fd ∷ w.closed) same_world,
        fds
            ∙ ap (λ (u : System). close_fd fd u.open_fds) same_system
            ∙ ap (λ (r : ℤ × System). close_fd fd r.1.open_fds) accepted
            ∙ close_fd_opened fd s.1.system.open_fds,
        off,
        goes_on,
      )
