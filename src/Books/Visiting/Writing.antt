-- ===== src/Books/Visiting/Writing.antt =====
-- The callback of `client->write` in example/server.cpp, for a client whose answer is registered.
use asynchronous_http_web_se.Base.{
  ℕ, suc, ◌≡◌, sym, ap, subst, ◌∙◌, inl, inr, false, [], ◌∷◌, ◌++◌, Option, none, some, ℤ, int_key,
  Bytes, length,
}
use asynchronous_http_web_se.SafeMap.{get}
use asynchronous_http_web_se.Epoll.{Epoll, EpollLaws, EpollEvent, epollout}
use asynchronous_http_web_se.SocketIo.{FitsOffer}
use asynchronous_http_web_se.Reactor.{Tracker}
use asynchronous_http_web_se.Reactor.Tracking.{IsTracked}
use asynchronous_http_web_se.Http.{Llhttp}
use asynchronous_http_web_se.Calls.{sent_by, perform}
use asynchronous_http_web_se.Client.{ClientConnection}
use asynchronous_http_web_se.Client.Handler as ClientHandler
use asynchronous_http_web_se.Client.Handler.Once.{handle_event-socket, handle_event_once}
use asynchronous_http_web_se.Registry.{World, ClientObject}
use asynchronous_http_web_se.Sockets.{close_fd}
use asynchronous_http_web_se.Books.{Closure, writes, JsonLib, Env, State, set_client}
use asynchronous_http_web_se.Books.Text.{response_text}
use asynchronous_http_web_se.Http.Reading.{read_response}
use asynchronous_http_web_se.Books.Answering.{client_at}
use asynchronous_http_web_se.Books.Serving.{invoke}
use asynchronous_http_web_se.Books.Visiting.Reading.{invoke-writes, deleted_client}
use asynchronous_http_web_se.Books.Visiting.Sending.{Takes, answer_is_sent}

module _ {K P : Type 0} (sys : Epoll K) where
  -- The client at `a` has the response with this body to write to the socket `fd`.
  pub record HasAnswer (a : ℕ) (fd : ℤ) (body : Bytes) (s : State K P) : Type 0 where
    pub before : ClientConnection P
    pub written :
        s.1.clients a ≡ record before { send_buffer = before.send_buffer ++ response_text body }
    pub unsent_yet : before.send_buffer ≡ []
    pub none_sent : before.sent_bytes ≡ 0
    pub fine : before.is_error ≡ false
    pub own_socket : before.socket ≡ fd
    pub place : ClientObject
    pub at_place : s.1.world.objects a ≡ some place
    pub place_socket : place.socket ≡ fd
    pub held : get fd s.0.event_callback ≡ some (writes a)
    pub tracked : IsTracked sys s.0
    pub running : s.1.crashed ≡ false

  -- What is left of a client after its answer, given the program before.
  abbrev pub HasLeft : ℕ → ℤ → State K P → State K P → Type 0
  HasLeft a fd s end =
      (end.1.world.objects a ≡ none)
      × (end.1.world.closed ≡ fd ∷ s.1.world.closed)
      × (end.1.system.open_fds ≡ close_fd fd s.1.system.open_fds)
      × (get fd end.0.event_callback ≡ none)
      × (end.1.crashed ≡ false)

module _ {K P J : Type 0} (sys : Epoll K) (laws : EpollLaws sys) (parser_lib : Llhttp P)
    (json : JsonLib J) (allocate : World → Option ℕ) (answer : ℕ → ℤ × ℤ) (env : ℕ → Env) where
  -- An event that writes all of the answer.
  pub invoke-HasAnswer :
      (a : ℕ) (fd : ℤ) (body : Bytes) (s : State K P)
      → HasAnswer sys a fd body s
      → let e = env s.1.served in
        FitsOffer (length (response_text body)) 0 e.outbound
        → Takes (length (response_text body)) e.outbound
        → let ev : EpollEvent = record { events = epollout; fd = fd } in
          let r = ClientHandler.handle_event parser_lib ev e.inbound e.outbound (s.1.clients a) in
          (read_response (sent_by r.1) ≡ some (body, []))
          × HasLeft sys a fd s (invoke sys parser_lib json allocate answer env (writes a) ev s)
  invoke-HasAnswer a fd body s h fits takes =
      let e = env s.1.served in
      let ev : EpollEvent = record { events = epollout; fd = fd } in
      let r = ClientHandler.handle_event parser_lib ev e.inbound e.outbound (s.1.clients a) in
      let sent =
        answer_is_sent parser_lib fd e.inbound e.outbound (s.1.clients a) h.before body h.written
          h.unsent_yet h.none_sent h.fine fits takes in
      let done =
        invoke-writes sys parser_lib json allocate answer env ev s a h.place h.running h.at_place
          sent.0 in
      let t = perform sys (writes a) r.1 s.0 in
      let left =
        deleted_client a t
          (record s.1 { clients = set_client a r.0 s.1.clients; served = suc s.1.served }) h.place
          h.at_place in
      let own : (s.1.clients a).socket ≡ fd =
        ap (λ (c : ClientConnection P). c.socket) h.written ∙ h.own_socket in
      let own_after : (set_client a r.0 s.1.clients a).socket ≡ fd =
        ap (λ (c : ClientConnection P). c.socket) (client_at a r.0 s.1.clients)
        ∙ handle_event-socket parser_lib ev e.inbound e.outbound (s.1.clients a)
        ∙ own in
      let off : get fd t.event_callback ≡ none =
        elim (handle_event_once parser_lib sys (writes a) s.0 ev e.inbound e.outbound
          (s.1.clients a) laws h.tracked) [
            | inl (quiet, same) ↦ absurd (sent.0 quiet)
            | inr (once, cut_off, gone) ↦ subst (λ (j : ℤ). get j t.event_callback ≡ none) own gone
          ] in
      (
        sent.1,
        subst (λ (q : State K P). HasLeft sys a fd s q) (sym done)
            (
              left.1,
              left.2 ∙ ap (λ (j : ℤ). j ∷ s.1.world.closed) h.place_socket,
              left.4 ∙ ap (λ (j : ℤ). close_fd j s.1.system.open_fds) own_after,
              ap (λ (u : Tracker K Closure). get fd u.event_callback) left.0 ∙ off,
              left.3 ∙ h.running,
            ),
      )
