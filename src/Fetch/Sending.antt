-- ===== src/Fetch/Sending.antt =====
-- What example/client.cpp puts on the wire: its request.
use asynchronous_http_web_se.Base.{
  ℕ, ◌==◌, ◌≡◌, refl, ap, ◌∙◌, false, List, [], ◌∷◌, ◌++◌, append_assoc, Bytes, drop, if_cases,
  if◌then◌else◌,
}
use asynchronous_http_web_se.Epoll.{Epoll, EpollEvent}
use asynchronous_http_web_se.SocketIo.{Inbound, Outbound}
use asynchronous_http_web_se.Http.{Llhttp}
use asynchronous_http_web_se.Calls.{sent_by, callbacks}
use asynchronous_http_web_se.Calls.Append.{sent_by-append}
use asynchronous_http_web_se.Api.{ApiConnection, api_sending}
use asynchronous_http_web_se.Api.Handler.{Handled, handle_event, send_request}
use asynchronous_http_web_se.Api.Handler.Machine.{unsent, handle_event-Advance}
use asynchronous_http_web_se.Fetch.{State, print, after_method, on_connected, request_text}

module _ {P : Type 0} (parser_lib : Llhttp P) where
  -- The events of one request up to its callback, each with what the socket calls give.
  unfoldable pub request_events :
      List (EpollEvent × Inbound × Outbound) → ApiConnection P → Handled P
  request_events [] conn = (conn, [])
  request_events ((ev, inbound, outbound) ∷ more) conn =
      let r = handle_event parser_lib ev inbound outbound conn in
      let later = request_events more r.0 in
      if callbacks r.1 == 0 then (later.0, r.1 ++ later.1) else r

  request_events-in_order :
      (events : List (EpollEvent × Inbound × Outbound)) (conn : ApiConnection P)
      → sent_by (request_events events conn).1 ++ unsent (request_events events conn).0
        ≡ unsent conn
  unfolding request_events
  request_events-in_order [] conn = refl
  request_events-in_order ((ev, inbound, outbound) ∷ more) conn =
      let r = handle_event parser_lib ev inbound outbound conn in
      let later = request_events more r.0 in
      let first = (handle_event-Advance parser_lib ev inbound outbound conn).in_order in
      if_cases (λ (h : Handled P). sent_by h.1 ++ unsent h.0 ≡ unsent conn) (callbacks r.1 == 0) _ _
        (λ _.
          ap (λ (b : Bytes). b ++ unsent later.0) (sent_by-append r.1 later.1)
          ∙ append_assoc (sent_by r.1) (sent_by later.1) (unsent later.0)
          ∙ ap (◌++◌ (sent_by r.1)) (request_events-in_order more r.0)
          ∙ first)
        (λ _. first)

  -- Once the connection is established, with nothing in its buffer: over any further events, and
  -- however the `send` calls cut the request up, the bytes that have gone out and then those that are
  -- left are the request of the program, and the state before the first of them is that of sending.
  pub request_is_sent :
      {K : Type 0} (sys : Epoll K) (s : State K P) (events : List (EpollEvent × Inbound × Outbound))
      → s.1.conn.is_error ≡ false
      → s.1.conn.send_buffer ≡ []
      → s.1.conn.sent_bytes ≡ 0
      → let conn = (on_connected sys s).1.conn in
        let r = request_events events conn in
        (conn.state ≡ api_sending) × (sent_by r.1 ++ unsent r.0 ≡ request_text)
  unfolding on_connected print after_method send_request
  request_is_sent sys (t, f) events fine empty_buffer none_sent =
      let conn = (on_connected sys (t, f)).1.conn in
      let buffer : conn.send_buffer ≡ request_text =
        rw fine (ap (λ (b : Bytes). b ++ request_text) empty_buffer) in
      let offset : conn.sent_bytes ≡ 0 = rw fine none_sent in
      (
        rw fine refl,
        request_events-in_order events conn
            ∙ ap (λ (k : ℕ). drop k conn.send_buffer) offset
            ∙ buffer,
      )
