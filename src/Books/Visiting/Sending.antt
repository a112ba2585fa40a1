-- ===== src/Books/Visiting/Sending.antt =====
-- The answer of example/server.cpp, written in one event by any number of `send` calls.
use asynchronous_http_web_se.Base.{
  ℕ, ◌+◌, ◌-◌, ◌≤◌, ◌<◌, ◌≡◌, ◌≢◌, refl, sym, ap, subst, ◌∙◌, false, [], ◌∷◌, ◌++◌, some, ℤ, Bytes,
  length, ltb, leb, ◌==◌, arith, if_cases,
}
use asynchronous_http_web_se.Epoll.{has, epollout}
use asynchronous_http_web_se.SocketIo.{
  Inbound, closed, Outbound, took, would_block, send_failed, FitsOffer,
}
use asynchronous_http_web_se.Http.{Llhttp}
use asynchronous_http_web_se.Calls.{callbacks, sent_by}
use asynchronous_http_web_se.Client.{ClientConnection}
use asynchronous_http_web_se.Client.Handler.{Handled, handle_event, send_loop}
use asynchronous_http_web_se.Client.Handler.Sending.{write_events, handle_event-writable, writable}
use asynchronous_http_web_se.Books.Text.{response_text}
use asynchronous_http_web_se.Http.Reading.{read_response}
use asynchronous_http_web_se.Books.Answering.{written_is_read}

-- The `send` calls take `left` bytes, in any number of pieces.
abbrev pub Takes : ℕ → Outbound → Type 0
Takes left (took n rest) = (0 < n) × (n ≤ left) × (n ≢ left → Takes (left - n) rest)
Takes left would_block = ⊥
Takes left send_failed = ⊥

module _ {P : Type 0} where
  send_loop-Takes :
      (out : Outbound) (left : ℕ) (conn : ClientConnection P)
      → conn.sent_bytes + left ≡ length conn.send_buffer
      → Takes left out
      → (callbacks (send_loop out conn).1 ≡ 1) × ((send_loop out conn).0.is_error ≡ conn.is_error)
  unfolding send_loop
  send_loop-Takes (took n rest) left conn room (some_bytes, within, more) =
      let conn' = record conn { sent_bytes = conn.sent_bytes + n } in
      let Q = λ (r : Handled P). (callbacks r.1 ≡ 1) × (r.0.is_error ≡ conn.is_error) in
      if_cases Q (ltb 0 n) _ _
        (λ _.
          if_cases Q (leb (length conn.send_buffer) (conn.sent_bytes + n)) _ _ (λ _. (refl, refl))
            (λ not_yet.
              send_loop-Takes rest (left - n) conn' (ground (arith, room, within))
                (more (λ all. absurd (ground (arith, all, room, not_yet))))))
        (λ nothing. absurd (ground (arith, some_bytes, nothing)))
  send_loop-Takes would_block left conn room h = absurd h
  send_loop-Takes send_failed left conn room h = absurd h

  write_events_one :
      (parser_lib : Llhttp P) (out : Outbound) (conn : ClientConnection P)
      → callbacks (send_loop out conn).1 ≢ 0
      → write_events parser_lib (out ∷ []) conn ≡ send_loop out conn
  unfolding write_events
  write_events_one parser_lib out conn called =
      let r = handle_event parser_lib (writable parser_lib conn) closed out conn in
      let looped = handle_event-writable parser_lib out conn in
      if_cases (λ (q : Handled P). q ≡ send_loop out conn) (callbacks r.1 == 0) _ _
        (λ quiet.
          absurd
            (called (subst (λ (q : Handled P). callbacks q.1 ≡ 0) looped (ground (arith, quiet)))))
        (λ _. looped)

  -- Where a client has a response of the program to write, and the socket takes it, the callback runs
  -- and the bytes that went out are that response.
  pub answer_is_sent :
      (parser_lib : Llhttp P) (fd : ℤ) (inbound : Inbound) (out : Outbound)
      (client before : ClientConnection P) (body : Bytes)
      → client ≡ record before { send_buffer = before.send_buffer ++ response_text body }
      → before.send_buffer ≡ []
      → before.sent_bytes ≡ 0
      → before.is_error ≡ false
      → FitsOffer (length (response_text body)) 0 out
      → Takes (length (response_text body)) out
      → let r =
          handle_event parser_lib (record { events = epollout; fd = fd }) inbound out client in
        (callbacks r.1 ≢ 0) × (read_response (sent_by r.1) ≡ some (body, []))
  answer_is_sent parser_lib fd inbound out client before body written unsent_yet none_sent fine fits
        takes =
      let r = handle_event parser_lib (record { events = epollout; fd = fd }) inbound out client in
      let looped : r ≡ send_loop out client = unfold handle_event has in refl in
      let events = write_events parser_lib (out ∷ []) client in
      let buffer : client.send_buffer ≡ response_text body =
        ap (λ (c : ClientConnection P). c.send_buffer) written
        ∙ ap (λ (b : Bytes). b ++ response_text body) unsent_yet in
      let from_start : client.sent_bytes ≡ 0 =
        ap (λ (c : ClientConnection P). c.sent_bytes) written ∙ none_sent in
      let ends =
        send_loop-Takes out (length (response_text body)) client
          (omega (arith, from_start, ap (λ (b : Bytes). length b) buffer)) takes in
      let one_event : events ≡ send_loop out client =
        write_events_one parser_lib out client (λ quiet. absurd (omega (arith, ends.0, quiet))) in
      let no_error : events.0.is_error ≡ false =
        ap (λ (q : Handled P). q.0.is_error) one_event
        ∙ ends.1
        ∙ ap (λ (c : ClientConnection P). c.is_error) written
        ∙ fine in
      let all_sent =
        written_is_read parser_lib client before body (out ∷ []) written unsent_yet none_sent
          (
            subst (λ (b : Bytes). FitsOffer (length b) client.sent_bytes out) (sym buffer)
                (subst (λ (n : ℕ). FitsOffer (length (response_text body)) n out) (sym from_start)
                  fits),
            tt,
          )
          (subst (λ (q : Handled P). callbacks q.1 ≢ 0) (sym one_event)
            (λ quiet. absurd (omega (arith, ends.0, quiet))))
          no_error in
      (
        subst (λ (q : Handled P). callbacks q.1 ≢ 0) (sym looped)
            (λ quiet. absurd (omega (arith, ends.0, quiet))),
        subst (λ (q : Handled P). read_response (sent_by q.1) ≡ some (body, []))
            (one_event ∙ sym looped) all_sent,
      )
