-- ===== src/Client/Handler/Sending.antt =====
-- What goes out of a response over any number of EPOLLOUT events.
use asynchronous_http_web_se.Base.{
  ℕ, ◌+◌, ◌≤◌, ◌≡◌, refl, sym, ap, ◌∙◌, ◌⊎◌, inl, inr, true, List, [], ◌∷◌, ◌++◌, append_assoc,
  append-nil, arith, Bytes, ltb, leb, ◌==◌, length, take, drop, drop-drop, drop-length,
  take-append-drop, if_cases, if◌then◌else◌,
}
use asynchronous_http_web_se.Epoll.{EpollEvent, has, epollout}
use asynchronous_http_web_se.Http.{Llhttp}
use asynchronous_http_web_se.SocketIo.{closed, Outbound, took, would_block, send_failed, FitsOffer}
use asynchronous_http_web_se.Calls.{sent_by, callbacks}
use asynchronous_http_web_se.Calls.Append.{sent_by-append, callbacks-append}
use asynchronous_http_web_se.Client.{ClientConnection}
use asynchronous_http_web_se.Client.Handler.{Handled, send_loop, handle_event}

take-drop-drop : (n k : ℕ) (xs : Bytes) → take n (drop k xs) ++ drop (k + n) xs ≡ drop k xs
take-drop-drop n k xs =
    ap (◌++◌ (take n (drop k xs))) (sym (drop-drop n k xs)) ∙ take-append-drop n (drop k xs)

module _ {P : Type 0} where
  -- What is left to send.
  abbrev pub unsent : ClientConnection P → Bytes
  unsent conn = drop conn.sent_bytes conn.send_buffer

  -- What a run of the handler did with the response: what it sent and what is left make up what was
  -- to be sent; the next `send` starts within the buffer; and a callback with no error comes with
  -- nothing left.
  pub record Progress (conn : ClientConnection P) (r : Handled P) : Type 0 where
    pub in_order : sent_by r.1 ++ unsent r.0 ≡ unsent conn
    pub within : r.0.sent_bytes ≤ length r.0.send_buffer
    pub at_end : (callbacks r.1 ≡ 0) ⊎ ((r.0.is_error ≡ true) ⊎ (unsent r.0 ≡ []))

  send_loop-Progress :
      (out : Outbound) (conn : ClientConnection P)
      → FitsOffer (length conn.send_buffer) conn.sent_bytes out
      → conn.sent_bytes ≤ length conn.send_buffer
      → Progress conn (send_loop out conn)
  unfolding send_loop
  send_loop-Progress (took n rest) conn fits room =
      if_cases (Progress conn) (ltb 0 n) _ _
        (λ _.
          if_cases (Progress conn) (leb (length conn.send_buffer) (conn.sent_bytes + n)) _ _
            (λ done. record {
              in_order =
                  ap (◌++◌ (take n (drop conn.sent_bytes conn.send_buffer) ++ []))
                    (sym (drop-length (conn.sent_bytes + n) conn.send_buffer (ground arith)))
                  ∙ ap (λ (front : Bytes). front ++ drop (conn.sent_bytes + n) conn.send_buffer)
                      (append-nil _)
                  ∙ take-drop-drop n conn.sent_bytes conn.send_buffer;
              within = omega arith;
              at_end = inr (inr refl);
            })
            (λ _.
              let conn' = record conn { sent_bytes = conn.sent_bytes + n } in
              let later = send_loop-Progress rest conn' fits.1 (omega arith) in
              record {
                in_order =
                    append_assoc (take n (drop conn.sent_bytes conn.send_buffer))
                      (sent_by (send_loop rest conn').1) (unsent (send_loop rest conn').0)
                    ∙ ap (◌++◌ (take n (drop conn.sent_bytes conn.send_buffer))) later.in_order
                    ∙ take-drop-drop n conn.sent_bytes conn.send_buffer;
                within = later.within;
                at_end = later.at_end;
              }))
        (λ _. record { in_order = refl; within = room; at_end = inl refl })
  send_loop-Progress would_block conn fits room = record {
    in_order = refl;
    within = room;
    at_end = inl refl;
  }
  send_loop-Progress send_failed conn fits room = record {
    in_order = refl;
    within = room;
    at_end = inr (inl refl);
  }

module _ {P : Type 0} (parser_lib : Llhttp P) where
  -- The socket reports that it can be written to.
  abbrev pub writable : ClientConnection P → EpollEvent
  writable conn = record { events = epollout; fd = conn.socket }

  -- The events from a `write` to its callback, each with what the `send` calls give.
  unfoldable pub write_events : List Outbound → ClientConnection P → Handled P
  write_events [] conn = (conn, [])
  write_events (out ∷ outs) conn =
      let r = handle_event parser_lib (writable conn) closed out conn in
      let later = write_events outs r.0 in
      if callbacks r.1 == 0 then (later.0, r.1 ++ later.1) else r

  -- The `send` calls keep to their contract at each of these events.
  abbrev pub FitAll : List Outbound → ClientConnection P → Type 0
  FitAll [] conn = Unit {0}
  FitAll (out ∷ outs) conn =
      FitsOffer (length conn.send_buffer) conn.sent_bytes out
      × FitAll outs (handle_event parser_lib (writable conn) closed out conn).0

  pub handle_event-writable :
      (out : Outbound) (conn : ClientConnection P)
      → handle_event parser_lib (writable conn) closed out conn ≡ send_loop out conn
  unfolding handle_event has
  handle_event-writable out conn = refl

  write_events-Progress :
      (outs : List Outbound) (conn : ClientConnection P)
      → FitAll outs conn
      → conn.sent_bytes ≤ length conn.send_buffer
      → Progress conn (write_events outs conn)
  unfolding write_events
  write_events-Progress [] conn h room = record {
    in_order = refl;
    within = room;
    at_end = inl refl;
  }
  write_events-Progress (out ∷ outs) conn h room =
      let r = handle_event parser_lib (writable conn) closed out conn in
      let first : Progress conn r =
        rw (handle_event-writable out conn) (send_loop-Progress out conn h.0 room) in
      let later = write_events-Progress outs r.0 h.1 first.within in
      if_cases (Progress conn) (callbacks r.1 == 0) _ _
        (λ e. record {
          in_order = rw (sent_by-append r.1 (write_events outs r.0).1) (
              append_assoc (sent_by r.1) _ _
              ∙ ap (◌++◌ (sent_by r.1)) later.in_order
              ∙ first.in_order);
          within = later.within;
          at_end = ground (arith, callbacks-append r.1 (write_events outs r.0).1, later.at_end);
        })
        (λ _. first)

  -- From a `write` on, however the `send` calls cut the response up: the bytes that went out, and
  -- then the bytes that are left, are the response; `sent_bytes` never passes the size of the
  -- buffer; and when the callback has run with no error, no bytes are left.
  pub write_events_send_response :
      (outs : List Outbound) (conn : ClientConnection P)
      → conn.sent_bytes ≡ 0
      → FitAll outs conn
      → let r = write_events outs conn in
        (sent_by r.1 ++ unsent r.0 ≡ conn.send_buffer)
        × (r.0.sent_bytes ≤ length r.0.send_buffer)
        × ((callbacks r.1 ≡ 0) ⊎ ((r.0.is_error ≡ true) ⊎ (unsent r.0 ≡ [])))
  write_events_send_response outs conn e h =
      let done = write_events-Progress outs conn h (omega arith) in
      (done.in_order ∙ ap (λ k. drop k conn.send_buffer) e, done.within, done.at_end)
