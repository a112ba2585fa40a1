-- ===== src/Client/Handler/Completing.antt =====
-- When a `write` gets to its callback, and when it never does.
use asynchronous_http_web_se.Base.{
  ℕ, ◌+◌, ◌≤◌, ◌<◌, ◌≡◌, refl, ap, subst, ◌∙◌, ◌⊎◌, inl, inr, false, List, [], ◌∷◌, ◌++◌, arith,
  ltb, leb, ◌==◌, length, if_cases, if◌then◌else◌,
}
use asynchronous_http_web_se.Http.{Llhttp}
use asynchronous_http_web_se.SocketIo.{closed, Outbound, took, would_block, send_failed, FitsOffer}
use asynchronous_http_web_se.Calls.{callbacks}
use asynchronous_http_web_se.Calls.Append.{callbacks-append}
use asynchronous_http_web_se.Client.{ClientConnection}
use asynchronous_http_web_se.Client.Handler.{Handled, send_loop, handle_event}
use asynchronous_http_web_se.Client.Handler.Sending.{
  unsent, writable, write_events, FitAll, handle_event-writable,
}

-- No `send` fails with an error but EAGAIN.
abbrev pub NoFailure : Outbound → Type 0
NoFailure (took n rest) = NoFailure rest
NoFailure would_block = Unit {0}
NoFailure send_failed = ⊥

-- The first `send` of the event takes at least one byte, and none fails.
abbrev pub TakesSome : Outbound → Type 0
TakesSome (took n rest) = (0 < n) × NoFailure rest
TakesSome would_block = ⊥
TakesSome send_failed = ⊥

abbrev pub AllTakeSome : List Outbound → Type 0
AllTakeSome [] = Unit {0}
AllTakeSome (out ∷ outs) = TakesSome out × AllTakeSome outs

abbrev pub NoFailures : List Outbound → Type 0
NoFailures [] = Unit {0}
NoFailures (out ∷ outs) = NoFailure out × NoFailures outs

module _ {P : Type 0} where
  -- The write is complete; or it goes on, `more` bytes further at least.
  abbrev Ends : ClientConnection P → Handled P → Type 0
  Ends conn r = (callbacks r.1 ≡ 1) × (r.0.is_error ≡ conn.is_error) × (unsent r.0 ≡ [])

  abbrev GoesOn : ℕ → ClientConnection P → Handled P → Type 0
  GoesOn more conn r =
      (callbacks r.1 ≡ 0)
      × (r.0.is_error ≡ conn.is_error)
      × (r.0.send_buffer ≡ conn.send_buffer)
      × (conn.sent_bytes + more ≤ r.0.sent_bytes)
      × (r.0.sent_bytes < length conn.send_buffer)

  send_loop-NoFailure :
      (out : Outbound) (conn : ClientConnection P)
      → NoFailure out
      → conn.sent_bytes < length conn.send_buffer
      → Ends conn (send_loop out conn) ⊎ GoesOn 0 conn (send_loop out conn)
  unfolding send_loop
  send_loop-NoFailure (took n rest) conn h room =
      let Good = λ (r : Handled P). Ends conn r ⊎ GoesOn 0 conn r in
      let conn' = record conn { sent_bytes = conn.sent_bytes + n } in
      if_cases Good (ltb 0 n) _ _
        (λ _.
          if_cases Good (leb (length conn.send_buffer) (conn.sent_bytes + n)) _ _
            (λ _. inl (refl, refl, refl))
            (λ e. elim (send_loop-NoFailure rest conn' h (ground arith)) [
              | inl ended ↦ inl ended
              | inr (none_yet, same, buffer, further, within) ↦
                  inr (none_yet, same, buffer, omega arith, within)
            ]))
        (λ _. inr (refl, refl, refl, omega arith, room))
  send_loop-NoFailure would_block conn h room = inr (refl, refl, refl, omega arith, room)
  send_loop-NoFailure send_failed conn h room = elim h [ ]

  send_loop-TakesSome :
      (out : Outbound) (conn : ClientConnection P)
      → TakesSome out
      → conn.sent_bytes < length conn.send_buffer
      → Ends conn (send_loop out conn) ⊎ GoesOn 1 conn (send_loop out conn)
  unfolding send_loop
  send_loop-TakesSome (took n rest) conn h room =
      let Good = λ (r : Handled P). Ends conn r ⊎ GoesOn 1 conn r in
      let conn' = record conn { sent_bytes = conn.sent_bytes + n } in
      if_cases Good (ltb 0 n) _ _
        (λ _.
          if_cases Good (leb (length conn.send_buffer) (conn.sent_bytes + n)) _ _
            (λ _. inl (refl, refl, refl))
            (λ e. elim (send_loop-NoFailure rest conn' h.1 (ground arith)) [
              | inl ended ↦ inl ended
              | inr (none_yet, same, buffer, further, within) ↦
                  inr (none_yet, same, buffer, omega arith, within)
            ]))
        (λ e. absurd (ground arith))
  send_loop-TakesSome would_block conn h room = elim h [ ]
  send_loop-TakesSome send_failed conn h room = elim h [ ]

  send_loop-empty :
      (out : Outbound) (conn : ClientConnection P)
      → NoFailure out
      → FitsOffer (length conn.send_buffer) conn.sent_bytes out
      → length conn.send_buffer ≡ 0
      → send_loop out conn ≡ (conn, [])
  unfolding send_loop
  send_loop-empty (took n rest) conn h fits e =
      let nothing : ltb 0 n ≡ false = ground (arith, fits.0) in rw nothing refl
  send_loop-empty would_block conn h fits e = refl
  send_loop-empty send_failed conn h fits e = elim h [ ]

module _ {P : Type 0} (parser_lib : Llhttp P) where
  -- A response that is not empty is written completely, and the callback runs once and without a new
  -- error, where no `send` fails, each event lets at least one byte out, and there are as many
  -- events as bytes are left.
  pub write_events_complete :
      (outs : List Outbound) (conn : ClientConnection P)
      → AllTakeSome outs
      → conn.sent_bytes < length conn.send_buffer
      → length conn.send_buffer ≤ conn.sent_bytes + length outs
      → let r = write_events parser_lib outs conn in
        (callbacks r.1 ≡ 1) × (r.0.is_error ≡ conn.is_error) × (unsent r.0 ≡ [])
  unfolding write_events
  write_events_complete [] conn h room enough = absurd (omega arith)
  write_events_complete (out ∷ outs) conn h room enough =
      let r = handle_event parser_lib (writable parser_lib conn) closed out conn in
      let first : Ends conn r ⊎ GoesOn 1 conn r =
        rw (handle_event-writable parser_lib out conn) (send_loop-TakesSome out conn h.0 room) in
      elim first [
        | inl ended ↦
            if_cases (Ends conn) (callbacks r.1 == 0) _ _ (λ e. absurd (ground (arith, ended.0)))
              (λ _. ended)
        | inr (none_yet, same, buffer, further, within) ↦
            let size : length r.0.send_buffer ≡ length conn.send_buffer = ap length buffer in
            let later = write_events_complete outs r.0 h.1 (omega arith) (omega arith) in
            if_cases (Ends conn) (callbacks r.1 == 0) _ _
              (λ _. (
                callbacks-append r.1 (write_events parser_lib outs r.0).1 ∙ omega (arith, later.0),
                later.1 ∙ same,
                later.2,
              ))
              (λ e. absurd (ground (arith, none_yet)))
      ]

  -- A `write` with an empty buffer never gets to its callback: `send` of no bytes takes none, and
  -- the event leaves the connection as it is, however many events come without a failure.
  pub empty_write_stalls :
      (outs : List Outbound) (conn : ClientConnection P)
      → length conn.send_buffer ≡ 0
      → FitAll parser_lib outs conn
      → NoFailures outs
      → write_events parser_lib outs conn ≡ (conn, [])
  unfolding write_events
  empty_write_stalls [] conn e fits h = refl
  empty_write_stalls (out ∷ outs) conn e fits h =
      let same =
        handle_event-writable parser_lib out conn ∙ send_loop-empty out conn h.0 fits.0 e in
      let rest : FitAll parser_lib outs conn =
        subst (λ (r : Handled P). FitAll parser_lib outs r.0) same fits.1 in
      ap
        (λ (r : Handled P).
          let later = write_events parser_lib outs r.0 in
          if callbacks r.1 == 0 then (later.0, r.1 ++ later.1) else r)
        same
      ∙ empty_write_stalls outs conn e rest h.1
