-- ===== src/Api/Handler/Machine.antt =====
-- `APIconnection` as a state machine: connecting, sending, receiving, and back to idle with the
-- callback.
use asynchronous_http_web_se.Base.{
  ℕ, ◌+◌, ◌≡◌, refl, sym, ap, subst, ◌∙◌, ◌⊎◌, inl, inr, [], ◌++◌, append_assoc, arith, int_key,
  Bytes, ltb, leb, length, take, drop, drop-drop, drop-length, take-append-drop, if_cases,
  Bool-cases,
}
use asynchronous_http_web_se.Epoll.{Epoll, EpollLaws, EpollEvent, has, epollerr}
use asynchronous_http_web_se.Reactor.{Tracker}
use asynchronous_http_web_se.Reactor.Tracking.{IsTracked}
use asynchronous_http_web_se.Http.{Llhttp}
use asynchronous_http_web_se.SocketIo.{
  Inbound, received, closed, recv_failed, Outbound, took, would_block, send_failed,
}
use asynchronous_http_web_se.Calls.{sent_by, callbacks}
use asynchronous_http_web_se.Calls.Chain.{
  Chain, silent, last, sends, moves, ChainEffect, effect_of_Chain,
}
use asynchronous_http_web_se.Api.{
  ApiConnection, ApiConnectionState, api_idle, api_connecting, api_sending, api_receiving,
  clear_recv_buffer,
}
use asynchronous_http_web_se.Api.Parsing.{receive}
use asynchronous_http_web_se.Api.Handler.{
  Handled, complete, fail, send_loop, recv_loop, dispatch, handle_event, start_receiving,
}
use asynchronous_http_web_se.Api.Parsing.Frame.{Same, Same-receive}

-- The moves that a handler makes without ending the request.
pub data Goes : ApiConnectionState → ApiConnectionState → Type 0 where
  stays : (s : ApiConnectionState) → Goes s s
  sent : Goes api_sending api_receiving

Goes-from_receiving : {t : ApiConnectionState} → Goes api_receiving t → t ≡ api_receiving
Goes-from_receiving (stays _) = refl

Goes-through :
    (s t : ApiConnectionState)
    → (s ≡ api_sending) ⊎ (s ≡ api_receiving)
    → Goes api_receiving t
    → Goes s t
Goes-through s t (inl e) g =
    subst (λ x. Goes x t) (sym e) (subst (Goes api_sending) (sym (Goes-from_receiving g)) sent)
Goes-through s t (inr e) g = subst (λ x. Goes x t) (sym e) g

module _ {P : Type 0} where
  abbrev pub unsent : ApiConnection P → Bytes
  unsent conn = drop conn.sent_bytes conn.send_buffer

  -- One run of the handler: how the state moves with the callback, and what goes on the wire.
  pub record Advance (conn : ApiConnection P) (r : Handled P) : Type 0 where
    pub chain : Chain conn.socket r.1
    pub state_moves :
        ((callbacks r.1 ≡ 1) × (r.0.state ≡ api_idle))
        ⊎ ((callbacks r.1 ≡ 0) × Goes conn.state r.0.state)
    pub in_order : sent_by r.1 ++ unsent r.0 ≡ unsent conn

  fail-Advance :
      (description : Bytes) (conn : ApiConnection P) → Advance conn (fail description conn)
  unfolding fail
  fail-Advance description conn = record {
    chain = last;
    state_moves = inl (refl, refl);
    in_order = refl;
  }

  complete-Advance : (conn : ApiConnection P) → Advance conn (complete conn)
  unfolding complete
  complete-Advance conn = record { chain = last; state_moves = inl (refl, refl); in_order = refl }

  waits-Advance : (conn : ApiConnection P) → Advance conn (conn, [])
  waits-Advance conn = record {
    chain = silent;
    state_moves = inr (refl, stays conn.state);
    in_order = refl;
  }

  after_take :
      (n : ℕ) (conn : ApiConnection P) (out : Bytes)
      → out ≡ drop (conn.sent_bytes + n) conn.send_buffer
      → take n (unsent conn) ++ out ≡ unsent conn
  after_take n conn out e =
      ap (◌++◌ (take n (unsent conn))) (e ∙ sym (drop-drop n conn.sent_bytes conn.send_buffer))
      ∙ take-append-drop n (unsent conn)

  send_loop-Advance :
      (out : Outbound) (conn : ApiConnection P)
      → (conn.state ≡ api_sending) ⊎ (conn.state ≡ api_receiving)
      → Advance conn (send_loop out conn)
  unfolding send_loop start_receiving
  send_loop-Advance (took n rest) conn s =
      let conn' = record conn { sent_bytes = conn.sent_bytes + n } in
      if_cases (Advance conn) (ltb 0 n) _ _
        (λ _. elim (Bool-cases (leb (length conn.send_buffer) conn'.sent_bytes)) [
          | inl e ↦
              let later = send_loop-Advance rest (start_receiving conn') (inr refl) in
              rw e (record {
                chain = sends _ (moves _ _ later.chain);
                state_moves = elim later.state_moves [
                  | inl end ↦ inl end
                  | inr (none_yet, g) ↦ inr (none_yet, Goes-through conn.state _ s g)
                ];
                in_order =
                    append_assoc (take n (unsent conn))
                      (sent_by (send_loop rest (start_receiving conn')).1)
                      (unsent (send_loop rest (start_receiving conn')).0)
                    ∙ ap (◌++◌ (take n (unsent conn))) later.in_order
                    ∙ after_take n conn (unsent (start_receiving conn'))
                        (sym (drop-length (conn.sent_bytes + n) conn.send_buffer (ground arith)));
              })
          | inr e ↦
              let later = send_loop-Advance rest conn' s in
              rw e (record {
                chain = sends _ later.chain;
                state_moves = later.state_moves;
                in_order =
                    append_assoc (take n (unsent conn)) (sent_by (send_loop rest conn').1)
                      (unsent (send_loop rest conn').0)
                    ∙ ap (◌++◌ (take n (unsent conn))) later.in_order
                    ∙ after_take n conn (unsent conn') refl;
              })
        ])
        (λ _. waits-Advance conn)
  send_loop-Advance would_block conn s = waits-Advance conn
  send_loop-Advance send_failed conn s = fail-Advance _ conn

  -- A handler's run from a connection that parsing has touched.
  Advance-Same : (c d : ApiConnection P) (r : Handled P) → Same c d → Advance c r → Advance d r
  Advance-Same c d r (s, t, n, b) h = record {
    chain = subst (λ fd. Chain fd r.1) s h.chain;
    state_moves = elim h.state_moves [
      | inl end ↦ inl end
      | inr (none_yet, g) ↦ inr (none_yet, subst (λ x. Goes x r.0.state) t g)
    ];
    in_order = h.in_order ∙ ap (λ k. drop k c.send_buffer) n ∙ ap (drop d.sent_bytes) b;
  }

module _ {P : Type 0} (parser_lib : Llhttp P) where
  recv_loop-Advance :
      (inbound : Inbound) (conn : ApiConnection P)
      → Advance conn (recv_loop parser_lib inbound conn)
  unfolding recv_loop clear_recv_buffer
  recv_loop-Advance (received bytes rest) conn =
      let c = (receive parser_lib bytes conn).0 in
      let same = Same-receive parser_lib bytes conn in
      if_cases (Advance conn) (receive parser_lib bytes conn).1 _ _
        (λ _.
          if_cases (Advance conn) c.is_request_complete _ _
            (λ _. Advance-Same c conn _ same (complete-Advance c))
            (λ _.
              Advance-Same (clear_recv_buffer c) conn _ same
                (recv_loop-Advance rest (clear_recv_buffer c))))
        (λ _. Advance-Same c conn _ same (fail-Advance _ c))
  recv_loop-Advance closed conn = fail-Advance _ conn
  recv_loop-Advance recv_failed conn = waits-Advance conn

  dispatch-Advance :
      (s : ApiConnectionState) (inbound : Inbound) (outbound : Outbound) (conn : ApiConnection P)
      → conn.state ≡ s
      → Advance conn (dispatch parser_lib s inbound outbound conn)
  unfolding dispatch clear_recv_buffer
  dispatch-Advance api_idle inbound outbound conn e = waits-Advance conn
  dispatch-Advance api_connecting inbound outbound conn e = complete-Advance conn
  dispatch-Advance api_sending inbound outbound conn e = send_loop-Advance outbound conn (inl e)
  dispatch-Advance api_receiving inbound outbound conn e =
      Advance-Same (clear_recv_buffer conn) conn _ (refl, refl, refl, refl)
        (recv_loop-Advance inbound (clear_recv_buffer conn))

  pub handle_event-Advance :
      (ev : EpollEvent) (inbound : Inbound) (outbound : Outbound) (conn : ApiConnection P)
      → Advance conn (handle_event parser_lib ev inbound outbound conn)
  unfolding handle_event
  handle_event-Advance ev inbound outbound conn =
      if_cases (Advance conn) (has ev.events epollerr) _ _ (λ _. fail-Advance _ conn)
        (λ _. dispatch-Advance conn.state inbound outbound conn refl)

  -- Every event either ends the request, with the state idle, the callback run once and the socket
  -- off the reactor; or runs no callback, and the state stays or goes from sending to receiving. The
  -- bytes that go out, and then those that are left, are those that were to be sent.
  pub handle_event_advances :
      {K C : Type 0} (sys : Epoll K) (closure : C) (t : Tracker K C) (ev : EpollEvent)
      (inbound : Inbound) (outbound : Outbound) (conn : ApiConnection P)
      → EpollLaws sys
      → IsTracked sys t
      → let r = handle_event parser_lib ev inbound outbound conn in
        (((callbacks r.1 ≡ 1) × (r.0.state ≡ api_idle))
          ⊎ ((callbacks r.1 ≡ 0) × Goes conn.state r.0.state))
        × ChainEffect sys closure conn.socket r.1 t
        × (sent_by r.1 ++ unsent r.0 ≡ unsent conn)
  handle_event_advances sys closure t ev inbound outbound conn laws h =
      let a = handle_event-Advance ev inbound outbound conn in
      (a.state_moves, effect_of_Chain sys closure t laws h a.chain, a.in_order)
