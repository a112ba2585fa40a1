-- ===== src/Client/Handler/Once.antt =====
-- How often the application's callback runs for one `read` or `write`.
use asynchronous_http_web_se.Base.{
  Bytes, ◌+◌, ◌≡◌, refl, arith, inl, inr, ltb, leb, length, Bool-cases, if_cases, ap, subst,
}
use asynchronous_http_web_se.Reactor.{Tracker}
use asynchronous_http_web_se.Reactor.Tracking.{IsTracked}
use asynchronous_http_web_se.Epoll.{Epoll, EpollLaws, EpollEvent, has, epollin, epollout, epollerr}
use asynchronous_http_web_se.Http.{Llhttp}
use asynchronous_http_web_se.SocketIo.{
  Inbound, received, closed, recv_failed, Outbound, took, would_block, send_failed,
}
use asynchronous_http_web_se.Calls.Once.{
  OneShot, silent, last, sends, OneShotEffect, effect_of_OneShot,
}
use asynchronous_http_web_se.Client.{ClientConnection, clear_recv_buffer}
use asynchronous_http_web_se.Client.Parsing.{receive}
use asynchronous_http_web_se.Client.Parsing.Frame.{Outer, outer-receive}
use asynchronous_http_web_se.Client.Handler.{Handled, complete, send_loop, recv_loop, handle_event}

module _ {P : Type 0} where
  send_loop_once :
      (out : Outbound) (conn : ClientConnection P) → OneShot conn.socket (send_loop out conn).1
  unfolding send_loop
  send_loop_once (took n rest) conn = elim (Bool-cases (ltb 0 n)) [
    | inr e ↦ rw e silent
    | inl e ↦ elim (Bool-cases (leb (length conn.send_buffer) (conn.sent_bytes + n))) [
      | inl f ↦ rw (e, f) (sends _ _ last)
      | inr f ↦
          rw (e, f)
            (sends _ _ (send_loop_once rest (record conn { sent_bytes = conn.sent_bytes + n })))
    ]
  ]
  send_loop_once would_block conn = silent
  send_loop_once send_failed conn = last

module _ {P : Type 0} (parser_lib : Llhttp P) where
  socket-receive :
      (bytes : Bytes) (conn : ClientConnection P)
      → (receive parser_lib bytes conn).0.socket ≡ conn.socket
  socket-receive bytes conn = ap (λ (o : Outer). o.socket) (outer-receive parser_lib bytes conn)

  recv_loop_once :
      (inbound : Inbound) (conn : ClientConnection P)
      → OneShot conn.socket (recv_loop parser_lib inbound conn).1
  unfolding recv_loop
  recv_loop_once (received bytes rest) conn =
      let conn' = (receive parser_lib bytes conn).0 in
      let P' = λ (h : Handled P). OneShot conn.socket h.1 in
      let ended : OneShot conn.socket (complete conn').1 =
        subst (λ s. OneShot s (complete conn').1) (socket-receive bytes conn) last in
      let later : OneShot conn.socket (recv_loop parser_lib rest (clear_recv_buffer conn')).1 =
        subst (λ s. OneShot s (recv_loop parser_lib rest (clear_recv_buffer conn')).1)
          (socket-receive bytes conn) (recv_loop_once rest (clear_recv_buffer conn')) in
      if_cases P' (receive parser_lib bytes conn).1 _ _
        (λ _. if_cases P' conn'.is_request_complete _ _ (λ _. ended) (λ _. later)) (λ _. ended)
  recv_loop_once closed conn = last
  recv_loop_once recv_failed conn = silent

  handle_event-OneShot :
      (ev : EpollEvent) (inbound : Inbound) (outbound : Outbound) (conn : ClientConnection P)
      → OneShot conn.socket (handle_event parser_lib ev inbound outbound conn).1
  unfolding handle_event
  handle_event-OneShot ev inbound outbound conn =
      let P' = λ (h : Handled P). OneShot conn.socket h.1 in
      if_cases P' (has ev.events epollerr) _ _ (λ _. last)
        λ _.
          if_cases P' (has ev.events epollin) _ _
            (λ _. recv_loop_once inbound (clear_recv_buffer conn))
            λ _.
              if_cases P' (has ev.events epollout) _ _ (λ _. send_loop_once outbound conn)
                λ _. silent

  send_loop-socket :
      (out : Outbound) (conn : ClientConnection P) → (send_loop out conn).0.socket ≡ conn.socket
  unfolding send_loop
  send_loop-socket (took n rest) conn =
      ground (arith, send_loop-socket rest (record conn { sent_bytes = conn.sent_bytes + n }))
  send_loop-socket would_block conn = refl
  send_loop-socket send_failed conn = refl

  recv_loop-socket :
      (inbound : Inbound) (conn : ClientConnection P)
      → (recv_loop parser_lib inbound conn).0.socket ≡ conn.socket
  unfolding recv_loop clear_recv_buffer
  recv_loop-socket (received bytes rest) conn =
      let conn' = (receive parser_lib bytes conn).0 in
      ground (arith, socket-receive bytes conn, recv_loop-socket rest (clear_recv_buffer conn'))
  recv_loop-socket closed conn = refl
  recv_loop-socket recv_failed conn = refl

  pub handle_event-socket :
      (ev : EpollEvent) (inbound : Inbound) (outbound : Outbound) (conn : ClientConnection P)
      → (handle_event parser_lib ev inbound outbound conn).0.socket ≡ conn.socket
  unfolding handle_event clear_recv_buffer
  handle_event-socket ev inbound outbound conn =
      ground
        (arith, recv_loop-socket inbound (clear_recv_buffer conn), send_loop-socket outbound conn)

  -- Whatever the event and whatever the socket calls give, `handleEvent` either keeps its
  -- registration and runs no callback, or it takes the socket out of the reactor and runs the
  -- callback once, and then the reactor holds no callback for the socket.
  pub handle_event_once :
      {K C : Type 0} (sys : Epoll K) (closure : C) (t : Tracker K C) (ev : EpollEvent)
      (inbound : Inbound) (outbound : Outbound) (conn : ClientConnection P)
      → EpollLaws sys
      → IsTracked sys t
      → OneShotEffect sys closure conn.socket (handle_event parser_lib ev inbound outbound conn).1 t
  handle_event_once sys closure t ev inbound outbound conn laws h =
      effect_of_OneShot sys closure t laws h (handle_event-OneShot ev inbound outbound conn)
