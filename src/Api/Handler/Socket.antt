-- ===== src/Api/Handler/Socket.antt =====
-- The handler of an `APIconnection` keeps its socket.
use asynchronous_http_web_se.Base.{◌+◌, ◌≡◌, refl, int_key, arith, if_cases}
use asynchronous_http_web_se.Epoll.{EpollEvent, has, epollerr}
use asynchronous_http_web_se.SocketIo.{
  Inbound, received, closed, recv_failed, Outbound, took, would_block, send_failed,
}
use asynchronous_http_web_se.Http.{Llhttp}
use asynchronous_http_web_se.Api.{
  ApiConnection, ApiConnectionState, api_idle, api_connecting, api_sending, api_receiving,
  clear_recv_buffer,
}
use asynchronous_http_web_se.Api.Parsing.{receive}
use asynchronous_http_web_se.Api.Parsing.Frame.{Same-receive}
use asynchronous_http_web_se.Api.Handler.{
  Handled, send_loop, start_receiving, recv_loop, dispatch, handle_event, complete,
}

module _ {P : Type 0} where
  send_loop-socket :
      (out : Outbound) (conn : ApiConnection P) → (send_loop out conn).0.socket ≡ conn.socket
  unfolding send_loop start_receiving
  send_loop-socket (took n rest) conn =
      let conn' = record conn { sent_bytes = conn.sent_bytes + n } in
      ground (arith, send_loop-socket rest conn', send_loop-socket rest (start_receiving conn'))
  send_loop-socket would_block conn = refl
  send_loop-socket send_failed conn = refl

module _ {P : Type 0} (parser_lib : Llhttp P) where
  recv_loop-socket :
      (inbound : Inbound) (conn : ApiConnection P)
      → (recv_loop parser_lib inbound conn).0.socket ≡ conn.socket
  unfolding recv_loop clear_recv_buffer complete
  recv_loop-socket (received bytes rest) conn =
      let conn' = (receive parser_lib bytes conn).0 in
      ground (
        arith,
        (Same-receive parser_lib bytes conn).0,
        recv_loop-socket rest (clear_recv_buffer conn'),
      )
  recv_loop-socket closed conn = refl
  recv_loop-socket recv_failed conn = refl

  dispatch-socket :
      (s : ApiConnectionState) (inbound : Inbound) (outbound : Outbound) (conn : ApiConnection P)
      → (dispatch parser_lib s inbound outbound conn).0.socket ≡ conn.socket
  unfolding dispatch clear_recv_buffer
  dispatch-socket api_idle inbound outbound conn = refl
  dispatch-socket api_connecting inbound outbound conn = refl
  dispatch-socket api_sending inbound outbound conn = send_loop-socket outbound conn
  dispatch-socket api_receiving inbound outbound conn =
      recv_loop-socket inbound (clear_recv_buffer conn)

  pub handle_event-socket :
      (ev : EpollEvent) (inbound : Inbound) (outbound : Outbound) (conn : ApiConnection P)
      → (handle_event parser_lib ev inbound outbound conn).0.socket ≡ conn.socket
  unfolding handle_event
  handle_event-socket ev inbound outbound conn =
      if_cases (λ (r : Handled P). r.0.socket ≡ conn.socket) (has ev.events epollerr) _ _
        (λ _. refl) (λ _. dispatch-socket conn.state inbound outbound conn)
