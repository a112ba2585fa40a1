-- ===== src/Api/Handler.antt =====
-- `connectApi`, `sendRequest` and `handleEvent` of `APIconnection`.
pub mod Machine
pub mod Socket
use asynchronous_http_web_se.Base.{
  ℕ, ◌+◌, Bool, true, false, List, [], ◌∷◌, ℤ, int_key, ◌=?◌, minus_one, ltb, leb, length, take,
  drop, text, Bytes, if◌then◌else◌,
}
use asynchronous_http_web_se.Epoll.{EpollEvent, has, epollerr, read_mask, write_mask}
use asynchronous_http_web_se.Reactor.{new_sock, helper_sock}
use asynchronous_http_web_se.Http.{Llhttp}
use asynchronous_http_web_se.SocketIo.{
  Inbound, received, closed, recv_failed, Outbound, took, would_block, send_failed,
}
use asynchronous_http_web_se.Calls.{Call, tracks, modifies, untracks, transmits, calls_back}
use asynchronous_http_web_se.Api.{
  ApiConnection, ApiConnectionState, api_idle, api_connecting, api_sending, api_receiving,
  clear_recv_buffer,
}
use asynchronous_http_web_se.Api.Parsing.{receive}

abbrev pub Handled : Type 0 → Type 0
Handled P = ApiConnection P × List Call

module _ {P : Type 0} where
  -- `createConnection` has given `fd`, which is -1 where it failed.
  unfoldable pub connect_api : ℤ → ApiConnection P → Handled P
  connect_api fd conn =
      if fd =? minus_one
      then (
        record conn {
          socket = fd;
          is_error = true;
          error_description = text "can not create connection";
        },
        calls_back ∷ [],
      )
      else (
        record conn { socket = fd; state = api_connecting },
        tracks fd write_mask helper_sock ∷ [],
      )

  unfoldable pub send_request : ApiConnection P → Handled P
  send_request conn =
      (record conn { state = api_sending }, tracks conn.socket write_mask helper_sock ∷ [])

  -- `this->state = API_IDLE; ioc->removeTrack(this->socket); cb(this); return;`
  unfoldable pub complete : ApiConnection P → Handled P
  complete conn = (record conn { state = api_idle }, untracks conn.socket ∷ calls_back ∷ [])

  -- The same after `is_error = true` and a description.
  unfoldable pub fail : Bytes → ApiConnection P → Handled P
  unfolding complete
  fail description conn =
      complete (record conn { is_error = true; error_description = description })

  -- What a handler did before the rest of it.
  abbrev pub after : List Call → Handled P → Handled P
  after [] r = r
  after (c ∷ cs) r = let (conn, ds) = after cs r in (conn, c ∷ ds)

  -- The buffer is sent: wait for the response.
  unfoldable pub start_receiving : ApiConnection P → ApiConnection P
  start_receiving conn = record conn { send_buffer = []; sent_bytes = 0; state = api_receiving }

  -- The `while` loop over `send`, and what follows it. The loop goes on after the last byte.
  unfoldable pub send_loop : Outbound → ApiConnection P → Handled P
  unfolding fail start_receiving
  send_loop (took n rest) conn =
      let out = transmits conn.socket (take n (drop conn.sent_bytes conn.send_buffer)) in
      let conn' = record conn { sent_bytes = conn.sent_bytes + n } in
      let is_sent = leb (length conn.send_buffer) conn'.sent_bytes in
      let later = send_loop rest (if is_sent then start_receiving conn' else conn') in
      if ltb 0 n
      then (if is_sent
          then after (out ∷ modifies conn.socket read_mask new_sock ∷ []) later
          else after (out ∷ []) later)
      else (conn, [])
  send_loop would_block conn = (conn, [])
  send_loop send_failed conn = fail (text "request sending error") conn

module _ {P : Type 0} (parser_lib : Llhttp P) where
  -- The `while` loop over `recv`, and what follows it.
  unfoldable pub recv_loop : Inbound → ApiConnection P → Handled P
  unfolding complete fail clear_recv_buffer
  recv_loop (received bytes rest) conn =
      let (conn', llerror_ok) = receive parser_lib bytes conn in
      let later = recv_loop rest (clear_recv_buffer conn') in
      if llerror_ok
      then (if conn'.is_request_complete then complete conn' else later)
      else fail (text "Http parsing error") conn'
  recv_loop closed conn = fail (text "client disconnected") conn
  recv_loop recv_failed conn = (conn, [])

  -- The branches on the state, for an event that is no error.
  unfoldable pub dispatch : ApiConnectionState → Inbound → Outbound → ApiConnection P → Handled P
  unfolding complete send_loop recv_loop clear_recv_buffer
  dispatch api_connecting inbound outbound conn = complete conn
  dispatch api_sending inbound outbound conn = send_loop outbound conn
  dispatch api_receiving inbound outbound conn = recv_loop inbound (clear_recv_buffer conn)
  dispatch api_idle inbound outbound conn = (conn, [])

  unfoldable pub handle_event : EpollEvent → Inbound → Outbound → ApiConnection P → Handled P
  unfolding fail dispatch
  handle_event ev inbound outbound conn =
      if has ev.events epollerr
      then fail (text "connection closed abruptly") conn
      else dispatch conn.state inbound outbound conn
