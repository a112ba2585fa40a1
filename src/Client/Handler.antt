-- ===== src/Client/Handler.antt =====
-- `Clientconnection::handleEvent`, `read` and `write`.
pub mod Once
pub mod Sending
pub mod Reading
pub mod Completing
use asynchronous_http_web_se.Base.{
  ℕ, ◌+◌, ◌-◌, Bool, true, false, List, [], ◌∷◌, ◌++◌, ltb, leb, length, take, drop, text, Bytes,
  if◌then◌else◌,
}
use asynchronous_http_web_se.Epoll.{
  EpollEvent, has, epollin, epollout, epollerr, read_mask, write_mask,
}
use asynchronous_http_web_se.Reactor.{new_sock, helper_sock}
use asynchronous_http_web_se.Http.{Llhttp}
use asynchronous_http_web_se.SocketIo.{
  Inbound, received, closed, recv_failed, Outbound, took, would_block, send_failed,
}
use asynchronous_http_web_se.Calls.{Call, tracks, untracks, transmits, calls_back}
use asynchronous_http_web_se.Client.{ClientConnection, clear_recv_buffer}
use asynchronous_http_web_se.Client.Parsing.{receive}

-- `conn` after a handler, and what the handler did.
abbrev pub Handled : Type 0 → Type 0
Handled P = ClientConnection P × List Call

module _ {P : Type 0} where
  unfoldable pub read : ClientConnection P → Handled P
  read conn = (conn, tracks conn.socket read_mask new_sock ∷ [])

  unfoldable pub write : ClientConnection P → Handled P
  write conn = (conn, tracks conn.socket write_mask helper_sock ∷ [])

  -- `ioc->removeTrack(this->socket); cb(this); return;`
  unfoldable pub complete : ClientConnection P → Handled P
  complete conn = (conn, untracks conn.socket ∷ calls_back ∷ [])

  -- The same after `is_error = true` and a description.
  unfoldable pub fail : Bytes → ClientConnection P → Handled P
  unfolding complete
  fail description conn =
      complete (record conn { is_error = true; error_description = description })

  -- The `while` loop over `send`, and what follows it. The bytes go out from `sent_bytes` on.
  unfoldable pub send_loop : Outbound → ClientConnection P → Handled P
  unfolding complete fail
  send_loop (took n rest) conn =
      let out = transmits conn.socket (take n (drop conn.sent_bytes conn.send_buffer)) in
      let conn' = record conn { sent_bytes = conn.sent_bytes + n } in
      let done = complete (record conn { send_buffer = []; sent_bytes = 0 }) in
      let later = send_loop rest conn' in
      if ltb 0 n
      then (if leb (length conn.send_buffer) conn'.sent_bytes
          then (done.0, out ∷ done.1)
          else (later.0, out ∷ later.1))
      else (conn, [])
  send_loop would_block conn = (conn, [])
  send_loop send_failed conn = fail (text "response sending error") conn

module _ {P : Type 0} (parser_lib : Llhttp P) where
  -- The `while` loop over `recv`, and what follows it.
  unfoldable pub recv_loop : Inbound → ClientConnection P → Handled P
  unfolding complete fail clear_recv_buffer
  recv_loop (received bytes rest) conn =
      let (conn', llerror_ok) = receive parser_lib bytes conn in
      let later = recv_loop rest (clear_recv_buffer conn') in
      if llerror_ok
      then (if conn'.is_request_complete then complete conn' else later)
      else fail (text "Http parsing error") conn'
  recv_loop closed conn = fail (text "client disconnected") conn
  recv_loop recv_failed conn = (conn, [])

  unfoldable pub handle_event : EpollEvent → Inbound → Outbound → ClientConnection P → Handled P
  unfolding fail recv_loop send_loop clear_recv_buffer
  handle_event ev inbound outbound conn =
      if has ev.events epollerr
      then fail (text "connection closed abruptly") conn
      else if has ev.events epollin
      then recv_loop inbound (clear_recv_buffer conn)
      else if has ev.events epollout
      then send_loop outbound conn
      else (conn, [])
