-- ===== src/Client.antt =====
-- include/http_server_type.h: `Clientconnection`, the server's side of one accepted socket.
pub mod Callbacks
pub mod Parsing
pub mod Message
pub mod Assembly
pub mod Handler
use asynchronous_http_web_se.Base.{
  ℕ, ◌+◌, Bool, false, List, [], ◌++◌, ℤ, Bytes, length, drop, replicate,
}
use asynchronous_http_web_se.Http.{HttpRequest, new_request, Llhttp}

-- The fields, but for `ioc` and `settings`; `parser` is the state of llhttp.
pub record ClientConnection (P : Type 0) : Type 0 where
  pub connection_id : Bytes
  pub socket : ℤ
  pub is_error : Bool
  pub error_description : Bytes
  pub is_request_complete : Bool
  pub request : HttpRequest
  pub parser : P
  pub recv_buffer : Bytes
  pub sent_bytes : ℕ
  pub send_buffer : Bytes

-- `sizeof(recvBuffer)`
abbrev pub recv_size : ℕ
recv_size = 1024

-- `memset(recvBuffer, 0, sizeof(recvBuffer))`
unfoldable pub zeroed : Bytes
zeroed = replicate recv_size 0

module _ {P : Type 0} where
  unfoldable pub clear_recv_buffer : ClientConnection P → ClientConnection P
  clear_recv_buffer c = record c { recv_buffer = zeroed }

  -- `recv` writes its bytes to the front of the buffer.
  unfoldable pub fill_recv_buffer : Bytes → ClientConnection P → ClientConnection P
  fill_recv_buffer bytes c = record c { recv_buffer = bytes ++ drop (length bytes) c.recv_buffer }

-- The constructor's object, for an accepted socket and the bytes of a new UUID.
unfoldable pub new_client : {P : Type 0} → Llhttp P → ℤ → Bytes → ClientConnection P
new_client parser_lib sockfd uuid = record {
  connection_id = uuid;
  socket = sockfd;
  is_error = false;
  error_description = [];
  is_request_complete = false;
  request = new_request;
  parser = parser_lib.start;
  recv_buffer = zeroed;
  sent_bytes = 0;
  send_buffer = [];
}
