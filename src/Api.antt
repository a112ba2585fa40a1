-- ===== src/Api.antt =====
-- include/request_connection_type.h: `APIconnection`, the client's side of a call of another server.
pub mod Callbacks
pub mod Parsing
pub mod Handler
pub mod Message
pub mod Assembly
use asynchronous_http_web_se.Base.{
  ℕ, Bool, false, [], ◌++◌, ℤ, Bytes, bytes_eq, text, length, drop, if◌then◌else◌,
}
use asynchronous_http_web_se.Http.{HttpResponse, new_response, Llhttp}
use asynchronous_http_web_se.Client.{zeroed}

pub data ApiConnectionState : Type 0 where
  api_idle api_connecting api_sending api_receiving : ApiConnectionState

-- The fields, but for `ioc`, `settings` and `connectionId`, which nothing sets.
pub record ApiConnection (P : Type 0) : Type 0 where
  pub socket : ℤ
  pub state : ApiConnectionState
  pub parent : Bytes
  pub is_error : Bool
  pub error_description : Bytes
  pub is_request_complete : Bool
  pub response : HttpResponse
  pub parser : P
  pub recv_buffer : Bytes
  pub sent_bytes : ℕ
  pub send_buffer : Bytes

-- The parent's id, or `#` where there is none.
unfoldable pub parent_or_none : Bytes → Bytes
parent_or_none parent = if bytes_eq parent (text "") then text "#" else parent

-- The constructor. It leaves `socket` unset: `garbage` is what stands there.
unfoldable pub new_api : {P : Type 0} → Llhttp P → Bytes → ℤ → ApiConnection P
unfolding parent_or_none
new_api parser_lib parent garbage = record {
  socket = garbage;
  state = api_idle;
  parent = parent_or_none parent;
  is_error = false;
  error_description = [];
  is_request_complete = false;
  response = new_response;
  parser = parser_lib.start;
  recv_buffer = zeroed;
  sent_bytes = 0;
  send_buffer = [];
}

module _ {P : Type 0} where
  -- `memset(this->recvBuffer, 0, sizeof(this->recvBuffer))`
  unfoldable pub clear_recv_buffer : ApiConnection P → ApiConnection P
  clear_recv_buffer conn = record conn { recv_buffer = zeroed }

  -- `recv` writes its bytes to the front of the buffer.
  unfoldable pub fill_recv_buffer : Bytes → ApiConnection P → ApiConnection P
  fill_recv_buffer bytes conn = record conn {
    recv_buffer = bytes ++ drop (length bytes) conn.recv_buffer;
  }
