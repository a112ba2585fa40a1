-- ===== src/Http.antt =====
-- include/data_types.h, and what llhttp is to the connections: a parser that reads one byte after
-- the other and makes calls of the settings' functions in between.
pub mod Reading
use asynchronous_http_web_se.Base.{ℕ, Bool, List, [], Bytes}
use asynchronous_http_web_se.StdMap.{StdMap}

pub record HttpRequest : Type 0 where
  pub http_method : Bytes
  pub url : Bytes
  pub version : Bytes
  pub key : Bytes
  pub value : Bytes
  pub headers : StdMap Bytes Bytes
  pub body : Bytes

abbrev pub new_request : HttpRequest
new_request = record {
  http_method = [];
  url = [];
  version = [];
  key = [];
  value = [];
  headers = [];
  body = [];
}

pub record HttpResponse : Type 0 where
  pub version : Bytes
  pub status : Bytes
  pub key : Bytes
  pub value : Bytes
  pub headers : StdMap Bytes Bytes
  pub body : Bytes

abbrev pub new_response : HttpResponse
new_response = record { version = []; status = []; key = []; value = []; headers = []; body = [] }

-- A call of one of the settings' functions; a span call carries the bytes from `at` on.
pub data ParserCall : Type 0 where
  message_begin : ParserCall
  on_method on_url on_version on_status on_header_field on_header_value on_body : Bytes → ParserCall
  header_value_complete headers_complete message_complete reset : ParserCall

-- llhttp, which is not part of this repository. `feed` reads one byte of the buffer: the parser's
-- next state, the calls it makes before it reads on, and whether it goes on (`false` is an error
-- code other than HPE_OK). `finish` stands at the end of the buffer, where a span that is still open
-- is handed over.
pub record Llhttp (P : Type 0) : Type 0 where
  pub start : P
  pub feed : P → ℕ → P × List ParserCall × Bool
  pub finish : P → P × List ParserCall × Bool
