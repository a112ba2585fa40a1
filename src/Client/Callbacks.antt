-- ===== src/Client/Callbacks.antt =====
-- The static functions that `Clientconnection` gives to llhttp, each on the connection behind
-- `parser->data`. All return 0, so the parser goes on.
use asynchronous_http_web_se.Base.{true, false, [], ◌++◌, Bytes, bytes_key}
use asynchronous_http_web_se.StdMap.{assign}
use asynchronous_http_web_se.Http.{
  HttpRequest, new_request, ParserCall, message_begin, header_value_complete, headers_complete,
  message_complete, reset,
}
use asynchronous_http_web_se.Http
use asynchronous_http_web_se.Client.{ClientConnection, zeroed}

module _ {P : Type 0} where
  unfoldable pub on_message_begin : ClientConnection P → ClientConnection P
  on_message_begin conn = conn

  unfoldable pub on_method : Bytes → ClientConnection P → ClientConnection P
  on_method at conn = record conn {
    request = record conn.request { http_method = conn.request.http_method ++ at };
  }

  unfoldable pub on_url : Bytes → ClientConnection P → ClientConnection P
  on_url at conn = record conn { request = record conn.request { url = conn.request.url ++ at } }

  unfoldable pub on_version : Bytes → ClientConnection P → ClientConnection P
  on_version at conn = record conn {
    request = record conn.request { version = conn.request.version ++ at };
  }

  unfoldable pub on_header_field : Bytes → ClientConnection P → ClientConnection P
  on_header_field at conn = record conn {
    request = record conn.request { key = conn.request.key ++ at };
  }

  unfoldable pub on_header_value : Bytes → ClientConnection P → ClientConnection P
  on_header_value at conn = record conn {
    request = record conn.request { value = conn.request.value ++ at };
  }

  -- `headers[key] = value`, and both strings are cleared.
  unfoldable pub on_header_value_complete : ClientConnection P → ClientConnection P
  on_header_value_complete conn = record conn {
    request = record conn.request {
      headers = assign conn.request.key conn.request.value conn.request.headers;
      key = [];
      value = [];
    };
  }

  unfoldable pub on_headers_complete : ClientConnection P → ClientConnection P
  on_headers_complete conn = conn

  unfoldable pub on_body : Bytes → ClientConnection P → ClientConnection P
  on_body at conn = record conn { request = record conn.request { body = conn.request.body ++ at } }

  unfoldable pub on_message_complete : ClientConnection P → ClientConnection P
  on_message_complete conn = record conn { is_request_complete = true }

  -- A new message begins: the request is replaced, and the receive buffer zeroed.
  unfoldable pub on_reset : ClientConnection P → ClientConnection P
  on_reset conn = record conn {
    is_error = false;
    is_request_complete = false;
    request = new_request;
    recv_buffer = zeroed;
  }

  -- The assignments to `settings`; `on_status` is not set.
  unfoldable pub deliver : ParserCall → ClientConnection P → ClientConnection P
  unfolding on_message_begin on_method on_url on_version on_header_field on_header_value
      on_header_value_complete on_headers_complete on_body on_message_complete on_reset
  deliver message_begin conn = on_message_begin conn
  deliver (Http.ParserCall.on_method at) conn = on_method at conn
  deliver (Http.ParserCall.on_url at) conn = on_url at conn
  deliver (Http.ParserCall.on_version at) conn = on_version at conn
  deliver (Http.ParserCall.on_status at) conn = conn
  deliver (Http.ParserCall.on_header_field at) conn = on_header_field at conn
  deliver (Http.ParserCall.on_header_value at) conn = on_header_value at conn
  deliver header_value_complete conn = on_header_value_complete conn
  deliver headers_complete conn = on_headers_complete conn
  deliver (Http.ParserCall.on_body at) conn = on_body at conn
  deliver message_complete conn = on_message_complete conn
  deliver reset conn = on_reset conn
