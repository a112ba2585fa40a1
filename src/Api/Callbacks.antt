-- ===== src/Api/Callbacks.antt =====
-- The static functions that `APIconnection` gives to llhttp, each on the connection behind
-- `parser->data`. All return 0, so the parser goes on.
use asynchronous_http_web_se.Base.{true, false, [], ◌++◌, Bytes, bytes_key}
use asynchronous_http_web_se.StdMap.{assign}
use asynchronous_http_web_se.Http.{
  HttpResponse, new_response, ParserCall, message_begin, header_value_complete, headers_complete,
  message_complete, reset,
}
use asynchronous_http_web_se.Http
use asynchronous_http_web_se.Client.{zeroed}
use asynchronous_http_web_se.Api.{ApiConnection}

module _ {P : Type 0} where
  unfoldable pub on_message_begin : ApiConnection P → ApiConnection P
  on_message_begin conn = conn

  unfoldable pub on_version : Bytes → ApiConnection P → ApiConnection P
  on_version at conn = record conn {
    response = record conn.response { version = conn.response.version ++ at };
  }

  unfoldable pub on_status : Bytes → ApiConnection P → ApiConnection P
  on_status at conn = record conn {
    response = record conn.response { status = conn.response.status ++ at };
  }

  unfoldable pub on_header_field : Bytes → ApiConnection P → ApiConnection P
  on_header_field at conn = record conn {
    response = record conn.response { key = conn.response.key ++ at };
  }

  unfoldable pub on_header_value : Bytes → ApiConnection P → ApiConnection P
  on_header_value at conn = record conn {
    response = record conn.response { value = conn.response.value ++ at };
  }

  -- `headers[key] = value`, and both strings are cleared.
  unfoldable pub on_header_value_complete : ApiConnection P → ApiConnection P
  on_header_value_complete conn = record conn {
    response = record conn.response {
      headers = assign conn.response.key conn.response.value conn.response.headers;
      key = [];
      value = [];
    };
  }

  unfoldable pub on_headers_complete : ApiConnection P → ApiConnection P
  on_headers_complete conn = conn

  unfoldable pub on_body : Bytes → ApiConnection P → ApiConnection P
  on_body at conn = record conn {
    response = record conn.response { body = conn.response.body ++ at };
  }

  unfoldable pub on_message_complete : ApiConnection P → ApiConnection P
  on_message_complete conn = record conn { is_request_complete = true }

  -- A new message begins: the response is replaced, and the receive buffer zeroed.
  unfoldable pub on_reset : ApiConnection P → ApiConnection P
  on_reset conn = record conn {
    is_error = false;
    is_request_complete = false;
    response = new_response;
    recv_buffer = zeroed;
  }

  -- The assignments to `settings`; `on_method` and `on_url` are not set.
  unfoldable pub deliver : ParserCall → ApiConnection P → ApiConnection P
  unfolding on_message_begin on_version on_status on_header_field on_header_value
      on_header_value_complete on_headers_complete on_body on_message_complete on_reset
  deliver message_begin conn = on_message_begin conn
  deliver (Http.ParserCall.on_method at) conn = conn
  deliver (Http.ParserCall.on_url at) conn = conn
  deliver (Http.ParserCall.on_version at) conn = on_version at conn
  deliver (Http.ParserCall.on_status at) conn = on_status at conn
  deliver (Http.ParserCall.on_header_field at) conn = on_header_field at conn
  deliver (Http.ParserCall.on_header_value at) conn = on_header_value at conn
  deliver header_value_complete conn = on_header_value_complete conn
  deliver headers_complete conn = on_headers_complete conn
  deliver (Http.ParserCall.on_body at) conn = on_body at conn
  deliver message_complete conn = on_message_complete conn
  deliver reset conn = on_reset conn
