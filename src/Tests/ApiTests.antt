-- ===== src/Tests/ApiTests.antt =====
-- `APIconnection` on concrete inputs.
use asynchronous_http_web_se.Base.{bytes_key, List, ◌≡◌, ◌⊎◌, [], ◌∷◌, ◌++◌, text}
use asynchronous_http_web_se.StdMap.{find}
use asynchronous_http_web_se.Http.{
  ParserCall, message_begin, header_value_complete, headers_complete, message_complete,
}
use asynchronous_http_web_se.Http
use asynchronous_http_web_se.Client.Message.{piece, done, no_header, header, last_value}
use asynchronous_http_web_se.Api.Parsing.{deliver_all}
use asynchronous_http_web_se.Api.Message.{Reply, reply}
use asynchronous_http_web_se.Api.Assembly.{fresh, completed, response_assembled}
use asynchronous_http_web_se.SocketIo.{Outbound, closed, took, would_block}
use asynchronous_http_web_se.Epoll.{EpollEvent, epollout}
use asynchronous_http_web_se.Calls.{sent_by, callbacks}
use asynchronous_http_web_se.Calls.Chain.{ChainEffect}
use asynchronous_http_web_se.Api.{ApiConnection, new_api, api_idle, api_sending}
use asynchronous_http_web_se.Api.Handler.{handle_event}
use asynchronous_http_web_se.Api.Handler.Machine.{Goes, unsent, handle_event_advances}
use asynchronous_http_web_se.Tests.Kernel.{
  kernel, kernel_laws, socket5, watching, watching-IsTracked,
}
use asynchronous_http_web_se.Tests.LineParser.{line_parser, Part}

abbrev requesting : ApiConnection Part
requesting = record (new_api line_parser (text "") socket5) {
  state = api_sending;
  send_buffer = 1 ∷ 2 ∷ 3 ∷ [];
}

abbrev writable : EpollEvent
writable = record { events = epollout; fd = socket5 }

abbrev some_bytes : Outbound
some_bytes = took 2 would_block

handle_event_advances_example :
    let r = handle_event line_parser writable closed some_bytes requesting in
    (((callbacks r.1 ≡ 1) × (r.0.state ≡ api_idle))
      ⊎ ((callbacks r.1 ≡ 0) × Goes requesting.state r.0.state))
    × ChainEffect kernel 7 requesting.socket r.1 watching
    × (sent_by r.1 ++ unsent r.0 ≡ unsent requesting)
handle_event_advances_example =
    handle_event_advances line_parser kernel 7 watching writable closed some_bytes requesting
      kernel_laws watching-IsTracked

-- "1 K" with two header fields of the same name and the body "BC", of which the second field and the
-- body come in two spans.
abbrev two_fields : Reply
two_fields = record {
  version = 49 ∷ [];
  status = 75 ∷ [];
  fields = (72 ∷ [], 86 ∷ []) ∷ (72 ∷ [], 87 ∷ 88 ∷ []) ∷ [];
  body = 66 ∷ 67 ∷ [];
}

abbrev reply_calls : List ParserCall
reply_calls =
    message_begin
    ∷ Http.ParserCall.on_version (49 ∷ [])
    ∷ Http.ParserCall.on_status (75 ∷ [])
    ∷ Http.ParserCall.on_header_field (72 ∷ [])
    ∷ Http.ParserCall.on_header_value (86 ∷ [])
    ∷ header_value_complete
    ∷ Http.ParserCall.on_header_field (72 ∷ [])
    ∷ Http.ParserCall.on_header_value (87 ∷ [])
    ∷ Http.ParserCall.on_header_value (88 ∷ [])
    ∷ header_value_complete
    ∷ headers_complete
    ∷ Http.ParserCall.on_body (66 ∷ [])
    ∷ Http.ParserCall.on_body (67 ∷ [])
    ∷ message_complete
    ∷ []

response_assembled_example :
    let c = deliver_all reply_calls (fresh requesting) in
    (c ≡ completed requesting two_fields)
    × (find (72 ∷ []) c.response.headers ≡ last_value (72 ∷ []) two_fields.fields)
response_assembled_example = response_assembled requesting (72 ∷ []) (
    reply (piece (49 ∷ []) done) (piece (75 ∷ []) done)
      (header (72 ∷ []) (86 ∷ []) (piece (72 ∷ []) done) (piece (86 ∷ []) done) (
        header (72 ∷ []) (87 ∷ 88 ∷ []) (piece (72 ∷ []) done)
          (piece (87 ∷ []) (piece (88 ∷ []) done)) no_header))
      (piece (66 ∷ []) (piece (67 ∷ []) done)))
