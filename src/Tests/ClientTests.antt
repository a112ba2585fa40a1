-- ===== src/Tests/ClientTests.antt =====
-- `Clientconnection` on concrete inputs.
use asynchronous_http_web_se.Base.{
  ◌≡◌, refl, ◌⊎◌, inl, inr, ◌≤◌, true, List, [], ◌∷◌, ◌++◌, Bytes, bytes_key, arith, length,
}
use asynchronous_http_web_se.Http.{
  ParserCall, message_begin, header_value_complete, headers_complete, message_complete,
}
use asynchronous_http_web_se.Http
use asynchronous_http_web_se.StdMap.{find}
use asynchronous_http_web_se.SocketIo.{Outbound, received, closed, would_block, took}
use asynchronous_http_web_se.Epoll.{EpollEvent, epollin, has}
use asynchronous_http_web_se.Calls.{untracks, calls_back, sent_by, callbacks}
use asynchronous_http_web_se.Calls.Once.{OneShotEffect}
use asynchronous_http_web_se.Client.{ClientConnection, new_client, fill_recv_buffer}
use asynchronous_http_web_se.Client.Parsing.{deliver_all, parser_step, receive}
use asynchronous_http_web_se.Client.Parsing.InPlace.{parse_bytes, receive-eq-parse_bytes}
use asynchronous_http_web_se.Client.Parsing.Pipelined.{receive_loses_pipelined}
use asynchronous_http_web_se.Client.Message.{
  Message, MessageCalls, message, piece, done, no_header, header, request_of, last_value,
}
use asynchronous_http_web_se.Client.Assembly.{request_assembled, completed, fresh}
use asynchronous_http_web_se.Client.Handler.{handle_event}
use asynchronous_http_web_se.Client.Handler.Once.{handle_event_once}
use asynchronous_http_web_se.Client.Handler.Reading.{
  Arrives, earlier, last_piece, pieces, handle_event_reads_request,
}
use asynchronous_http_web_se.Client.Handler.Sending.{
  write_events, write_events_send_response, unsent,
}
use asynchronous_http_web_se.Tests.Kernel.{
  kernel, kernel_laws, socket5, watching, watching-IsTracked,
}
use asynchronous_http_web_se.Tests.LineParser.{
  line_parser, Part, key_part, method_part, first_method,
}

abbrev accepted : ClientConnection Part
accepted = new_client line_parser socket5 (1 ∷ 2 ∷ [])

-- "G / 1" with one header field "H: V" and the body "B"
abbrev pub short_message : Message
short_message = record {
  http_method = 71 ∷ [];
  url = 47 ∷ [];
  version = 49 ∷ [];
  fields = (72 ∷ [], 86 ∷ []) ∷ [];
  body = 66 ∷ [];
}

abbrev pub first_calls : List ParserCall
first_calls =
    message_begin
    ∷ Http.ParserCall.on_method (71 ∷ [])
    ∷ Http.ParserCall.on_url (47 ∷ [])
    ∷ Http.ParserCall.on_version (49 ∷ [])
    ∷ []

abbrev pub last_calls : List ParserCall
last_calls =
    Http.ParserCall.on_header_field (72 ∷ [])
    ∷ Http.ParserCall.on_header_value (86 ∷ [])
    ∷ header_value_complete
    ∷ headers_complete
    ∷ Http.ParserCall.on_body (66 ∷ [])
    ∷ message_complete
    ∷ []

pub short_calls : MessageCalls short_message (first_calls ++ last_calls)
short_calls =
    message (piece (71 ∷ []) done) (piece (47 ∷ []) done) (piece (49 ∷ []) done)
      (header (72 ∷ []) (86 ∷ []) (piece (72 ∷ []) done) (piece (86 ∷ []) done) no_header)
      (piece (66 ∷ []) done)

abbrev pub two_pieces : List Bytes
two_pieces = (71 ∷ 47 ∷ 49 ∷ []) ∷ (72 ∷ 86 ∷ 66 ∷ 0 ∷ []) ∷ []

arrives : Arrives line_parser accepted.parser two_pieces (first_calls ++ last_calls)
unfolding new_client parse_bytes
arrives =
    earlier first_method key_part (71 ∷ 47 ∷ 49 ∷ []) first_calls refl tt
      (last_piece key_part method_part (72 ∷ 86 ∷ 66 ∷ 0 ∷ []) last_calls refl)

abbrev readable : EpollEvent
readable = record { events = epollin; fd = socket5 }

handle_event_reads_request_example :
    let r = handle_event line_parser readable (pieces two_pieces closed) would_block accepted in
    (r.0.request ≡ request_of short_message)
    × (r.0.is_request_complete ≡ true)
    × (r.0.is_error ≡ accepted.is_error)
    × (r.1 ≡ untracks accepted.socket ∷ calls_back ∷ [])
    × (handle_event line_parser readable
          (pieces two_pieces (received (71 ∷ []) closed))
          would_block
          accepted
        ≡ r)
unfolding has new_client
handle_event_reads_request_example =
    handle_event_reads_request line_parser readable closed (received (71 ∷ []) closed) would_block
      accepted refl refl short_calls arrives refl refl

request_assembled_example :
    let c = deliver_all (first_calls ++ last_calls) (fresh accepted) in
    (c ≡ completed accepted short_message)
    × (find (72 ∷ []) c.request.headers ≡ last_value (72 ∷ []) short_message.fields)
request_assembled_example = request_assembled accepted (72 ∷ []) short_calls

abbrev answering : ClientConnection Part
answering = record accepted { send_buffer = 1 ∷ 2 ∷ 3 ∷ 4 ∷ 5 ∷ [] }

-- Two bytes and then EAGAIN; then the other three.
abbrev two_events : List Outbound
two_events = took 2 would_block ∷ took 3 would_block ∷ []

write_events_send_response_example :
    let r = write_events line_parser two_events answering in
    (sent_by r.1 ++ unsent r.0 ≡ answering.send_buffer)
    × (r.0.sent_bytes ≤ length r.0.send_buffer)
    × ((callbacks r.1 ≡ 0) ⊎ ((r.0.is_error ≡ true) ⊎ (unsent r.0 ≡ [])))
unfolding has new_client handle_event
write_events_send_response_example =
    write_events_send_response line_parser two_events answering refl
      ((omega arith, tt), ((omega arith, tt), tt))

handle_event_once_example :
    OneShotEffect kernel 7 accepted.socket
      (handle_event line_parser readable closed would_block accepted).1
      watching
handle_event_once_example =
    handle_event_once line_parser kernel 7 watching readable closed would_block accepted kernel_laws
      watching-IsTracked

abbrev next_message : Bytes
next_message = 71 ∷ 47 ∷ 49 ∷ 72 ∷ 86 ∷ 66 ∷ 0 ∷ 80 ∷ []

receive_loses_pipelined_example :
    receive line_parser (next_message ++ (1 ∷ 2 ∷ [])) accepted
    ≡ receive line_parser (next_message ++ (3 ∷ 4 ∷ [])) accepted
unfolding new_client
receive_loses_pipelined_example =
    receive_loses_pipelined line_parser next_message (1 ∷ 2 ∷ []) (3 ∷ 4 ∷ []) accepted refl
      (inr (refl, inr (refl, inr (refl, inr (refl, inr (refl, inr (refl, inr (refl, inl tt))))))))

receive-eq-parse_bytes_example :
    receive line_parser (71 ∷ 47 ∷ 49 ∷ []) accepted
    ≡ parser_step line_parser
        (parse_bytes line_parser accepted.parser (71 ∷ 47 ∷ 49 ∷ []))
        (fill_recv_buffer (71 ∷ 47 ∷ 49 ∷ []) accepted)
unfolding new_client parse_bytes
receive-eq-parse_bytes_example = receive-eq-parse_bytes line_parser (71 ∷ 47 ∷ 49 ∷ []) accepted tt
