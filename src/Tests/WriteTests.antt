-- ===== src/Tests/WriteTests.antt =====
-- A `write` of a response on concrete inputs, up to its callback.
use asynchronous_http_web_se.Base.{◌≡◌, refl, List, [], ◌∷◌, arith}
use asynchronous_http_web_se.SocketIo.{Outbound, took, would_block}
use asynchronous_http_web_se.Calls.{callbacks}
use asynchronous_http_web_se.Client.{ClientConnection, new_client}
use asynchronous_http_web_se.Client.Handler.{handle_event}
use asynchronous_http_web_se.Client.Handler.Sending.{write_events, unsent}
use asynchronous_http_web_se.Client.Handler.Completing.{write_events_complete, empty_write_stalls}
use asynchronous_http_web_se.Tests.Kernel.{socket5}
use asynchronous_http_web_se.Tests.LineParser.{line_parser, Part}

abbrev accepted : ClientConnection Part
accepted = new_client line_parser socket5 (1 ∷ 2 ∷ [])

abbrev answering : ClientConnection Part
answering = record accepted { send_buffer = 1 ∷ 2 ∷ 3 ∷ [] }

abbrev byte_by_byte : List Outbound
byte_by_byte = took 1 would_block ∷ took 1 would_block ∷ took 1 would_block ∷ []

write_events_complete_example :
    let r = write_events line_parser byte_by_byte answering in
    (callbacks r.1 ≡ 1) × (r.0.is_error ≡ answering.is_error) × (unsent r.0 ≡ [])
unfolding new_client
write_events_complete_example =
    write_events_complete line_parser byte_by_byte answering
      ((omega arith, tt), ((omega arith, tt), ((omega arith, tt), tt))) (omega arith) (omega arith)

abbrev two_events : List Outbound
two_events = took 0 would_block ∷ would_block ∷ []

empty_write_stalls_example : write_events line_parser two_events accepted ≡ (accepted, [])
unfolding new_client handle_event
empty_write_stalls_example =
    empty_write_stalls line_parser two_events accepted refl ((omega arith, tt), (tt, tt))
      (tt, (tt, tt))
