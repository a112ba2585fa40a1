-- ===== src/Tests/FetchTests.antt =====
-- The client of example/client.cpp on concrete inputs: it connects, sends its request, and gets a
-- response of which the connection ends.
use asynchronous_http_web_se.Base.{
  ◌++◌, ℕ, ◌≡◌, refl, Bool, true, List, [], ◌∷◌, Option, none, some, ℤ, pos, Bytes, text,
}
use asynchronous_http_web_se.SafeMap.{insert, empty, get, get_size, remove}
use asynchronous_http_web_se.Epoll.{EpollEvent, epollin, epollout, has}
use asynchronous_http_web_se.SocketIo.{Inbound, closed, Outbound, took, would_block}
use asynchronous_http_web_se.Reactor.{
  new_reactor, Wait, ready, Outcome, add_track, modify_track, remove_track,
}
use asynchronous_http_web_se.Sockets.{AddrInfo, connect_pending, af_inet}
use asynchronous_http_web_se.Fetch.{Setup, State, main, on_connected, request_text}
use asynchronous_http_web_se.Fetch.Sending.{request_events, request_is_sent}
use asynchronous_http_web_se.Calls.{sent_by}
use asynchronous_http_web_se.Api.{new_api, api_sending}
use asynchronous_http_web_se.Api.Handler.Machine.{unsent}
use asynchronous_http_web_se.Fetch.Safety.{EndsClean, main-EndsClean}
use asynchronous_http_web_se.Tests.Kernel.{Watched, kernel, kernel_laws, watch, unwatch}
use asynchronous_http_web_se.Tests.LineParser.{line_parser, Part}

abbrev resolves : ℕ → Bool → Option Bytes → Bytes → Option (List AddrInfo)
resolves family passive address port =
    some (record { ai_family = af_inet; ai_addr = 127 ∷ 0 ∷ 0 ∷ 1 ∷ []; ai_canonname = none } ∷ [])

abbrev one_socket : Setup Watched
one_socket = record {
  epollfd = λ _. none;
  garbage = pos 77;
  system = record { open_fds = pos 3 ∷ []; allocated = 0; listening = [] };
  resolve = resolves;
  answers = record { new_fd = some 5; reuse_set = true; nonblocking_set = true };
  connecting = connect_pending;
}

-- The request goes out in one piece, and then the other side closes the connection.
abbrev one_send : ℕ → Inbound × Outbound
one_send n = (closed, took 56 would_block)

abbrev three_events : List Wait
three_events =
    ready (record { events = epollout; fd = pos 5 } ∷ [])
    ∷ ready (record { events = epollout; fd = pos 5 } ∷ [])
    ∷ ready (record { events = epollin; fd = pos 5 } ∷ [])
    ∷ []

abbrev arguments : List Bytes
arguments = text "client" ∷ text "127.0.0.1" ∷ text "8080" ∷ []

abbrev whole_fetch : Option (State Watched Part × Outcome)
whole_fetch = main kernel line_parser one_socket one_send three_events arguments

main-EndsClean_example : EndsClean kernel whole_fetch
main-EndsClean_example =
    main-EndsClean kernel kernel_laws line_parser one_socket one_send three_events arguments
      (λ j. refl)

abbrev closed_by : Option (State Watched Part × Outcome) → List ℤ
closed_by none = []
closed_by (some (s, outcome)) = s.1.closed

-- The run ends with the connection deleted once.
connection_is_closed : closed_by whole_fetch ≡ pos 5 ∷ []
unfolding main get_size insert empty get has add_track modify_track watch remove_track unwatch
    remove
connection_is_closed = refl

abbrev connected : State Watched Part
connected = (
  (new_reactor (λ _. none)).tracker,
  record {
    conn = new_api line_parser (text "") (pos 5);
    closed = [];
    system = one_socket.system;
    printed = [];
    served = 0;
  },
)

abbrev two_sends : List (EpollEvent × Inbound × Outbound)
two_sends =
    (record { events = epollout; fd = pos 5 }, closed, took 20 would_block)
    ∷ (record { events = epollout; fd = pos 5 }, closed, took 36 would_block)
    ∷ []

request_is_sent_example :
    let conn = (on_connected kernel connected).1.conn in
    let r = request_events line_parser two_sends conn in
    (conn.state ≡ api_sending) × (sent_by r.1 ++ unsent r.0 ≡ request_text)
unfolding new_api
request_is_sent_example = request_is_sent line_parser kernel connected two_sends refl refl refl
