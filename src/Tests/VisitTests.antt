-- ===== src/Tests/VisitTests.antt =====
-- A visit to the server of example/server.cpp on concrete inputs: the request comes in two pieces and
-- the answer goes out in two pieces.
use asynchronous_http_web_se.Base.{
  ℕ, int_key, inl, Bytes, ◌-◌, ◌≡◌, refl, true, false, List, [], ◌∷◌, ◌++◌, none, some, pos, length,
  arith,
}
use asynchronous_http_web_se.SafeMap.{get, insert, empty}
use asynchronous_http_web_se.Epoll.{EpollEvent, epollin, epollout, has, remove_epoll_interest}
use asynchronous_http_web_se.SocketIo.{closed, took, would_block}
use asynchronous_http_web_se.Reactor.{async_accept, new_reactor, reactor_run}
use asynchronous_http_web_se.Reactor.Dispatch.{one_by_one}
use asynchronous_http_web_se.Reactor.Tracking.{
  IsTracked, async_accept-IsTracked, new_reactor-IsTracked,
}
use asynchronous_http_web_se.Calls.{sent_by}
use asynchronous_http_web_se.Client.Handler.{handle_event}
use asynchronous_http_web_se.Client.Handler.Reading.{Arrives, earlier, last_piece, pieces}
use asynchronous_http_web_se.Client.Parsing.InPlace.{parse_bytes}
use asynchronous_http_web_se.Registry.{start}
use asynchronous_http_web_se.Sockets.{accept_connection}
use asynchronous_http_web_se.Books.{Closure, accepts, JsonLib, Env, State}
use asynchronous_http_web_se.Books.Text.{response_text}
use asynchronous_http_web_se.Http.Reading.{read_response}
use asynchronous_http_web_se.Books.Visiting.Asking.{serves}
use asynchronous_http_web_se.Books.Visiting.Answered.{visit_is_answered}
use asynchronous_http_web_se.Books.Visiting.Crashing.{bad_member_ends_server}
use asynchronous_http_web_se.Tests.Kernel.{Watched, kernel, kernel_laws, watch, unwatch}
use asynchronous_http_web_se.Tests.LineParser.{
  line_parser, Part, key_part, method_part, first_method,
}
use asynchronous_http_web_se.Tests.ClientTests.{first_calls, last_calls, two_pieces, short_calls}
use asynchronous_http_web_se.Tests.BooksTests.{
  text_json, one_place, quiet_db, answers_succeed, idle_server, knock,
}

abbrev visitor : ℕ → Env
visitor n = record {
  accepting = record { accepted = some 30; nonblocking_set = true; known_family = true };
  uuid = 1 ∷ 2 ∷ [];
  inbound = pieces two_pieces closed;
  outbound = took 20 (took (length (response_text (66 ∷ [])) - 20) would_block);
  pq = quiet_db;
}

arrives : Arrives line_parser first_method two_pieces (first_calls ++ last_calls)
unfolding parse_bytes
arrives =
    earlier first_method key_part (71 ∷ 47 ∷ 49 ∷ []) first_calls refl tt
      (last_piece key_part method_part (72 ∷ 86 ∷ 66 ∷ 0 ∷ []) last_calls refl)

abbrev request_ready : EpollEvent
request_ready = record { events = epollin; fd = pos 30 }

abbrev room_to_write : EpollEvent
room_to_write = record { events = epollout; fd = pos 30 }

abbrev serves_visitor : List EpollEvent → State Watched Part
serves_visitor evs =
    (reactor_run (serves kernel line_parser text_json one_place answers_succeed visitor)
      (one_by_one evs) [] idle_server).0

idle_server-IsTracked : IsTracked kernel idle_server.0
unfolding new_reactor
idle_server-IsTracked =
    async_accept-IsTracked kernel kernel_laws (new_reactor (λ _. none)).tracker (pos 4) accepts
      (new_reactor-IsTracked kernel (λ _. none) (λ j. refl))

visit_is_answered_example :
    let to_write = serves_visitor (knock ∷ request_ready ∷ []) in
    let at_end = serves_visitor (knock ∷ request_ready ∷ room_to_write ∷ []) in
    let r =
      handle_event line_parser room_to_write
        (visitor 2).inbound
        (visitor 2).outbound
        (to_write.1.clients 0) in
    (read_response (sent_by r.1) ≡ some (66 ∷ [], []))
    × (at_end.1.world.objects 0 ≡ none)
    × (at_end.1.world.closed ≡ pos 30 ∷ [])
    × (at_end.1.system.open_fds ≡ pos 4 ∷ pos 3 ∷ [])
    × (get (pos 30) at_end.0.event_callback ≡ none)
    × (at_end.1.crashed ≡ false)
unfolding async_accept new_reactor insert empty get has accept_connection start watch unwatch
    response_text remove_epoll_interest
visit_is_answered_example =
    visit_is_answered kernel kernel_laws line_parser text_json one_place answers_succeed visitor
      idle_server (pos 30) 0 knock request_ready closed (66 ∷ []) _ _ idle_server-IsTracked refl
      refl refl refl refl refl refl refl refl refl refl refl short_calls arrives refl refl refl
      (omega arith, (omega arith, tt))
      (omega arith, omega arith, λ e. (omega arith, omega arith, λ e'. absurd (e' (omega arith))))

-- A JSON library for which no value is a number.
abbrev no_numbers : JsonLib Bytes
no_numbers = record text_json { int_value = λ j key. none }

bad_member_ends_server_example :
    let runs = serves kernel line_parser no_numbers one_place answers_succeed visitor in
    let at_end = (reactor_run runs (one_by_one (knock ∷ request_ready ∷ [])) [] idle_server).0 in
    (at_end.1.crashed ≡ true) × ((cb : Closure) (ev : EpollEvent) → runs cb ev at_end ≡ at_end)
unfolding async_accept new_reactor insert empty get has accept_connection start watch
bad_member_ends_server_example =
    bad_member_ends_server kernel line_parser no_numbers one_place answers_succeed visitor
      idle_server (pos 30) 0 knock request_ready closed (66 ∷ []) _ refl refl refl refl refl refl
      refl refl refl refl refl refl short_calls arrives refl (inl refl)
