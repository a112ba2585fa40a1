-- ===== src/Tests/SharingTests.antt =====
-- The server of example/server.cpp while a connection of its pool is at work on the query of a
-- client.
use asynchronous_http_web_se.Base.{
  ℕ, false, arith, ◌≡◌, ◌==◌, refl, List, [], ◌∷◌, none, some, pos, int_key, nat_key,
}
use asynchronous_http_web_se.SafeMap.{get, insert, empty, get_size, remove}
use asynchronous_http_web_se.StdMap.{find, assign, erase}
use asynchronous_http_web_se.Epoll.{EpollEvent, epollerr, epollin, epollout, has}
use asynchronous_http_web_se.SocketIo.{received, recv_failed}
use asynchronous_http_web_se.Reactor.{
  Tracker, new_reactor, add_track, modify_track, remove_track, Wait, ready,
}
use asynchronous_http_web_se.Client.{fill_recv_buffer}
use asynchronous_http_web_se.Client.Parsing.{receive}
use asynchronous_http_web_se.Client.Callbacks.{deliver}
use asynchronous_http_web_se.Client.Handler.{handle_event}
use asynchronous_http_web_se.Db.{new_db, send_query}
use asynchronous_http_web_se.Db.Handler.{polling_ok}
use asynchronous_http_web_se.Db.Handler as DbHandler
use asynchronous_http_web_se.Calls.{perform}
use asynchronous_http_web_se.Books.{Closure, Env, App, inserted, queries}
use asynchronous_http_web_se.Pooler.{empty_pool}
use asynchronous_http_web_se.Books.Failing.{failed_query_leaves_client}
use asynchronous_http_web_se.Books.Serving.{
  on_query, Setup, main, Ran, ran, too_few_arguments, null_pointer,
}
use asynchronous_http_web_se.Books.Sharing.Runs.{EndsApart, main-EndsApart}
use asynchronous_http_web_se.Tests.Kernel.{Watched, kernel, kernel_laws, watch, unwatch}
use asynchronous_http_web_se.Tests.LineParser.{line_parser, Part}
use asynchronous_http_web_se.Tests.BooksTests.{
  at_start, one_idle, text_json, one_place, quiet_db, one_client, no_connections, arguments,
  answers_succeed,
}

-- Only connection 0 is started, with socket 20.
abbrev one_connection : Setup Watched Part
one_connection = record no_connections { started = λ i. i == 0 }

-- The connection is established at the first event; the client asks for "A" and not for "/".
abbrev inserting_client : ℕ → Env
inserting_client n = record (one_client n) {
  inbound = received (71 ∷ 65 ∷ 49 ∷ 72 ∷ 86 ∷ 66 ∷ 0 ∷ []) recv_failed;
  pq = record quiet_db { polled = polling_ok };
}

abbrev connect_accept_read : List Wait
connect_accept_read =
    ready (record { events = epollout; fd = pos 20 } ∷ [])
    ∷ ready (record { events = epollin; fd = pos 4 } ∷ [])
    ∷ ready (record { events = epollin; fd = pos 30 } ∷ [])
    ∷ []

abbrev query_run : Ran Watched Part
query_run =
    main kernel line_parser text_json one_place answers_succeed inserting_client one_connection
      connect_accept_read arguments

main-EndsApart_example : EndsApart query_run
main-EndsApart_example =
    main-EndsApart kernel kernel_laws line_parser text_json one_place answers_succeed
      inserting_client one_connection connect_accept_read arguments (λ j. refl)

abbrev at_work : Ran Watched Part → List ℕ
at_work too_few_arguments = []
at_work null_pointer = []
at_work (ran s outcome) = elim (find 0 s.1.pool.in_use) [
  | none ↦ []
  | some q ↦ 0 ∷ s.1.pool.available_conns
]

-- At the end of the run connection 0 is at work, and none is idle.
query_is_sent : at_work query_run ≡ 0 ∷ []
unfolding main get_size insert empty get has add_track watch handle_event receive fill_recv_buffer
    deliver remove_track unwatch remove find assign modify_track answers_succeed new_db send_query
query_is_sent = refl

-- The pool while its only connection is at work on the INSERT of a client, and the socket of the
-- connection breaks.
abbrev inserting : App Part
inserting = record at_start {
  pool = record one_idle { idle_count = 0; available_conns = []; in_use = (0, inserted) ∷ [] };
}

abbrev broken : EpollEvent
broken = record { events = epollerr; fd = pos 20 }

failed_query_leaves_client_example :
    let t : Tracker Watched Closure = (new_reactor (λ _. none)).tracker in
    let calls = (DbHandler.handle_event broken quiet_db (inserting.pool.heap 0)).1 in
    let s = on_query kernel text_json answers_succeed 0 (one_client 0) broken (t, inserting) in
    (s.0 ≡ perform kernel (queries 0) calls t)
    × (s.1.world ≡ inserting.world)
    × (s.1.clients ≡ inserting.clients)
    × (s.1.system ≡ inserting.system)
    × (s.1.pool.in_use ≡ erase 0 inserting.pool.in_use)
    × (s.1.crashed ≡ false)
unfolding find has DbHandler.handle_event DbHandler.fail empty_pool
failed_query_leaves_client_example =
    failed_query_leaves_client kernel text_json answers_succeed 0 (one_client 0) broken
      (new_reactor (λ _. none)).tracker inserting inserted refl (λ e. absurd (omega (arith, e)))
      refl refl refl
