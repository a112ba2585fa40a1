-- ===== src/Tests/BooksTests.antt =====
-- The server of example/server.cpp on concrete inputs: one client asks for `/` and gets its answer.
use asynchronous_http_web_se.Base.{
  ◌++◌, sym, ◌∙◌, subst, Option-cases, ℕ, ◌+◌, ◌≡◌, refl, inl, inr, Bool, true, false, List, [],
  ◌∷◌, Option, none, some, ℤ, pos, int_key, Bytes, text, length, arith,
}
use asynchronous_http_web_se.SafeMap.{get, insert, empty, get_size, remove}
use asynchronous_http_web_se.SafeMap.Laws.{get-empty}
use asynchronous_http_web_se.StdMap.{find, assign}
use asynchronous_http_web_se.Epoll.{EpollEvent, epollin, epollout, has}
use asynchronous_http_web_se.SocketIo.{received, recv_failed, Outbound, took, would_block}
use asynchronous_http_web_se.Reactor.{
  Tracker, add_track, remove_track, async_accept, Wait, ready, new_reactor,
}
use asynchronous_http_web_se.Reactor.Tracking.{new_reactor-IsTracked}
use asynchronous_http_web_se.Calls.Adding.{async_accept-OnlyAdds}
use asynchronous_http_web_se.Calls.{sent_by}
use asynchronous_http_web_se.Client.{ClientConnection, new_client, fill_recv_buffer}
use asynchronous_http_web_se.Client.Parsing.{receive}
use asynchronous_http_web_se.Client.Callbacks.{deliver}
use asynchronous_http_web_se.Client.Handler.{handle_event}
use asynchronous_http_web_se.Client.Handler.Sending.{write_events}
use asynchronous_http_web_se.Db.Handler.{PqAnswers, polling_active}
use asynchronous_http_web_se.Pooler.{Frame, sends, run, empty_pool, DbPooler}
use asynchronous_http_web_se.Pooler.Ending.{work}
use asynchronous_http_web_se.Registry.{create, World, start, destroy}
use asynchronous_http_web_se.Registry.Parents.{start-IsSound}
use asynchronous_http_web_se.Sockets.{AddrInfo, af_inet}
use asynchronous_http_web_se.Books.{Reply, Closure, accepts, JsonLib, Env, App, State}
use asynchronous_http_web_se.Http.Reading.{read_response}
use asynchronous_http_web_se.Books.Handlers.{
  reply_cost, sends_next, settle, root_page, insert_query,
}
use asynchronous_http_web_se.Books.Answering.{page_is_answered, settle_within, settle_ends}
use asynchronous_http_web_se.Books.Serving.{
  Setup, main, invoke, Ran, ran, too_few_arguments, null_pointer,
}
use asynchronous_http_web_se.Books.Safety.{IsSafe, client_of}
use asynchronous_http_web_se.Books.Safety.Events.{IsFresh}
use asynchronous_http_web_se.Books.Safety.Runs.{EndsSafe, main-EndsSafe, invoke-IsSafe}
use asynchronous_http_web_se.Tests.Kernel.{Watched, kernel, kernel_laws, watch, unwatch}
use asynchronous_http_web_se.Tests.LineParser.{line_parser, Part}

-- A line for each row.
abbrev pub lines_of : List (Bytes × Bytes) → Bytes
lines_of [] = []
lines_of ((id, title) ∷ rows) = id ++ (58 ∷ (title ++ (10 ∷ lines_of rows)))

-- A JSON value that is its own text; the empty text is none.
abbrev pub text_json : JsonLib Bytes
text_json = record {
  parse = λ s. elim s [ [] ↦ none | c ∷ more ↦ some (c ∷ more) ];
  int_value = λ j key. some (pos (length j));
  text_value = λ j key. some j;
  dump = λ j. some j;
  dump_rows = λ rows. some (lines_of rows);
}

-- Memory for one client at a time.
abbrev pub one_place : World → Option ℕ
one_place w = elim (w.objects 0) [ none ↦ some 0 | some o ↦ none ]

one_place-IsFresh : IsFresh one_place
one_place-IsFresh w a e = elim (Option-cases (w.objects 0)) [
  | inl f ↦ ground (arith, e, f)
  | inr (o, f) ↦ ground (arith, e, f)
]

abbrev pub quiet_db : PqAnswers
quiet_db = record {
  polled = polling_active;
  flush_out = pos 0;
  consumed = pos 1;
  flush_in = pos 0;
  is_busy = pos 0;
  fetched = [];
}

-- A client is accepted with descriptor 30, sends "G / 1", a header field and the body "B", and takes
-- the response at once.
abbrev pub one_client : ℕ → Env
one_client n = record {
  accepting = record { accepted = some 30; nonblocking_set = true; known_family = true };
  uuid = 1 ∷ 2 ∷ [];
  inbound = received (71 ∷ 47 ∷ 49 ∷ 72 ∷ 86 ∷ 66 ∷ 0 ∷ []) recv_failed;
  outbound = took 1000 would_block;
  pq = quiet_db;
}

abbrev resolves : ℕ → Bool → Option Bytes → Bytes → Option (List AddrInfo)
resolves family passive address port =
    some (record { ai_family = af_inet; ai_addr = 127 ∷ 0 ∷ 0 ∷ 1 ∷ []; ai_canonname = none } ∷ [])

abbrev pub blank : ClientConnection Part
blank = new_client line_parser (pos 30) []

abbrev pub no_connections : Setup Watched Part
no_connections = record {
  epollfd = λ _. none;
  started = λ i. false;
  db_fd = λ i. pos (20 + i);
  memory = λ _. blank;
  system = record { open_fds = pos 3 ∷ []; allocated = 0; listening = [] };
  resolve = resolves;
  listening = record { new_fd = some 4; reuse_set = true; nonblocking_set = true };
  binding = record { bound = true; listens = true };
}

abbrev accept_read_write : List Wait
accept_read_write =
    ready (record { events = epollin; fd = pos 4 } ∷ [])
    ∷ ready (record { events = epollin; fd = pos 30 } ∷ [])
    ∷ ready (record { events = epollout; fd = pos 30 } ∷ [])
    ∷ []

abbrev pub arguments : List Bytes
arguments = text "server" ∷ text "0.0.0.0" ∷ text "8080" ∷ []

unfoldable pub answers_succeed : ℕ → ℤ × ℤ
answers_succeed n = (pos 1, pos 0)

abbrev whole_run : Ran Watched Part
whole_run =
    main kernel line_parser text_json one_place answers_succeed one_client no_connections
      accept_read_write arguments

main-EndsSafe_example : EndsSafe kernel whole_run
main-EndsSafe_example =
    main-EndsSafe kernel kernel_laws line_parser text_json one_place one_place-IsFresh
      answers_succeed one_client no_connections accept_read_write arguments (λ j. refl)

abbrev closed_by : Ran Watched Part → List ℤ
closed_by too_few_arguments = []
closed_by null_pointer = []
closed_by (ran s outcome) = s.1.world.closed

-- The run ends with the socket of the client closed once.
client_is_closed : closed_by whole_run ≡ pos 30 ∷ []
unfolding main get_size insert empty get has add_track watch handle_event receive fill_recv_buffer
    deliver remove_track unwatch remove destroy
client_is_closed = refl

-- The state before the listening socket is registered, with an idle connection in the pool.
abbrev pub one_idle : DbPooler Reply
one_idle = record (empty_pool 1) {
  connected_count = 1;
  idle_count = 1;
  connected_conns = 0 ∷ [];
  available_conns = 0 ∷ [];
  is_ready = true;
}

abbrev pub waiting_client : ClientConnection Part
waiting_client = record blank {
  is_request_complete = true;
  request = record blank.request { url = text "/"; body = text "B" };
}

abbrev pub at_start : App Part
at_start = record {
  world = start;
  clients = λ _. waiting_client;
  pool = one_idle;
  system = record { open_fds = pos 4 ∷ pos 3 ∷ []; allocated = 0; listening = [] };
  served = 0;
  crashed = false;
  misused = false;
}

abbrev pub idle_server : State Watched Part
idle_server = ((async_accept kernel (new_reactor (λ _. none)).tracker (pos 4) accepts).0, at_start)

idle_server-IsSafe : IsSafe kernel idle_server
unfolding start new_reactor
idle_server-IsSafe =
    let t : Tracker Watched Closure = (new_reactor (λ _. none)).tracker in
    let tracked = new_reactor-IsTracked kernel (λ _. none) (λ j. refl) in
    let adds = async_accept-OnlyAdds kernel kernel_laws (pos 4) accepts t tracked in
    record {
      tracked = adds.0;
      sound = start-IsSound;
      well_used = refl;
      sockets = λ a o e. cc;
      lives = λ fd closure a e own. elim (adds.1 fd closure e) [
        | inl old ↦ let e' = sym (get-empty {V = Closure} fd) ∙ old in cc
        | inr (at_fd, same) ↦
            let own' : client_of accepts ≡ some a =
              subst (λ (c : Closure). client_of c ≡ some a) same own in
            cc
      ];
    }

abbrev pub knock : EpollEvent
knock = record { events = epollin; fd = pos 4 }

invoke-IsSafe_example : IsSafe kernel (
    invoke kernel line_parser text_json one_place answers_succeed one_client accepts knock
      idle_server)
unfolding async_accept get insert new_reactor empty find assign
invoke-IsSafe_example =
    invoke-IsSafe kernel kernel_laws line_parser text_json one_place one_place-IsFresh
      answers_succeed one_client accepts knock idle_server refl idle_server-IsSafe

abbrev in_two_parts : List Outbound
in_two_parts = took 20 would_block ∷ took 64 would_block ∷ []

-- The same with the client in the registry.
abbrev pub busy_server : State Watched Part
busy_server = (
  idle_server.0,
  record at_start { world = create 0 (record { connection_id = 9 ∷ []; socket = pos 30 }) start },
)

abbrev answered : ClientConnection Part
answered = (root_page kernel text_json 0 busy_server).1.clients 0

page_is_answered_example :
    read_response (sent_by (write_events line_parser in_two_parts answered).1) ≡ some (text "B", [])
unfolding new_client root_page create start handle_event write_events has
page_is_answered_example =
    page_is_answered kernel text_json line_parser 0 busy_server (text "B") in_two_parts
      (record { connection_id = 9 ∷ []; socket = pos 30 }, refl) refl refl refl
      ((omega arith, tt), ((omega arith, tt), tt)) (λ e. absurd (omega (arith, e))) refl

abbrev insert_call : List (Frame Reply)
insert_call = sends (insert_query (1 ∷ 2 ∷ []) (pos 7) (text "Emma")) ∷ []

-- A query waits beside an idle connection.
abbrev stranded : DbPooler Reply
stranded = record one_idle { pending_queries = insert_query (9 ∷ []) (pos 8) (text "Anna") ∷ [] }

abbrev stranded_server : State Watched Part
stranded_server = (idle_server.0, record at_start { pool = stranded })

settle_ends_example :
    ((run answers_succeed
        (sends_next stranded_server.1)
        (work reply_cost insert_call stranded)
        insert_call
        stranded).frames
      ≡ [])
    × (settle_within kernel text_json answers_succeed
          (work reply_cost insert_call stranded + 5)
          insert_call
          stranded_server
        ≡ settle kernel text_json answers_succeed insert_call stranded_server)
unfolding empty_pool
settle_ends_example = settle_ends kernel text_json answers_succeed insert_call 5 stranded_server
