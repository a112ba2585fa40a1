-- ===== src/Tests/PoolerTests.antt =====
-- `DBpooler` on concrete inputs: an INSERT whose callback sends a SELECT.
use asynchronous_http_web_se.Base.{
  ℕ, ◌+◌, ◌≡◌, refl, inr, true, false, ◌==◌, List, [], ◌∷◌, ◌++◌, arith, ℤ, pos, text,
  if◌then◌else◌,
}
use asynchronous_http_web_se.Pooler.{delete_pool}
use asynchronous_http_web_se.Pooler.Deleting.{delete_pool_bounds}
use asynchronous_http_web_se.Base.{leb, length, take, some, none}
use asynchronous_http_web_se.StdMap.{find}
use asynchronous_http_web_se.Epoll.{EpollEvent, epollerr, has}
use asynchronous_http_web_se.Db.{DbConnection, new_db}
use asynchronous_http_web_se.Db.Handler.{PqAnswers, polling_active, handle_event, fail}
use asynchronous_http_web_se.Pooler.{
  Entry, hands, pool_send_query, PendingQuery, DbPooler, Frame, sends, run, run_callback, on_event,
  on_connected, empty_pool,
}
use asynchronous_http_web_se.Pooler.Conserving.{passing, run_loses_none}
use asynchronous_http_web_se.Pooler.Reusing.{failed_connection_is_reused}
use asynchronous_http_web_se.Pooler.Sending.{IsCounted, IsSettled, asked, handed}
use asynchronous_http_web_se.Pooler.Ending.{IsBounded}
use asynchronous_http_web_se.Pooler.Places.{places}
use asynchronous_http_web_se.Pooler.Connecting.{on_connected_strands}
use asynchronous_http_web_se.Pooler.Events.{event_settles}

data Reply : Type 0 where
  inserted selected : Reply

abbrev insert_query : PendingQuery Reply
insert_query = record { query = text "INSERT"; client = text "7"; cb = inserted }

abbrev select_query : PendingQuery Reply
select_query = record { query = text "SELECT"; client = text "7"; cb = selected }

abbrev sends_next : Reply → DbConnection → List (PendingQuery Reply)
sends_next inserted conn = select_query ∷ []
sends_next selected conn = []

abbrev reply_cost : Reply → ℕ
reply_cost inserted = 3
reply_cost selected = 1

sends_next-IsBounded : IsBounded reply_cost sends_next
sends_next-IsBounded inserted conn = omega arith
sends_next-IsBounded selected conn = omega arith

-- `PQsendQuery` fails the first time, and then the queries go out.
abbrev fails_first : ℕ → ℤ × ℤ
fails_first n = if n == 0 then (pos 0, pos 0) else (pos 1, pos 0)

abbrev one_idle : DbPooler Reply
one_idle = record (empty_pool 1) {
  connected_count = 1;
  idle_count = 1;
  connected_conns = 0 ∷ [];
  available_conns = 0 ∷ [];
  is_ready = true;
}

abbrev two_calls : List (Frame Reply)
two_calls = sends insert_query ∷ sends select_query ∷ []

-- The connection is at work on the INSERT, and a further query waits.
abbrev one_at_work : DbPooler Reply
one_at_work = record (empty_pool 1) {
  connected_count = 1;
  connected_conns = 0 ∷ [];
  is_ready = true;
  pending_queries = select_query ∷ [];
  in_use = (0, inserted) ∷ [];
}

abbrev answers : PqAnswers
answers = record {
  polled = polling_active;
  flush_out = pos 0;
  consumed = pos 1;
  flush_in = pos 0;
  is_busy = pos 0;
  fetched = [];
}

abbrev hang_up : EpollEvent
hang_up = record { events = epollerr; fd = pos 5 }

event_settles_example :
    let r = on_event fails_first sends_next hang_up answers 0 one_at_work in
    let s = run fails_first sends_next 20 r.frames r.pool in
    (s.frames ≡ [])
    × IsSettled s.pool
    × IsCounted s.pool
    × (places 0 s.frames s.pool ≡ places 0 [] one_at_work)
    × (handed s.log ++ s.pool.pending_queries ≡ one_at_work.pending_queries ++ asked s.log)
unfolding empty_pool on_event handle_event fail find run_callback has
event_settles_example =
    event_settles fails_first sends_next reply_cost sends_next-IsBounded 0 20 hang_up answers 0
      one_at_work refl (inr refl) (omega arith)

-- The connection is at work on the SELECT, and no query waits.
abbrev selecting : DbPooler Reply
selecting = record one_at_work { pending_queries = []; in_use = (0, selected) ∷ [] }

failed_connection_is_reused_example :
    let r = on_event fails_first sends_next hang_up answers 0 selecting in
    let s = run fails_first sends_next 2 r.frames r.pool in
    (s.frames ≡ [])
    × ((s.pool.heap 0).is_error ≡ false)
    × ((more : List (Entry Reply)) × (pool_send_query fails_first sends_next insert_query
            s.pool).log
          ≡ hands insert_query 0 ∷ more)
unfolding empty_pool find has
failed_connection_is_reused_example =
    failed_connection_is_reused fails_first sends_next hang_up answers 0 selected selecting
      insert_query refl refl refl refl refl

abbrev waits_early : DbPooler Reply
waits_early = record (empty_pool 1) { pending_queries = insert_query ∷ [] }

-- A query waits beside an idle connection.
abbrev stranded : DbPooler Reply
stranded = record one_idle { pending_queries = select_query ∷ [] }

run_loses_none_example :
    let r = run fails_first sends_next 20 two_calls stranded in
    passing (λ q. true) (handed r.log) + passing (λ q. true) r.pool.pending_queries
    ≡ passing (λ q. true) stranded.pending_queries + passing (λ q. true) (asked r.log)
unfolding empty_pool
run_loses_none_example =
    run_loses_none (λ q. true) fails_first sends_next 20 two_calls stranded refl

on_connected_strands_example : ¬ IsSettled (on_connected 0 waits_early)
unfolding empty_pool new_db
on_connected_strands_example = on_connected_strands 0 waits_early insert_query [] refl refl

-- Two of three connections were established.
abbrev short_pool : DbPooler Reply
short_pool = record (empty_pool 3) { connected_count = 2; connected_conns = 0 ∷ 2 ∷ [] }

delete_pool_bounds_example : delete_pool short_pool ≡ (
    if leb short_pool.pool_size (length short_pool.connected_conns)
    then some (take short_pool.pool_size short_pool.connected_conns)
    else none)
delete_pool_bounds_example = delete_pool_bounds short_pool
