-- ===== src/Db/Handler.antt =====
-- `Dbconnection::handleEvent`.
pub mod Machine
pub mod Turns
use asynchronous_http_web_se.Base.{
  ℕ, Bool, true, false, ◌&&◌, ◌||◌, List, [], ◌∷◌, ℤ, pos, int_key, ◌=?◌, minus_one, if◌then◌else◌,
}
use asynchronous_http_web_se.Epoll.{
  EpollEvent, has, epollin, epollout, epollerr, read_mask, write_mask,
}
use asynchronous_http_web_se.Reactor.{helper_sock}
use asynchronous_http_web_se.Calls.{Call, modifies, untracks, calls_back}
use asynchronous_http_web_se.Db.{
  DbConnection, DbConnectionState, idle, not_connected, connecting, connected, sending_query,
  reading_response, Handled,
}
use asynchronous_http_web_se.Db.Results.{PgResult, store_results}

-- `PostgresPollingStatusType`
pub data PollingStatus : Type 0 where
  polling_failed polling_reading polling_writing polling_ok polling_active : PollingStatus

-- What libpq's functions give during one event: `PQconnectPoll`, the `PQflush` for EPOLLOUT,
-- `PQconsumeInput`, the `PQflush` for EPOLLIN, `PQisBusy`, and the results before NULL.
pub record PqAnswers : Type 0 where
  pub polled : PollingStatus
  pub flush_out : ℤ
  pub consumed : ℤ
  pub flush_in : ℤ
  pub is_busy : ℤ
  pub fetched : List PgResult

-- `is_error = true; ioc->removeTrack(this->socket); cb(this); return;`
unfoldable pub fail : DbConnection → Handled
fail conn = (record conn { is_error = true }, untracks conn.socket ∷ calls_back ∷ [])

unfoldable pub poll_connect : PollingStatus → DbConnection → Handled
unfolding fail
poll_connect polling_reading conn = (conn, modifies conn.socket read_mask helper_sock ∷ [])
poll_connect polling_writing conn = (conn, modifies conn.socket write_mask helper_sock ∷ [])
poll_connect polling_failed conn = fail conn
poll_connect polling_ok conn =
    (record conn { connection_state = connected }, untracks conn.socket ∷ calls_back ∷ [])
poll_connect polling_active conn = (conn, [])

-- The end of the branch for SENDING_QUERY, at the value of `flushStatus` there.
unfoldable pub after_flush : ℤ → DbConnection → Handled
after_flush flush_status conn =
    if flush_status =? pos 0
    then (
      record conn { connection_state = reading_response },
      modifies conn.socket read_mask helper_sock ∷ [],
    )
    else (conn, [])

-- `flushStatus` starts as 1; each of the two parts may set it, or fail.
unfoldable pub flush_query : EpollEvent → PqAnswers → DbConnection → Handled
unfolding fail after_flush
flush_query ev pq conn =
    let flushed = if has ev.events epollout then pq.flush_out else pos 1 in
    if has ev.events epollout && flushed =? minus_one
    then fail conn
    else if has ev.events epollin
    then (if pq.flush_in =? minus_one || pq.consumed =? pos 0
        then fail conn
        else after_flush pq.flush_in conn)
    else after_flush flushed conn

unfoldable pub read_response : PqAnswers → DbConnection → Handled
unfolding fail store_results
read_response pq conn =
    let (stored, calls) = store_results pq.fetched (record conn { connection_state = idle }) in
    if pq.consumed =? pos 0
    then (
      record conn { is_error = true; connection_state = idle },
      untracks conn.socket ∷ calls_back ∷ [],
    )
    else if pq.is_busy =? pos 1
    then (conn, [])
    else if pq.is_busy =? pos 0
    then (stored, untracks conn.socket ∷ calls)
    else (conn, [])

-- The branches on `connection_state`.
unfoldable pub dispatch : DbConnectionState → EpollEvent → PqAnswers → DbConnection → Handled
unfolding poll_connect flush_query read_response
dispatch connecting ev pq conn = poll_connect pq.polled conn
dispatch sending_query ev pq conn = flush_query ev pq conn
dispatch reading_response ev pq conn = read_response pq conn
dispatch idle ev pq conn = (conn, [])
dispatch not_connected ev pq conn = (conn, [])
dispatch connected ev pq conn = (conn, [])

unfoldable pub handle_event : EpollEvent → PqAnswers → DbConnection → Handled
unfolding fail dispatch
handle_event ev pq conn =
    if has ev.events epollerr then fail conn else dispatch conn.connection_state ev pq conn
