-- ===== src/Db/Handler/Machine.antt =====
-- `Dbconnection` as a state machine: the ways in which one event goes.
use asynchronous_http_web_se.Base.{
  ℕ, ◌≡◌, refl, sym, subst, ◌⊎◌, inl, inr, Bool, true, ◌&&◌, ◌||◌, List, [], ◌∷◌, ℤ, pos, int_key,
  ◌=?◌, minus_one, if_cases, if◌then◌else◌,
}
use asynchronous_http_web_se.Epoll.{EpollEvent, has, epollin, epollout, epollerr}
use asynchronous_http_web_se.Reactor.{EventPriority}
use asynchronous_http_web_se.Calls.{Call, modifies, untracks, clears, calls_back}
use asynchronous_http_web_se.Db.{
  DbConnection, DbConnectionState, idle, not_connected, connecting, connected, sending_query,
  reading_response, Handled,
}
use asynchronous_http_web_se.Db.Results.{PgResult, is_bad, discard, store_results}
use asynchronous_http_web_se.Db.Handler.{
  PollingStatus, polling_failed, polling_reading, polling_writing, polling_ok, polling_active,
  PqAnswers, fail, poll_connect, after_flush, flush_query, read_response, dispatch, handle_event,
}

-- `PQclear`s and then the callback.
pub data Closing : List Call → Type 0 where
  ends : Closing (calls_back ∷ [])
  frees : {cs : List Call} → Closing cs → Closing (clears ∷ cs)

-- The ways in which one event goes, from the state before it, with its calls and the state and
-- error flag after it.
pub data Turn (fd : ℤ) (before : DbConnectionState)
    : List Call → DbConnectionState → Bool → Type 0 where
  waits : {e : Bool} → Turn fd before [] before e
  rearms :
      (mask : ℕ) (p : EventPriority) {e : Bool} → Turn fd before (modifies fd mask p ∷ []) before e
  query_sent :
      (mask : ℕ) (p : EventPriority) {e : Bool}
      → before ≡ sending_query
      → Turn fd before (modifies fd mask p ∷ []) reading_response e
  fails :
      {cs : List Call} (after : DbConnectionState)
      → (after ≡ before) ⊎ (after ≡ idle)
      → Closing cs
      → Turn fd before (untracks fd ∷ cs) after true
  connects :
      {e : Bool} → before ≡ connecting → Turn fd before (untracks fd ∷ calls_back ∷ []) connected e
  responds :
      {cs : List Call} {e : Bool}
      → before ≡ reading_response
      → Closing cs
      → Turn fd before (untracks fd ∷ cs) idle e

discard-Closing : (more : List PgResult) → Closing (discard more)
unfolding discard
discard-Closing [] = ends
discard-Closing (res ∷ more) = frees (discard-Closing more)

store_results-Closing :
    (rs : List PgResult) (conn : DbConnection) → Closing (store_results rs conn).1
unfolding store_results
store_results-Closing [] conn = ends
store_results-Closing (res ∷ more) conn =
    if_cases (λ (h : Handled). Closing h.1) (is_bad res.status) _ _ (λ _. discard-Closing more)
      (λ _. frees (store_results-Closing more _))

connection_state-store_results :
    (rs : List PgResult) (conn : DbConnection)
    → (store_results rs conn).0.connection_state ≡ conn.connection_state
unfolding store_results
connection_state-store_results [] conn = refl
connection_state-store_results (res ∷ more) conn =
    if_cases (λ (h : Handled). h.0.connection_state ≡ conn.connection_state) (is_bad res.status) _ _
      (λ _. refl) (λ _. connection_state-store_results more _)

abbrev Goes : DbConnection → Handled → Type 0
Goes conn r = Turn conn.socket conn.connection_state r.1 r.0.connection_state r.0.is_error

fail-Goes : (conn : DbConnection) → Goes conn (fail conn)
unfolding fail
fail-Goes conn = fails conn.connection_state (inl refl) ends

poll_connect-Goes :
    (s : PollingStatus) (conn : DbConnection)
    → conn.connection_state ≡ connecting
    → Goes conn (poll_connect s conn)
unfolding poll_connect
poll_connect-Goes polling_failed conn e = fail-Goes conn
poll_connect-Goes polling_reading conn e = rearms _ _
poll_connect-Goes polling_writing conn e = rearms _ _
poll_connect-Goes polling_ok conn e = connects e
poll_connect-Goes polling_active conn e = waits

after_flush-Goes :
    (s : ℤ) (conn : DbConnection)
    → conn.connection_state ≡ sending_query
    → Goes conn (after_flush s conn)
unfolding after_flush
after_flush-Goes s conn e =
    if_cases (Goes conn) (s =? pos 0) _ _ (λ _. query_sent _ _ e) (λ _. waits)

flush_query-Goes :
    (ev : EpollEvent) (pq : PqAnswers) (conn : DbConnection)
    → conn.connection_state ≡ sending_query
    → Goes conn (flush_query ev pq conn)
unfolding flush_query
flush_query-Goes ev pq conn e =
    let flushed = if has ev.events epollout then pq.flush_out else pos 1 in
    if_cases (Goes conn) (has ev.events epollout && flushed =? minus_one) _ _ (λ _. fail-Goes conn)
      (λ _.
        if_cases (Goes conn) (has ev.events epollin) _ _
          (λ _.
            if_cases (Goes conn) (pq.flush_in =? minus_one || pq.consumed =? pos 0) _ _
              (λ _. fail-Goes conn) (λ _. after_flush-Goes pq.flush_in conn e))
          (λ _. after_flush-Goes flushed conn e))

store_results-Goes :
    (rs : List PgResult) (conn : DbConnection)
    → conn.connection_state ≡ reading_response
    → Goes conn (
      (store_results rs (record conn { connection_state = idle })).0,
      untracks conn.socket ∷ (store_results rs (record conn { connection_state = idle })).1,
    )
store_results-Goes rs conn e =
    let stored = store_results rs (record conn { connection_state = idle }) in
    subst
      (λ (s : DbConnectionState).
        Turn conn.socket conn.connection_state (untracks conn.socket ∷ stored.1) s
          stored.0.is_error)
      (sym (connection_state-store_results rs (record conn { connection_state = idle })))
      (responds e (store_results-Closing rs _))

read_response-Goes :
    (pq : PqAnswers) (conn : DbConnection)
    → conn.connection_state ≡ reading_response
    → Goes conn (read_response pq conn)
unfolding read_response
read_response-Goes pq conn e =
    if_cases (Goes conn) (pq.consumed =? pos 0) _ _ (λ _. fails idle (inr refl) ends)
      (λ _.
        if_cases (Goes conn) (pq.is_busy =? pos 1) _ _ (λ _. waits)
          (λ _.
            if_cases (Goes conn) (pq.is_busy =? pos 0) _ _
              (λ _. store_results-Goes pq.fetched conn e) (λ _. waits)))

dispatch-Goes :
    (s : DbConnectionState) (ev : EpollEvent) (pq : PqAnswers) (conn : DbConnection)
    → conn.connection_state ≡ s
    → Goes conn (dispatch s ev pq conn)
unfolding dispatch
dispatch-Goes connecting ev pq conn e = poll_connect-Goes pq.polled conn e
dispatch-Goes sending_query ev pq conn e = flush_query-Goes ev pq conn e
dispatch-Goes reading_response ev pq conn e = read_response-Goes pq conn e
dispatch-Goes idle ev pq conn e = waits
dispatch-Goes not_connected ev pq conn e = waits
dispatch-Goes connected ev pq conn e = waits

pub handle_event-Goes :
    (ev : EpollEvent) (pq : PqAnswers) (conn : DbConnection) → Goes conn (handle_event ev pq conn)
unfolding handle_event
handle_event-Goes ev pq conn =
    if_cases (Goes conn) (has ev.events epollerr) _ _ (λ _. fail-Goes conn)
      (λ _. dispatch-Goes conn.connection_state ev pq conn refl)
