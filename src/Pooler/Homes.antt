-- ===== src/Pooler/Homes.antt =====
-- A connection of the pool keeps its socket.
use asynchronous_http_web_se.Base.{
  ℕ, zero, suc, ◌≡◌, refl, ap, ◌∙◌, inl, inr, List, [], ◌∷◌, ◌++◌, ℤ, int_key, nat_key, ◌=?◌, ◌==◌,
  ltb, Option-cases, arith, if_cases,
}
use asynchronous_http_web_se.StdMap.{find}
use asynchronous_http_web_se.Epoll.{EpollEvent, has, epollerr}
use asynchronous_http_web_se.Calls.{callbacks}
use asynchronous_http_web_se.Db.{
  DbConnection, DbConnectionState, connecting, sending_query, reading_response, idle, not_connected,
  connected, Handled, send_query, reset_connection,
}
use asynchronous_http_web_se.Db.Results.{PgResult, store_results, query_result, is_bad}
use asynchronous_http_web_se.Db.Handler.{
  PqAnswers, PollingStatus, polling_failed, polling_reading, polling_writing, polling_ok,
  polling_active, handle_event, dispatch, poll_connect, flush_query, after_flush, read_response,
  fail,
}
use asynchronous_http_web_se.Pooler.{
  PendingQuery, DbPooler, Frame, sends, gives_back, drains, Stepped, at_address, hand_over,
  pool_send_query, send_next, step, run, on_event,
}

send_query-socket :
    (sent status : ℤ) (conn : DbConnection) → (send_query sent status conn).0.socket ≡ conn.socket
unfolding send_query
send_query-socket sent status conn = ground arith

store_results-socket :
    (rs : List PgResult) (conn : DbConnection) → (store_results rs conn).0.socket ≡ conn.socket
unfolding store_results
store_results-socket [] conn = refl
store_results-socket (res ∷ more) conn =
    if_cases (λ (r : Handled). r.0.socket ≡ conn.socket) (is_bad res.status) _ _ (λ _. refl)
      (λ _.
        store_results-socket more (record conn { results = conn.results ++ query_result res ∷ [] }))

read_response-socket :
    (pq : PqAnswers) (conn : DbConnection) → (read_response pq conn).0.socket ≡ conn.socket
unfolding read_response
read_response-socket pq conn =
    ground (arith, store_results-socket pq.fetched (record conn { connection_state = idle }))

flush_query-socket :
    (ev : EpollEvent) (pq : PqAnswers) (conn : DbConnection)
    → (flush_query ev pq conn).0.socket ≡ conn.socket
unfolding flush_query after_flush fail
flush_query-socket ev pq conn = ground arith

poll_connect-socket :
    (polled : PollingStatus) (conn : DbConnection)
    → (poll_connect polled conn).0.socket ≡ conn.socket
unfolding poll_connect fail
poll_connect-socket polling_failed conn = refl
poll_connect-socket polling_reading conn = refl
poll_connect-socket polling_writing conn = refl
poll_connect-socket polling_ok conn = refl
poll_connect-socket polling_active conn = refl

dispatch-socket :
    (s : DbConnectionState) (ev : EpollEvent) (pq : PqAnswers) (conn : DbConnection)
    → (dispatch s ev pq conn).0.socket ≡ conn.socket
unfolding dispatch
dispatch-socket connecting ev pq conn = poll_connect-socket pq.polled conn
dispatch-socket sending_query ev pq conn = flush_query-socket ev pq conn
dispatch-socket reading_response ev pq conn = read_response-socket pq conn
dispatch-socket idle ev pq conn = refl
dispatch-socket not_connected ev pq conn = refl
dispatch-socket connected ev pq conn = refl

pub handle_event-socket :
    (ev : EpollEvent) (pq : PqAnswers) (conn : DbConnection)
    → (handle_event ev pq conn).0.socket ≡ conn.socket
unfolding handle_event fail
handle_event-socket ev pq conn =
    if_cases (λ (r : Handled). r.0.socket ≡ conn.socket) (has ev.events epollerr) _ _ (λ _. refl)
      (λ _. dispatch-socket conn.connection_state ev pq conn)

pub socket-at_address :
    (c : ℕ) (conn : DbConnection) (heap : ℕ → DbConnection) (i : ℕ)
    → conn.socket ≡ (heap c).socket
    → (at_address c conn heap i).socket ≡ (heap i).socket
unfolding at_address
socket-at_address c conn heap i same =
    if_cases (λ (d : DbConnection). d.socket ≡ (heap i).socket) (c =? i) _ _
      (λ e. let at_i : c ≡ i = ground (arith, e) in same ∙ ap (λ k. (heap k).socket) at_i)
      (λ _. refl)

module _ {C : Type 0} where
  -- Every connection has the same socket in both pools.
  abbrev pub SameSockets : DbPooler C → DbPooler C → Type 0
  SameSockets p q = (i : ℕ) → (q.heap i).socket ≡ (p.heap i).socket

  module _ (answer : ℕ → ℤ × ℤ) (react : C → DbConnection → List (PendingQuery C)) where
    hand_over-SameSockets :
        (q : PendingQuery C) (c : ℕ) (rest : List ℕ) (pool : DbPooler C)
        → SameSockets pool (hand_over answer react q c rest pool).pool
    unfolding hand_over
    hand_over-SameSockets q c rest pool i =
        let a = answer pool.answered in
        let conn = record (pool.heap c) { parent = q.client } in
        let same =
          socket-at_address c (send_query a.0 a.1 conn).0 pool.heap i
            (send_query-socket a.0 a.1 conn) in
        if_cases (λ (r : Stepped C). (r.pool.heap i).socket ≡ (pool.heap i).socket)
          (callbacks (send_query a.0 a.1 conn).1 == 0) _ _ (λ _. same) (λ _. same)

    send-SameSockets :
        (q : PendingQuery C) (pool : DbPooler C)
        → SameSockets pool (pool_send_query answer react q pool).pool
    unfolding pool_send_query
    send-SameSockets q pool i =
        if_cases (λ (r : Stepped C). (r.pool.heap i).socket ≡ (pool.heap i).socket)
          (ltb 0 pool.idle_count) _ _ (λ _. sends_from pool.available_conns) (λ _. refl)
      where
        sends_from :
            (conns : List ℕ)
            → ((elim conns as (λ _. Stepped C) [
              | [] ↦ record { pool = pool; frames = []; log = [] }
              | c ∷ rest ↦ hand_over answer react q c rest pool
            ]).pool.heap
                i).socket
              ≡ (pool.heap i).socket
        sends_from [] = refl
        sends_from (c ∷ rest) = hand_over-SameSockets q c rest pool i

    next-SameSockets :
        (qs : List (PendingQuery C)) (pool : DbPooler C)
        → SameSockets pool (send_next answer react qs pool).pool
    unfolding send_next
    next-SameSockets [] pool i = refl
    next-SameSockets (q ∷ qs) pool i = send-SameSockets q (record pool { pending_queries = qs }) i

    pub step-SameSockets :
        (f : Frame C) (pool : DbPooler C) → SameSockets pool (step answer react f pool).pool
    unfolding step
    step-SameSockets (sends q) pool i = send-SameSockets q pool i
    step-SameSockets (gives_back c) pool i =
        socket-at_address c (reset_connection (pool.heap c)) pool.heap i
          (unfold reset_connection in refl)
    step-SameSockets drains pool i =
        if_cases (λ (r : Stepped C). (r.pool.heap i).socket ≡ (pool.heap i).socket)
          (ltb 0 pool.idle_count) _ _ (λ _. next-SameSockets pool.pending_queries pool i)
          (λ _. refl)

    pub run-SameSockets :
        (n : ℕ) (fs : List (Frame C)) (pool : DbPooler C)
        → SameSockets pool (run answer react n fs pool).pool
    unfolding run
    run-SameSockets zero fs pool i = refl
    run-SameSockets (suc n) [] pool i = refl
    run-SameSockets (suc n) (f ∷ fs) pool i =
        let r = step answer react f pool in
        run-SameSockets n (r.frames ++ fs) r.pool i ∙ step-SameSockets f pool i

    pub on_event-SameSockets :
        (ev : EpollEvent) (pq : PqAnswers) (d : ℕ) (pool : DbPooler C)
        → SameSockets pool (on_event answer react ev pq d pool).pool
    unfolding on_event
    on_event-SameSockets ev pq d pool i = elim (Option-cases (find d pool.in_use)) [
      | inl e ↦ rw (e, on_event) refl
      | inr (cb, e) ↦
          let r = handle_event ev pq (pool.heap d) in
          let same =
            socket-at_address d r.0 pool.heap i (handle_event-socket ev pq (pool.heap d)) in
          rw (e, on_event)
            (if_cases (λ (s : Stepped C). (s.pool.heap i).socket ≡ (pool.heap i).socket)
              (callbacks r.1 == 0) _ _ (λ _. same) (λ _. same))
    ]
