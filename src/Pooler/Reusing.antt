-- ===== src/Pooler/Reusing.antt =====
-- A connection of the pool that has failed is given to a later query.
use asynchronous_http_web_se.Base.{
  ℕ, suc, ◌≡◌, refl, ap, ◌∙◌, true, false, List, [], ◌∷◌, ◌++◌, ℤ, ◌==◌, ltb, some, nat_key, ◌=?◌,
  arith, if_cases,
}
use asynchronous_http_web_se.StdMap.{find, erase}
use asynchronous_http_web_se.Epoll.{EpollEvent, has, epollerr}
use asynchronous_http_web_se.Calls.{callbacks}
use asynchronous_http_web_se.Db.{DbConnection, send_query, reset_connection}
use asynchronous_http_web_se.Db.Handler.{PqAnswers, handle_event, fail}
use asynchronous_http_web_se.Pooler.{
  PendingQuery, DbPooler, gives_back, Entry, hands, Stepped, hand_over, pool_send_query, send_next,
  step, run, run_callback, on_event, at_address,
}

module _ {C : Type 0} (answer : ℕ → ℤ × ℤ) (react : C → DbConnection → List (PendingQuery C)) where
  -- The pool when a connection has been given back.
  abbrev pub with_idle : ℕ → DbPooler C → DbPooler C
  with_idle d pool = record pool {
    heap = at_address d (reset_connection (pool.heap d)) pool.heap;
    idle_count = suc pool.idle_count;
    available_conns = pool.available_conns ++ d ∷ [];
  }

  pub run-gives_back :
      (d : ℕ) (pool : DbPooler C)
      → pool.pending_queries ≡ []
      → let s = run answer react 2 (gives_back d ∷ []) pool in
        (s.frames ≡ []) × (s.pool ≡ with_idle d pool) × (s.log ≡ [])
  unfolding run step send_next
  run-gives_back d pool none_waits =
      let one : ltb 0 (suc pool.idle_count) ≡ true = ground arith in
      rw (one, none_waits, send_next) (refl, refl, refl)

  starts_with_front :
      (q : PendingQuery C) (d : ℕ) (rest : List ℕ) (pool : DbPooler C)
      → pool.available_conns ≡ d ∷ rest
      → ltb 0 pool.idle_count ≡ true
      → (more : List (Entry C)) × (pool_send_query answer react q pool).log ≡ hands q d ∷ more
  unfolding pool_send_query hand_over
  starts_with_front q d rest pool front idle =
      let a = answer pool.answered in
      let conn = record (pool.heap d) { parent = q.client } in
      rw (idle, front)
        (if_cases (λ (r : Stepped C). (more : List (Entry C)) × r.log ≡ hands q d ∷ more)
          (callbacks (send_query a.0 a.1 conn).1 == 0) _ _ (λ _. (_, refl)) (λ _. (_, refl)))

  -- The connection after the error.
  abbrev failed : ℕ → DbPooler C → DbConnection
  failed d pool = record (pool.heap d) { is_error = true }

  on_event_fails :
      (ev : EpollEvent) (pq : PqAnswers) (d : ℕ) (cb : C) (pool : DbPooler C)
      → find d pool.in_use ≡ some cb
      → has ev.events epollerr ≡ true
      → let r = on_event answer react ev pq d pool in
        (r.frames ≡ run_callback answer react d cb (failed d pool))
        × (r.pool ≡ record pool {
          heap = at_address d (failed d pool) pool.heap;
          in_use = erase d pool.in_use;
        })
  unfolding on_event handle_event fail
  on_event_fails ev pq d cb pool held error = rw (held, on_event, error) (refl, refl)

  -- An EPOLLERR on the only connection, at work on a query whose callback sends no further one while
  -- none waits: two steps later the pool has nothing to do, the connection is no longer marked as
  -- failed, and the next query is given to it.
  pub failed_connection_is_reused :
      (ev : EpollEvent) (pq : PqAnswers) (d : ℕ) (cb : C) (pool : DbPooler C) (q : PendingQuery C)
      → find d pool.in_use ≡ some cb
      → has ev.events epollerr ≡ true
      → react cb (failed d pool) ≡ []
      → pool.pending_queries ≡ []
      → pool.available_conns ≡ []
      → let r = on_event answer react ev pq d pool in
        let s = run answer react 2 r.frames r.pool in
        (s.frames ≡ [])
        × ((s.pool.heap d).is_error ≡ false)
        × ((more : List (Entry C)) × (pool_send_query answer react q s.pool).log ≡ hands q d ∷ more)
  unfolding run_callback reset_connection at_address
  failed_connection_is_reused ev pq d cb pool q held error silent none_waits none_idle =
      let r = on_event answer react ev pq d pool in
      let (frames, after) = on_event_fails ev pq d cb pool held error in
      let given : r.frames ≡ gives_back d ∷ [] = frames ∙ rw silent refl in
      let waiting : r.pool.pending_queries ≡ [] =
        ap (λ (p : DbPooler C). p.pending_queries) after ∙ none_waits in
      let idle : r.pool.available_conns ≡ [] =
        ap (λ (p : DbPooler C). p.available_conns) after ∙ none_idle in
      let settled = run-gives_back d r.pool waiting in
      let self : (d =? d) ≡ true = (nat_key.same_iff d d).1 refl in
      rw given (
        settled.0,
        ap (λ (p : DbPooler C). (p.heap d).is_error) settled.1 ∙ rw self refl,
        starts_with_front q d [] _
            (ap (λ (p : DbPooler C). p.available_conns) settled.1 ∙ ap (λ ds. ds ++ d ∷ []) idle)
            (ap (λ (p : DbPooler C). ltb 0 p.idle_count) settled.1 ∙ ground arith),
      )
