-- ===== src/Pooler/Counting.antt =====
-- `idle_count` of the pool beside the queue of idle connections, whatever else is the case.
use asynchronous_http_web_se.Base.{
  ℕ, zero, suc, ◌-◌, ◌≡◌, sym, ap, ◌∙◌, List, [], ◌∷◌, ◌++◌, ℤ, ◌==◌, ltb, length, length-append,
  arith, if_cases,
}
use asynchronous_http_web_se.Epoll.{EpollEvent}
use asynchronous_http_web_se.Calls.{callbacks}
use asynchronous_http_web_se.Db.{DbConnection, send_query}
use asynchronous_http_web_se.Db.Handler.{PqAnswers}
use asynchronous_http_web_se.Pooler.{
  PendingQuery, DbPooler, Frame, sends, gives_back, drains, Stepped, hand_over, pool_send_query,
  send_next, step, run, on_event, on_connected,
}
use asynchronous_http_web_se.Pooler.Sending.{IsCounted}
use asynchronous_http_web_se.Pooler.Events.{on_event-Untouched}

module _ {C : Type 0} where
  module _ (answer : ℕ → ℤ × ℤ) (react : C → DbConnection → List (PendingQuery C)) where
    send-IsCounted :
        (q : PendingQuery C) (pool : DbPooler C)
        → IsCounted pool
        → IsCounted (pool_send_query answer react q pool).pool
    unfolding pool_send_query hand_over
    send-IsCounted q pool h =
        if_cases (λ (r : Stepped C). IsCounted r.pool) (ltb 0 pool.idle_count) _ _
          (λ _. takes_first pool.available_conns h) (λ _. h)
      where
        takes_first :
            (conns : List ℕ)
            → pool.idle_count ≡ length conns
            → let r = elim conns as (λ _. Stepped C) [
              | [] ↦ record { pool = pool; frames = []; log = [] }
              | c ∷ rest ↦ hand_over answer react q c rest pool
            ] in
              IsCounted r.pool
        takes_first [] e = h
        takes_first (c ∷ rest) e =
            let a = answer pool.answered in
            let conn = record (pool.heap c) { parent = q.client } in
            let one_less : (pool.idle_count - 1) ≡ length rest = omega (arith, e) in
            if_cases (λ (r : Stepped C). IsCounted r.pool)
              (callbacks (send_query a.0 a.1 conn).1 == 0) _ _ (λ _. one_less) (λ _. one_less)

    next-IsCounted :
        (qs : List (PendingQuery C)) (pool : DbPooler C)
        → IsCounted pool
        → IsCounted (send_next answer react qs pool).pool
    unfolding send_next
    next-IsCounted [] pool h = h
    next-IsCounted (q ∷ qs) pool h = send-IsCounted q (record pool { pending_queries = qs }) h

    pub step-IsCounted :
        (f : Frame C) (pool : DbPooler C)
        → IsCounted pool
        → IsCounted (step answer react f pool).pool
    unfolding step
    step-IsCounted (sends q) pool h = send-IsCounted q pool h
    step-IsCounted (gives_back c) pool h =
        omega (arith, h, length-append pool.available_conns (c ∷ []))
    step-IsCounted drains pool h =
        if_cases (λ (r : Stepped C). IsCounted r.pool) (ltb 0 pool.idle_count) _ _
          (λ _. next-IsCounted pool.pending_queries pool h) (λ _. h)

    -- The calls of a pool keep the count, from any state.
    pub run-IsCounted :
        (n : ℕ) (fs : List (Frame C)) (pool : DbPooler C)
        → IsCounted pool
        → IsCounted (run answer react n fs pool).pool
    unfolding run
    run-IsCounted zero fs pool h = h
    run-IsCounted (suc n) [] pool h = h
    run-IsCounted (suc n) (f ∷ fs) pool h =
        let r = step answer react f pool in
        run-IsCounted n (r.frames ++ fs) r.pool (step-IsCounted f pool h)

    pub on_event-IsCounted :
        (ev : EpollEvent) (pq : PqAnswers) (d : ℕ) (pool : DbPooler C)
        → IsCounted pool
        → IsCounted (on_event answer react ev pq d pool).pool
    on_event-IsCounted ev pq d pool h =
        let (waiting, idle, available) = on_event-Untouched answer react ev pq d pool in
        idle ∙ h ∙ ap length (sym available)

  pub on_connected-IsCounted :
      (c : ℕ) (pool : DbPooler C) → IsCounted pool → IsCounted (on_connected c pool)
  unfolding on_connected
  on_connected-IsCounted c pool h =
      let more : suc pool.idle_count ≡ length (pool.available_conns ++ c ∷ []) =
        omega (arith, h, length-append pool.available_conns (c ∷ [])) in
      if_cases (λ (p : DbPooler C). IsCounted p) (pool.heap c).is_error _ _ (λ _. h)
        (λ _.
          if_cases (λ (p : DbPooler C). IsCounted p) (suc pool.connected_count == pool.pool_size) _
            _ (λ _. more) (λ _. more))
