-- ===== src/Pooler/Conserving.antt =====
-- The queries of the pool: none is lost, whatever else is the case.
use asynchronous_http_web_se.Base.{
  ℕ, zero, suc, ◌+◌, ◌<◌, ◌≡◌, refl, ap, ◌∙◌, List, [], ◌∷◌, ◌++◌, ℤ, ◌==◌, Bool, ltb, length,
  arith, if_cases, if◌then◌else◌,
}
use asynchronous_http_web_se.Calls.{callbacks}
use asynchronous_http_web_se.Db.{DbConnection, send_query}
use asynchronous_http_web_se.Pooler.{
  PendingQuery, DbPooler, Frame, sends, gives_back, drains, Stepped, hand_over, pool_send_query,
  send_next, step, run,
}
use asynchronous_http_web_se.Pooler.Sending.{IsCounted, asked, handed, asked-append, handed-append}
use asynchronous_http_web_se.Pooler.Counting.{step-IsCounted}

module _ {C : Type 0} (test : PendingQuery C → Bool) where
  -- How many of these queries pass the test.
  abbrev pub passing : List (PendingQuery C) → ℕ
  passing [] = 0
  passing (q ∷ qs) = (if test q then 1 else 0) + passing qs

  passing-append : (qs rs : List (PendingQuery C)) → passing (qs ++ rs) ≡ passing qs + passing rs
  passing-append [] rs = omega arith
  passing-append (q ∷ qs) rs = omega (arith, passing-append qs rs)

  -- As many went to connections or wait afterwards as waited before or were sent.
  abbrev Conserves : DbPooler C → ℕ → Stepped C → Type 0
  Conserves pool more r =
      passing (handed r.log) + passing r.pool.pending_queries
      ≡ passing pool.pending_queries + passing (asked r.log) + more

  module _ (answer : ℕ → ℤ × ℤ) (react : C → DbConnection → List (PendingQuery C)) where
    send-Conserves :
        (q : PendingQuery C) (pool : DbPooler C)
        → IsCounted pool
        → Conserves pool (if test q then 1 else 0) (pool_send_query answer react q pool)
    unfolding pool_send_query hand_over
    send-Conserves q pool h =
        if_cases (Conserves pool (if test q then 1 else 0)) (ltb 0 pool.idle_count) _ _
          (λ idle. takes_first pool.available_conns h (ground (arith, idle)))
          (λ _. omega (arith, passing-append pool.pending_queries (q ∷ [])))
      where
        takes_first :
            (conns : List ℕ)
            → pool.idle_count ≡ length conns
            → 0 < pool.idle_count
            → Conserves pool (if test q then 1 else 0) (elim conns as (λ _. Stepped C) [
              | [] ↦ record { pool = pool; frames = []; log = [] }
              | c ∷ rest ↦ hand_over answer react q c rest pool
            ])
        takes_first [] e idle = absurd (omega (arith, e, idle))
        takes_first (c ∷ rest) e idle =
            let a = answer pool.answered in
            let conn = record (pool.heap c) { parent = q.client } in
            if_cases (Conserves pool (if test q then 1 else 0))
              (callbacks (send_query a.0 a.1 conn).1 == 0) _ _ (λ _. omega arith) (λ _. omega arith)

    next-Conserves :
        (qs : List (PendingQuery C)) (pool : DbPooler C)
        → pool.pending_queries ≡ qs
        → IsCounted pool
        → Conserves pool 0 (send_next answer react qs pool)
    unfolding send_next
    next-Conserves [] pool e h = omega arith
    next-Conserves (q ∷ qs) pool e h =
        omega (
          arith,
          send-Conserves q (record pool { pending_queries = qs }) h,
          ap (λ ps. passing ps) e,
        )

    step-Conserves :
        (f : Frame C) (pool : DbPooler C)
        → IsCounted pool
        → Conserves pool 0 (step answer react f pool)
    unfolding step
    step-Conserves (sends q) pool h = omega (arith, send-Conserves q pool h)
    step-Conserves (gives_back c) pool h = omega arith
    step-Conserves drains pool h =
        if_cases (Conserves pool 0) (ltb 0 pool.idle_count) _ _
          (λ _. next-Conserves pool.pending_queries pool refl h) (λ _. omega arith)

    -- Where `idle_count` is the number of the idle connections: however many steps the calls of the
    -- pool have made, and whether or not a query waited beside an idle connection, no query is lost and none goes to two connections. Of the queries that
    -- pass any test, as many went to a connection or wait as waited before or were sent.
    pub run_loses_none :
        (n : ℕ) (fs : List (Frame C)) (pool : DbPooler C)
        → IsCounted pool
        → let r = run answer react n fs pool in
          passing (handed r.log) + passing r.pool.pending_queries
          ≡ passing pool.pending_queries + passing (asked r.log)
    unfolding run
    run_loses_none zero fs pool h = omega arith
    run_loses_none (suc n) [] pool h = omega arith
    run_loses_none (suc n) (f ∷ fs) pool h =
        let r = step answer react f pool in
        let s = run answer react n (r.frames ++ fs) r.pool in
        let later =
          run_loses_none n (r.frames ++ fs) r.pool (step-IsCounted answer react f pool h) in
        omega (
          arith,
          step-Conserves f pool h,
          later,
          ap (λ qs. passing qs) (handed-append r.log s.log)
              ∙ passing-append (handed r.log) (handed s.log),
          ap (λ qs. passing qs) (asked-append r.log s.log)
              ∙ passing-append (asked r.log) (asked s.log),
        )
