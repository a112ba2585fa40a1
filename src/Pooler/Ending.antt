-- ===== src/Pooler/Ending.antt =====
-- The end of the calls of the pool: how many steps they take, and the pool after them.
use mathlib.Core.List.{map}
use asynchronous_http_web_se.Base.{
  ℕ, zero, suc, ◌+◌, ◌*◌, ◌<◌, ◌≤◌, ◌≡◌, refl, sym, ◌∙◌, ap, inl, inr, true, ltb, ◌==◌, Bool-cases,
  List, [], ◌∷◌, ◌++◌, arith, ℤ, if_cases,
}
use asynchronous_http_web_se.Calls.{callbacks}
use asynchronous_http_web_se.Db.{DbConnection, send_query}
use asynchronous_http_web_se.Pooler.{
  PendingQuery, DbPooler, Frame, sends, gives_back, drains, Stepped, run_callback, hand_over,
  pool_send_query, send_next, step, run,
}
use asynchronous_http_web_se.Pooler.Sending.{
  IsCounted, IsSettled, IsOrderly, asked, handed, busy_send,
}
use asynchronous_http_web_se.Pooler.Order.{run_in_order}

module _ {C : Type 0} (cost : C → ℕ) where
  -- One for each query, and the cost of its callback.
  abbrev pub total : List (PendingQuery C) → ℕ
  total [] = 0
  total (q ∷ qs) = suc (cost q.cb) + total qs

  abbrev pub waiting_cost : List (PendingQuery C) → ℕ
  waiting_cost [] = 0
  waiting_cost (q ∷ qs) = 3 * cost q.cb + waiting_cost qs

  abbrev pub frames_cost : List (Frame C) → ℕ
  frames_cost [] = 0
  frames_cost (sends q ∷ fs) = suc (3 * cost q.cb) + frames_cost fs
  frames_cost (gives_back c ∷ fs) = 2 + frames_cost fs
  frames_cost (drains ∷ fs) = 1 + frames_cost fs

  -- A bound on the steps that are left.
  abbrev pub work : List (Frame C) → DbPooler C → ℕ
  work fs pool = frames_cost fs + waiting_cost pool.pending_queries

  frames_cost-append :
      (fs gs : List (Frame C)) → frames_cost (fs ++ gs) ≡ frames_cost fs + frames_cost gs
  frames_cost-append [] gs = omega arith
  frames_cost-append (sends q ∷ fs) gs = omega (arith, frames_cost-append fs gs)
  frames_cost-append (gives_back c ∷ fs) gs = omega (arith, frames_cost-append fs gs)
  frames_cost-append (drains ∷ fs) gs = omega (arith, frames_cost-append fs gs)

  waiting_cost-append :
      (ps qs : List (PendingQuery C)) → waiting_cost (ps ++ qs) ≡ waiting_cost ps + waiting_cost qs
  waiting_cost-append [] qs = omega arith
  waiting_cost-append (p ∷ ps) qs = omega (arith, waiting_cost-append ps qs)

  frames_cost-sends : (qs : List (PendingQuery C)) → frames_cost (map sends qs) ≤ 3 * total qs
  frames_cost-sends [] = omega arith
  frames_cost-sends (q ∷ qs) = omega (arith, frames_cost-sends qs)

  -- The cost of a callback is more than that of the queries that it sends: so it bounds the queries
  -- and callbacks that can ever follow from it.
  abbrev pub IsBounded : (C → DbConnection → List (PendingQuery C)) → Type 0
  IsBounded react = (c : C) (conn : DbConnection) → total (react c conn) < cost c

module _ {C : Type 0} (answer : ℕ → ℤ × ℤ) (react : C → DbConnection → List (PendingQuery C)) where
  run_idle :
      (n : ℕ) (pool : DbPooler C)
      → run answer react n [] pool ≡ record { pool = pool; frames = []; log = [] }
  unfolding run
  run_idle zero pool = refl
  run_idle (suc n) pool = refl

  -- After the end, more steps change nothing.
  pub run_further :
      (n more : ℕ) (fs : List (Frame C)) (pool : DbPooler C)
      → (run answer react n fs pool).frames ≡ []
      → run answer react (n + more) fs pool ≡ run answer react n fs pool
  unfolding run
  run_further n more [] pool ended = run_idle (n + more) pool ∙ sym (run_idle n pool)
  run_further zero more (f ∷ fs) pool ended = let none_left : (f ∷ fs) ≡ [] = ended in cc
  run_further (suc n) more (f ∷ fs) pool ended =
      let r = step answer react f pool in
      let later = run_further n more (r.frames ++ fs) r.pool ended in
      let whole : suc n + more ≡ suc (n + more) = omega arith in
      rw whole (
        ap (λ (s : Stepped C). record { pool = s.pool; frames = s.frames; log = r.log ++ s.log })
          later)

module _ {C : Type 0} (answer : ℕ → ℤ × ℤ) (react : C → DbConnection → List (PendingQuery C))
    (cost : C → ℕ) (bounded : IsBounded cost react) where
  frames_cost-run_callback :
      (c : ℕ) (cb : C) (conn : DbConnection)
      → frames_cost cost (run_callback answer react c cb conn) < 3 * cost cb
  unfolding run_callback
  frames_cost-run_callback c cb conn = omega (
    arith,
    frames_cost-append cost (map sends (react cb conn)) (gives_back c ∷ []),
    frames_cost-sends cost (react cb conn),
    bounded cb conn,
  )

  hand_over_cost :
      (q : PendingQuery C) (c : ℕ) (rest : List ℕ) (pool : DbPooler C)
      → let r = hand_over answer react q c rest pool in
        work cost r.frames r.pool < 3 * cost q.cb + waiting_cost cost pool.pending_queries
  unfolding hand_over
  hand_over_cost q c rest pool =
      let a = answer pool.answered in
      let sent = send_query a.0 a.1 (record (pool.heap c) { parent = q.client }) in
      if_cases
        (λ (r : Stepped C).
          work cost r.frames r.pool < 3 * cost q.cb + waiting_cost cost pool.pending_queries)
        (callbacks sent.1 == 0) _ _ (λ _. omega (arith, bounded q.cb sent.0))
        (λ _. omega (arith, frames_cost-run_callback c q.cb sent.0))

  -- A query that finds a connection idle.
  idle_send_cost :
      (q : PendingQuery C) (pool : DbPooler C)
      → 0 < pool.idle_count
      → let r = pool_send_query answer react q pool in
        work cost r.frames r.pool < 3 * cost q.cb + waiting_cost cost pool.pending_queries
  unfolding pool_send_query
  idle_send_cost q pool idle =
      let positive : ltb 0 pool.idle_count ≡ true = ground arith in
      rw positive (send_to pool.available_conns)
    where
      send_to :
          (cs : List ℕ)
          → let r : Stepped C = elim cs [
            | [] ↦ record { pool = pool; frames = []; log = [] }
            | c ∷ rest ↦ hand_over answer react q c rest pool
          ] in
            work cost r.frames r.pool < 3 * cost q.cb + waiting_cost cost pool.pending_queries
      send_to [] = omega (arith, bounded q.cb (pool.heap 0))
      send_to (c ∷ rest) = hand_over_cost q c rest pool

  send_cost :
      (q : PendingQuery C) (pool : DbPooler C)
      → let r = pool_send_query answer react q pool in
        work cost r.frames r.pool ≤ 3 * cost q.cb + waiting_cost cost pool.pending_queries
  send_cost q pool = elim (Bool-cases (ltb 0 pool.idle_count)) [
    | inl e ↦ let h = idle_send_cost q pool (ground arith) in omega (arith, h)
    | inr e ↦
        rw (busy_send answer react q pool (ground arith))
          (omega (arith, waiting_cost-append cost pool.pending_queries (q ∷ [])))
  ]

  send_next_cost :
      (ps : List (PendingQuery C)) (pool : DbPooler C)
      → pool.pending_queries ≡ ps
      → 0 < pool.idle_count
      → let r = send_next answer react ps pool in
        work cost r.frames r.pool < 1 + waiting_cost cost pool.pending_queries
  unfolding send_next
  send_next_cost [] pool e idle = omega arith
  send_next_cost (q ∷ qs) pool e idle =
      let popped = record pool { pending_queries = qs } in
      let r = pool_send_query answer react q popped in
      omega (
        arith,
        idle_send_cost q popped idle,
        frames_cost-append cost r.frames (drains ∷ []),
        ap (waiting_cost cost) e,
      )

  step_cost :
      (f : Frame C) (pool : DbPooler C)
      → let r = step answer react f pool in work cost r.frames r.pool < work cost (f ∷ []) pool
  unfolding step
  step_cost (sends q) pool = omega (arith, send_cost q pool)
  step_cost (gives_back c) pool = omega arith
  step_cost drains pool =
      if_cases (λ (r : Stepped C). work cost r.frames r.pool < work cost (drains ∷ []) pool)
        (ltb 0 pool.idle_count) _ _
        (λ e. omega (arith, send_next_cost pool.pending_queries pool refl (ground arith)))
        (λ e. omega arith)

  pub run_ends :
      (n : ℕ) (fs : List (Frame C)) (pool : DbPooler C)
      → work cost fs pool ≤ n
      → (run answer react n fs pool).frames ≡ []
  unfolding run
  run_ends zero [] pool h = refl
  run_ends zero (sends q ∷ fs) pool h = absurd (omega arith)
  run_ends zero (gives_back c ∷ fs) pool h = absurd (omega arith)
  run_ends zero (drains ∷ fs) pool h = absurd (omega arith)
  run_ends (suc n) [] pool h = refl
  run_ends (suc n) (f ∷ fs) pool h =
      let r = step answer react f pool in
      run_ends n (r.frames ++ fs) r.pool (
        omega (
          arith,
          step_cost f pool,
          frames_cost-append cost r.frames fs,
          frames_cost-append cost (f ∷ []) fs,
        ))

  IsSettled-of_end :
      (fs : List (Frame C)) (pool : DbPooler C) → fs ≡ [] → IsOrderly fs pool → IsSettled pool
  IsSettled-of_end [] pool e (inl settled) = settled
  IsSettled-of_end [] pool e (inr (one, next)) = elim next [ ]
  IsSettled-of_end (f ∷ fs) pool e h = cc

  -- Where the queries that follow from a callback are finitely many, the calls that a pool has to
  -- make come to an end within a number of steps that `work` gives. At their end no query waits
  -- while a connection is idle, where that was so before, and the queries that went to connections,
  -- and then those that wait, are those that waited before and then those of the calls of
  -- `sendQuery`, in the order of these calls.
  pub calls_settle :
      (n : ℕ) (fs : List (Frame C)) (pool : DbPooler C)
      → IsCounted pool
      → IsSettled pool
      → work cost fs pool ≤ n
      → let r = run answer react n fs pool in
        (r.frames ≡ [])
        × IsSettled r.pool
        × IsCounted r.pool
        × (handed r.log ++ r.pool.pending_queries ≡ pool.pending_queries ++ asked r.log)
  calls_settle n fs pool counted settled enough =
      let r = run answer react n fs pool in
      let h = run_in_order answer react n fs pool counted settled in
      let ended = run_ends n fs pool enough in
      (ended, IsSettled-of_end r.frames r.pool ended h.1, h.0, h.2)
