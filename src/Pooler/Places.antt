-- ===== src/Pooler/Places.antt =====
-- Where the connections of the pool are: idle, at work on a query, or about to be given back.
use mathlib.Core.List.{map}
use asynchronous_http_web_se.Base.{
  ℕ, zero, suc, ◌+◌, ◌≡◌, refl, ap, sym, ltb, ◌==◌, some, Option-cases, Bool-cases, List, [], ◌∷◌,
  ◌++◌, arith, ℤ, nat_key, ◌=?◌, if_cases, if◌then◌else◌, inl, inr,
}
use asynchronous_http_web_se.StdMap.{find, erase}
use asynchronous_http_web_se.Epoll.{EpollEvent}
use asynchronous_http_web_se.Calls.{callbacks}
use asynchronous_http_web_se.Db.{DbConnection, send_query}
use asynchronous_http_web_se.Db.Handler.{PqAnswers, handle_event}
use asynchronous_http_web_se.Pooler.{
  PendingQuery, DbPooler, Frame, sends, gives_back, drains, Stepped, run_callback, hand_over,
  pool_send_query, send_next, step, run, on_event,
}

abbrev pub occurs : ℕ → List ℕ → ℕ
occurs c [] = 0
occurs c (d ∷ ds) = (if c =? d then 1 else 0) + occurs c ds

pub occurs-append : (c : ℕ) (xs ys : List ℕ) → occurs c (xs ++ ys) ≡ occurs c xs + occurs c ys
occurs-append c [] ys = omega arith
occurs-append c (x ∷ xs) ys = omega (arith, occurs-append c xs ys)

module _ {C : Type 0} where
  -- How often a connection is at work on a query.
  abbrev pub uses : ℕ → List (ℕ × C) → ℕ
  uses c [] = 0
  uses c ((d, cb) ∷ m) = (if c =? d then 1 else 0) + uses c m

  -- How often a connection is about to be given back.
  abbrev pub returns : ℕ → List (Frame C) → ℕ
  returns c [] = 0
  returns c (sends q ∷ fs) = returns c fs
  returns c (gives_back d ∷ fs) = (if c =? d then 1 else 0) + returns c fs
  returns c (drains ∷ fs) = returns c fs

  abbrev pub places : ℕ → List (Frame C) → DbPooler C → ℕ
  places c fs pool = occurs c pool.available_conns + uses c pool.in_use + returns c fs

  returns-append :
      (c : ℕ) (fs gs : List (Frame C)) → returns c (fs ++ gs) ≡ returns c fs + returns c gs
  returns-append c [] gs = omega arith
  returns-append c (sends q ∷ fs) gs = returns-append c fs gs
  returns-append c (gives_back d ∷ fs) gs = omega (arith, returns-append c fs gs)
  returns-append c (drains ∷ fs) gs = returns-append c fs gs

  returns-sends : (c : ℕ) (qs : List (PendingQuery C)) → returns c (map sends qs) ≡ 0
  returns-sends c [] = refl
  returns-sends c (q ∷ qs) = returns-sends c qs

  uses-erase :
      (c d : ℕ) (cb : C) (m : List (ℕ × C))
      → find d m ≡ some cb
      → uses c m ≡ (if c =? d then 1 else 0) + uses c (erase d m)
  unfolding find erase
  uses-erase c d cb [] e = cc
  uses-erase c d cb ((i, w) ∷ m) e = elim (Bool-cases (d =? i)) [
    | inl same ↦
        rw same (
          ap (λ (j : ℕ). (if c =? j then 1 else 0) + uses c m)
            (sym ((nat_key.same_iff d i).0 same)))
    | inr other ↦ rw other (omega (arith, uses-erase c d cb m (rw other at e)))
  ]

module _ {C : Type 0} (answer : ℕ → ℤ × ℤ) (react : C → DbConnection → List (PendingQuery C)) where
  returns-run_callback :
      (c d : ℕ) (cb : C) (conn : DbConnection)
      → returns c (run_callback answer react d cb conn) ≡ (if c =? d then 1 else 0)
  unfolding run_callback
  returns-run_callback c d cb conn = omega (
    arith,
    returns-append c (map sends (react cb conn)) (gives_back d ∷ []),
    returns-sends c (react cb conn),
  )

  places-hand_over :
      (c : ℕ) (q : PendingQuery C) (d : ℕ) (rest : List ℕ) (pool : DbPooler C)
      → let r = hand_over answer react q d rest pool in
        places c r.frames r.pool ≡ occurs c (d ∷ rest) + uses c pool.in_use
  unfolding hand_over
  places-hand_over c q d rest pool =
      let a = answer pool.answered in
      let sent = send_query a.0 a.1 (record (pool.heap d) { parent = q.client }) in
      if_cases
        (λ (r : Stepped C). places c r.frames r.pool ≡ occurs c (d ∷ rest) + uses c pool.in_use)
        (callbacks sent.1 == 0) _ _ (λ _. omega arith)
        (λ _. omega (arith, returns-run_callback c d q.cb sent.0))

  places-pool_send_query :
      (c : ℕ) (q : PendingQuery C) (pool : DbPooler C)
      → let r = pool_send_query answer react q pool in places c r.frames r.pool ≡ places c [] pool
  unfolding pool_send_query
  places-pool_send_query c q pool =
      if_cases (λ (r : Stepped C). places c r.frames r.pool ≡ places c [] pool)
        (ltb 0 pool.idle_count) _ _ (λ _. send_to pool.available_conns refl) (λ _. refl)
    where
      send_to :
          (cs : List ℕ)
          → pool.available_conns ≡ cs
          → let r : Stepped C = elim cs [
            | [] ↦ record { pool = pool; frames = []; log = [] }
            | d ∷ rest ↦ hand_over answer react q d rest pool
          ] in
            places c r.frames r.pool ≡ places c [] pool
      send_to [] e = refl
      send_to (d ∷ rest) e = omega (arith, places-hand_over c q d rest pool, ap (occurs c) e)

  places-send_next :
      (c : ℕ) (ps : List (PendingQuery C)) (pool : DbPooler C)
      → let r = send_next answer react ps pool in places c r.frames r.pool ≡ places c [] pool
  unfolding send_next
  places-send_next c [] pool = refl
  places-send_next c (q ∷ qs) pool =
      let popped = record pool { pending_queries = qs } in
      let r = pool_send_query answer react q popped in
      omega (arith, places-pool_send_query c q popped, returns-append c r.frames (drains ∷ []))

  places-step :
      (c : ℕ) (f : Frame C) (pool : DbPooler C)
      → let r = step answer react f pool in places c r.frames r.pool ≡ places c (f ∷ []) pool
  unfolding step
  places-step c (sends q) pool = places-pool_send_query c q pool
  places-step c (gives_back d) pool = omega (arith, occurs-append c pool.available_conns (d ∷ []))
  places-step c drains pool =
      if_cases (λ (r : Stepped C). places c r.frames r.pool ≡ places c [] pool)
        (ltb 0 pool.idle_count) _ _ (λ _. places-send_next c pool.pending_queries pool) (λ _. refl)

  -- However far the calls of the pool run, every connection is as often idle, at work on a query,
  -- or about to be given back as it was before: none is lost and none is given out twice.
  pub run_keeps_places :
      (c n : ℕ) (fs : List (Frame C)) (pool : DbPooler C)
      → let r = run answer react n fs pool in places c r.frames r.pool ≡ places c fs pool
  unfolding run
  run_keeps_places c zero fs pool = refl
  run_keeps_places c (suc n) [] pool = refl
  run_keeps_places c (suc n) (f ∷ fs) pool =
      let r = step answer react f pool in
      omega (
        arith,
        run_keeps_places c n (r.frames ++ fs) r.pool,
        places-step c f pool,
        returns-append c r.frames fs,
        returns-append c (f ∷ []) fs,
      )

  -- An event on a connection keeps the places too: where it ends the query, the connection goes
  -- from being at work to being about to be given back.
  pub on_event_keeps_places :
      (c : ℕ) (ev : EpollEvent) (pq : PqAnswers) (d : ℕ) (pool : DbPooler C)
      → let r = on_event answer react ev pq d pool in places c r.frames r.pool ≡ places c [] pool
  unfolding on_event
  on_event_keeps_places c ev pq d pool = elim (Option-cases (find d pool.in_use)) [
    | inl e ↦ rw (e, on_event) refl
    | inr (cb, e) ↦
        let r = handle_event ev pq (pool.heap d) in
        rw (e, on_event)
          (if_cases (λ (r : Stepped C). places c r.frames r.pool ≡ places c [] pool)
            (callbacks r.1 == 0) _ _ (λ _. refl)
            (λ _. omega (arith, returns-run_callback c d cb r.0, uses-erase c d cb pool.in_use e)))
  ]
