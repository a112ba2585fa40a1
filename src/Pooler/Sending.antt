-- ===== src/Pooler/Sending.antt =====
-- `sendQuery` of the pool: to an idle connection, or to the queue of queries.
use asynchronous_http_web_se.Base.{
  ℕ, suc, ◌-◌, ◌<◌, ◌≡◌, refl, sym, ap, ◌∙◌, ◌⊎◌, inl, inr, List, [], ◌∷◌, ◌++◌, arith, ℤ, true,
  false, ltb, ◌==◌, List-cases, length, if_cases,
}
use asynchronous_http_web_se.Calls.{callbacks}
use asynchronous_http_web_se.Db.{DbConnection, send_query}
use asynchronous_http_web_se.Pooler.{
  PendingQuery, DbPooler, Frame, drains, Entry, asks, hands, does, runs, Stepped, hand_over,
  pool_send_query,
}

module _ {C : Type 0} where
  -- The queries that `sendQuery` was called with, in the order of the calls.
  abbrev pub asked : List (Entry C) → List (PendingQuery C)
  asked [] = []
  asked (asks q ∷ log) = q ∷ asked log
  asked (hands q c ∷ log) = asked log
  asked (does c calls ∷ log) = asked log
  asked (runs cb conn ∷ log) = asked log

  -- The queries that went to a connection, in the order in which they did.
  abbrev pub handed : List (Entry C) → List (PendingQuery C)
  handed [] = []
  handed (asks q ∷ log) = handed log
  handed (hands q c ∷ log) = q ∷ handed log
  handed (does c calls ∷ log) = handed log
  handed (runs cb conn ∷ log) = handed log

  -- `idle_count` is the size of the queue of connections.
  abbrev pub IsCounted : DbPooler C → Type 0
  IsCounted pool = pool.idle_count ≡ length pool.available_conns

  -- No query waits while a connection is idle.
  abbrev pub IsSettled : DbPooler C → Type 0
  IsSettled pool = (pool.pending_queries ≡ []) ⊎ (pool.idle_count ≡ 0)

  abbrev pub StartsDraining : List (Frame C) → Type 0
  StartsDraining [] = ⊥
  StartsDraining (drains ∷ fs) = Unit {0}
  StartsDraining (_ ∷ fs) = ⊥

  -- Between two steps: settled, or one connection has just come back, and the loop over the
  -- pending queries is next.
  abbrev pub IsOrderly : List (Frame C) → DbPooler C → Type 0
  IsOrderly fs pool = IsSettled pool ⊎ ((pool.idle_count ≡ 1) × StartsDraining fs)

  pub asked-append : (a b : List (Entry C)) → asked (a ++ b) ≡ asked a ++ asked b
  asked-append [] b = refl
  asked-append (asks q ∷ a) b = ap (◌∷◌ q) (asked-append a b)
  asked-append (hands q c ∷ a) b = asked-append a b
  asked-append (does c calls ∷ a) b = asked-append a b
  asked-append (runs cb conn ∷ a) b = asked-append a b

  pub handed-append : (a b : List (Entry C)) → handed (a ++ b) ≡ handed a ++ handed b
  handed-append [] b = refl
  handed-append (asks q ∷ a) b = handed-append a b
  handed-append (hands q c ∷ a) b = ap (◌∷◌ q) (handed-append a b)
  handed-append (does c calls ∷ a) b = handed-append a b
  handed-append (runs cb conn ∷ a) b = handed-append a b

  -- What a hand-over does, whether the connection takes the query or fails at once.
  record HandsOver (q : PendingQuery C) (rest : List ℕ) (pool : DbPooler C) (r : Stepped C)
      : Type 0 where
    pending : r.pool.pending_queries ≡ pool.pending_queries
    idle : r.pool.idle_count ≡ pool.idle_count - 1
    available : r.pool.available_conns ≡ rest
    gives : handed r.log ≡ q ∷ []
    takes : asked r.log ≡ []

module _ {C : Type 0} (answer : ℕ → ℤ × ℤ) (react : C → DbConnection → List (PendingQuery C)) where
  hand_over-HandsOver :
      (q : PendingQuery C) (c : ℕ) (rest : List ℕ) (pool : DbPooler C)
      → HandsOver q rest pool (hand_over answer react q c rest pool)
  unfolding hand_over
  hand_over-HandsOver q c rest pool =
      let a = answer pool.answered in
      let sent = send_query a.0 a.1 (record (pool.heap c) { parent = q.client }) in
      if_cases (HandsOver q rest pool) (callbacks sent.1 == 0) _ _
        (λ _. record { pending = refl; idle = refl; available = refl; gives = refl; takes = refl })
        (λ _. record { pending = refl; idle = refl; available = refl; gives = refl; takes = refl })

  -- With a connection idle, a query goes to one.
  pub idle_send :
      (q : PendingQuery C) (pool : DbPooler C)
      → IsCounted pool
      → 0 < pool.idle_count
      → let r = pool_send_query answer react q pool in
        (r.pool.pending_queries ≡ pool.pending_queries)
        × (r.pool.idle_count ≡ pool.idle_count - 1)
        × IsCounted r.pool
        × (handed r.log ≡ q ∷ [])
        × (asked r.log ≡ [])
  unfolding pool_send_query
  idle_send q pool counted idle = elim (List-cases pool.available_conns) [
    | inl e ↦ absurd (ground (arith, counted, ap length e))
    | inr (c, rest, e) ↦
        let h = hand_over-HandsOver q c rest pool in
        let size : pool.idle_count ≡ suc (length rest) = counted ∙ ap length e in
        let positive : ltb 0 pool.idle_count ≡ true = ground arith in
        rw (positive, e)
          (h.pending, h.idle, h.idle ∙ omega arith ∙ sym (ap length h.available), h.gives, h.takes)
  ]

  -- With no connection idle, a query waits.
  pub busy_send :
      (q : PendingQuery C) (pool : DbPooler C)
      → pool.idle_count ≡ 0
      → pool_send_query answer react q pool ≡ record {
        pool = record pool { pending_queries = pool.pending_queries ++ q ∷ [] };
        frames = [];
        log = [];
      }
  unfolding pool_send_query
  busy_send q pool busy =
      let none_idle : ltb 0 pool.idle_count ≡ false = ground arith in rw none_idle
