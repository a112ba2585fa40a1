-- ===== src/Pooler/Order.antt =====
-- The order in which the pool hands queries to connections.
use mathlib.Core.Path.{ap₂}
use asynchronous_http_web_se.Base.{
  ℕ, zero, suc, ◌-◌, ◌<◌, ◌≡◌, refl, sym, ap, ◌∙◌, ◌⊎◌, inl, inr, List, [], ◌∷◌, ◌++◌, arith, ℤ,
  ltb, Bool-cases, append-nil, append_assoc, if_cases, length-append,
}
use asynchronous_http_web_se.Db.{DbConnection}
use asynchronous_http_web_se.Pooler.{
  PendingQuery, DbPooler, Frame, sends, gives_back, drains, Stepped, send_next, step, run,
}
use asynchronous_http_web_se.Pooler.Sending.{
  asked, handed, IsCounted, IsSettled, IsOrderly, asked-append, handed-append, idle_send, busy_send,
}

module _ {C : Type 0} where
  -- What a step does with the queries.
  record KeepsOrder (fs : List (Frame C)) (pool : DbPooler C) (r : Stepped C) : Type 0 where
    counted : IsCounted r.pool
    orderly : IsOrderly (r.frames ++ fs) r.pool
    in_order : handed r.log ++ r.pool.pending_queries ≡ pool.pending_queries ++ asked r.log

module _ {C : Type 0} (answer : ℕ → ℤ × ℤ) (react : C → DbConnection → List (PendingQuery C)) where
  one_left :
      (q : PendingQuery C) (qs : List (PendingQuery C)) (pool : DbPooler C)
      → pool.pending_queries ≡ q ∷ qs
      → 0 < pool.idle_count
      → IsSettled pool ⊎ (pool.idle_count ≡ 1)
      → pool.idle_count - 1 ≡ 0
  one_left q qs pool e idle (inl (inl none_waits)) =
      let empty : (q ∷ qs) ≡ [] = sym e ∙ none_waits in cc
  one_left q qs pool e idle (inl (inr busy)) = omega arith
  one_left q qs pool e idle (inr one) = omega arith

  sends-KeepsOrder :
      (q : PendingQuery C) (fs : List (Frame C)) (pool : DbPooler C)
      → IsCounted pool
      → IsSettled pool
      → KeepsOrder fs pool (step answer react (sends q) pool)
  unfolding step
  sends-KeepsOrder q fs pool counted (inr busy) =
      rw (busy_send answer react q pool busy)
        (record { counted = counted; orderly = inl (inr busy); in_order = refl })
  sends-KeepsOrder q fs pool counted (inl none_waits) = elim (Bool-cases (ltb 0 pool.idle_count)) [
    | inl e ↦
        let s = idle_send answer react q pool counted (ground arith) in
        record {
          counted = s.2;
          orderly = inl (inl (s.0 ∙ none_waits));
          in_order =
              ap₂ (◌++◌) s.3 (s.0 ∙ none_waits)
              ∙ ap₂ (◌++◌) (sym none_waits) (ap (◌∷◌ q) (sym s.4));
        }
    | inr e ↦
        let busy : pool.idle_count ≡ 0 = ground arith in
        rw (busy_send answer react q pool busy)
          (record { counted = counted; orderly = inl (inr busy); in_order = refl })
  ]

  gives_back-KeepsOrder :
      (c : ℕ) (fs : List (Frame C)) (pool : DbPooler C)
      → IsCounted pool
      → IsSettled pool
      → KeepsOrder fs pool (step answer react (gives_back c) pool)
  unfolding step
  gives_back-KeepsOrder c fs pool counted settled = record {
    counted = omega (arith, counted, length-append pool.available_conns (c ∷ []));
    orderly = elim settled [ inl e ↦ inl (inl e) | inr e ↦ inr (ap suc e, tt) ];
    in_order = sym (append-nil pool.pending_queries);
  }

  waits_on-KeepsOrder :
      (fs : List (Frame C)) (pool : DbPooler C)
      → IsCounted pool
      → IsSettled pool
      → KeepsOrder fs pool (record { pool = pool; frames = []; log = [] })
  waits_on-KeepsOrder fs pool counted settled = record {
    counted = counted;
    orderly = inl settled;
    in_order = sym (append-nil pool.pending_queries);
  }

  send_next-KeepsOrder :
      (ps : List (PendingQuery C)) (fs : List (Frame C)) (pool : DbPooler C)
      → pool.pending_queries ≡ ps
      → IsCounted pool
      → 0 < pool.idle_count
      → IsSettled pool ⊎ (pool.idle_count ≡ 1)
      → KeepsOrder fs pool (send_next answer react ps pool)
  unfolding send_next
  send_next-KeepsOrder [] fs pool e counted idle orderly =
      waits_on-KeepsOrder fs pool counted (inl e)
  send_next-KeepsOrder (q ∷ qs) fs pool e counted idle orderly =
      let popped = record pool { pending_queries = qs } in
      let s = idle_send answer react q popped counted idle in
      record {
        counted = s.2;
        orderly = inl (inr (s.1 ∙ one_left q qs pool e idle orderly));
        in_order = ap₂ (◌++◌) s.3 s.0 ∙ sym (append-nil (q ∷ qs)) ∙ ap₂ (◌++◌) (sym e) (sym s.4);
      }

  drains-KeepsOrder :
      (fs : List (Frame C)) (pool : DbPooler C)
      → IsCounted pool
      → IsSettled pool ⊎ (pool.idle_count ≡ 1)
      → KeepsOrder fs pool (step answer react drains pool)
  unfolding step
  drains-KeepsOrder fs pool counted orderly =
      if_cases (KeepsOrder fs pool) (ltb 0 pool.idle_count) _ _
        (λ e. send_next-KeepsOrder pool.pending_queries fs pool refl counted (ground arith) orderly)
        (λ e. waits_on-KeepsOrder fs pool counted (inr (ground arith)))

  step-KeepsOrder :
      (f : Frame C) (fs : List (Frame C)) (pool : DbPooler C)
      → IsCounted pool
      → IsOrderly (f ∷ fs) pool
      → KeepsOrder fs pool (step answer react f pool)
  step-KeepsOrder (sends q) fs pool counted (inl s) = sends-KeepsOrder q fs pool counted s
  step-KeepsOrder (sends q) fs pool counted (inr (one, h)) = elim h [ ]
  step-KeepsOrder (gives_back c) fs pool counted (inl s) = gives_back-KeepsOrder c fs pool counted s
  step-KeepsOrder (gives_back c) fs pool counted (inr (one, h)) = elim h [ ]
  step-KeepsOrder drains fs pool counted (inl s) = drains-KeepsOrder fs pool counted (inl s)
  step-KeepsOrder drains fs pool counted (inr (one, h)) =
      drains-KeepsOrder fs pool counted (inr one)

  run_from :
      (n : ℕ) (fs : List (Frame C)) (pool : DbPooler C)
      → IsCounted pool
      → IsOrderly fs pool
      → let r = run answer react n fs pool in
        IsCounted r.pool
        × IsOrderly r.frames r.pool
        × (handed r.log ++ r.pool.pending_queries ≡ pool.pending_queries ++ asked r.log)
  unfolding run
  run_from zero fs pool counted orderly = (counted, orderly, sym (append-nil pool.pending_queries))
  run_from (suc n) [] pool counted orderly =
      (counted, orderly, sym (append-nil pool.pending_queries))
  run_from (suc n) (f ∷ fs) pool counted orderly =
      let r = step answer react f pool in
      let h = step-KeepsOrder f fs pool counted orderly in
      let later = run_from n (r.frames ++ fs) r.pool h.counted h.orderly in
      let s = run answer react n (r.frames ++ fs) r.pool in
      (
        later.0,
        later.1,
        ap (λ x. x ++ s.pool.pending_queries) (handed-append r.log s.log)
            ∙ append_assoc (handed r.log) (handed s.log) s.pool.pending_queries
            ∙ ap (◌++◌ (handed r.log)) later.2
            ∙ sym (append_assoc (handed r.log) r.pool.pending_queries (asked s.log))
            ∙ ap (λ x. x ++ asked s.log) h.in_order
            ∙ append_assoc pool.pending_queries (asked r.log) (asked s.log)
            ∙ ap (◌++◌ pool.pending_queries) (sym (asked-append r.log s.log)),
      )

  -- However many steps the calls of the pool have made, from a pool in which no query waited beside
  -- an idle connection: the queries that went to connections, and then those that wait, are those
  -- that waited before and then those of the calls of `sendQuery`, in the order of these calls;
  -- `idle_count` is the size of the queue of connections; and a query waits beside an idle
  -- connection only where one connection is idle and the loop that takes the query comes next.
  pub run_in_order :
      (n : ℕ) (fs : List (Frame C)) (pool : DbPooler C)
      → IsCounted pool
      → IsSettled pool
      → let r = run answer react n fs pool in
        IsCounted r.pool
        × IsOrderly r.frames r.pool
        × (handed r.log ++ r.pool.pending_queries ≡ pool.pending_queries ++ asked r.log)
  run_in_order n fs pool counted settled = run_from n fs pool counted (inl settled)
