-- ===== src/Pooler/Events.antt =====
-- An event on a connection of the pool, with all the calls that follow from it.
use asynchronous_http_web_se.Base.{
  ℕ, ◌≤◌, ◌≡◌, refl, inl, inr, Option-cases, List, [], ◌++◌, ℤ, nat_key, ◌==◌, if_cases, ◌∙◌, ap,
  sym, length,
}
use asynchronous_http_web_se.StdMap.{find}
use asynchronous_http_web_se.Epoll.{EpollEvent}
use asynchronous_http_web_se.Calls.{callbacks}
use asynchronous_http_web_se.Db.{DbConnection}
use asynchronous_http_web_se.Db.Handler.{PqAnswers, handle_event}
use asynchronous_http_web_se.Pooler.{PendingQuery, DbPooler, Stepped, run, on_event}
use asynchronous_http_web_se.Pooler.Sending.{IsCounted, IsSettled, asked, handed}
use asynchronous_http_web_se.Pooler.Ending.{IsBounded, work, calls_settle}
use asynchronous_http_web_se.Pooler.Places.{places, run_keeps_places, on_event_keeps_places}

module _ {C : Type 0} (answer : ℕ → ℤ × ℤ) (react : C → DbConnection → List (PendingQuery C)) where
  -- Up to its callback, an event leaves the queues and their counter alone.
  abbrev pub Untouched : DbPooler C → Stepped C → Type 0
  Untouched pool r =
      (r.pool.pending_queries ≡ pool.pending_queries)
      × (r.pool.idle_count ≡ pool.idle_count)
      × (r.pool.available_conns ≡ pool.available_conns)

  pub on_event-Untouched :
      (ev : EpollEvent) (pq : PqAnswers) (d : ℕ) (pool : DbPooler C)
      → Untouched pool (on_event answer react ev pq d pool)
  unfolding on_event
  on_event-Untouched ev pq d pool = elim (Option-cases (find d pool.in_use)) [
    | inl e ↦ rw (e, on_event) (refl, refl, refl)
    | inr (cb, e) ↦
        let r = handle_event ev pq (pool.heap d) in
        rw (e, on_event)
          (if_cases (Untouched pool) (callbacks r.1 == 0) _ _ (λ _. (refl, refl, refl))
            (λ _. (refl, refl, refl)))
  ]

  module _ (cost : C → ℕ) (bounded : IsBounded cost react) where
    -- Where `idle_count` is the number of the idle connections, no query waits beside an idle
    -- connection, and the queries that follow from a callback are bounded: an event on a connection,
    -- with the calls that follow from it, comes to an end within a bounded number of steps. At its end
    -- `idle_count` is that number again, no query waits while a connection is idle, every connection is as
    -- often idle or at work as it was before, and the queries that went to connections, and then
    -- those that wait, are those that waited before and then those that the callbacks sent, in order.
    pub event_settles :
        (c n : ℕ) (ev : EpollEvent) (pq : PqAnswers) (d : ℕ) (pool : DbPooler C)
        → IsCounted pool
        → IsSettled pool
        → let r = on_event answer react ev pq d pool in
          work cost r.frames r.pool ≤ n
          → let s = run answer react n r.frames r.pool in
            (s.frames ≡ [])
            × IsSettled s.pool
            × IsCounted s.pool
            × (places c s.frames s.pool ≡ places c [] pool)
            × (handed s.log ++ s.pool.pending_queries ≡ pool.pending_queries ++ asked s.log)
    event_settles c n ev pq d pool counted settled enough =
        let r = on_event answer react ev pq d pool in
        let (waiting, idle, available) = on_event-Untouched ev pq d pool in
        let counted' : IsCounted r.pool = idle ∙ counted ∙ ap length (sym available) in
        let settled' : IsSettled r.pool = elim settled [
          | inl e ↦ inl (waiting ∙ e)
          | inr e ↦ inr (idle ∙ e)
        ] in
        let (ended, still_settled, still_counted, in_order) =
          calls_settle answer react cost bounded n r.frames r.pool counted' settled' enough in
        let s = run answer react n r.frames r.pool in
        (
          ended,
          still_settled,
          still_counted,
          run_keeps_places answer react c n r.frames r.pool
              ∙ on_event_keeps_places answer react c ev pq d pool,
          in_order ∙ ap (λ ps. ps ++ asked s.log) waiting,
        )
