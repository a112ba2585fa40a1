-- ===== src/Books/Failing.antt =====
-- A query of example/server.cpp that fails: the callbacks of `pooler->sendQuery` on an error.
use asynchronous_http_web_se.Base.{
  ℕ, ◌+◌, ◌≡◌, ◌≢◌, refl, ap, ◌∙◌, true, false, List, [], ◌∷◌, some, ℤ, nat_key, ◌==◌, arith,
  if_cases,
}
use asynchronous_http_web_se.StdMap.{find, erase}
use asynchronous_http_web_se.Epoll.{Epoll, EpollEvent}
use asynchronous_http_web_se.Reactor.{Tracker}
use asynchronous_http_web_se.Calls.{Call, perform, callbacks}
use asynchronous_http_web_se.Db.{DbConnection}
use asynchronous_http_web_se.Db.Handler as DbHandler
use asynchronous_http_web_se.Pooler.{
  DbPooler, Frame, gives_back, does, runs, Stepped, on_event, run, run_callback, at_address,
}
use asynchronous_http_web_se.Pooler.Ending.{waiting_cost}
use asynchronous_http_web_se.Pooler.Reusing.{with_idle, run-gives_back}
use asynchronous_http_web_se.Books.{
  Reply, inserted, selected, Closure, queries, JsonLib, Env, App, State,
}
use asynchronous_http_web_se.Books.Handlers.{
  reply_cost, sends_next, answer_rows, apply_entry, apply_log, settle,
}
use asynchronous_http_web_se.Books.Serving.{on_query}

module _ {K P J : Type 0} (sys : Epoll K) (json : JsonLib J) (answer : ℕ → ℤ × ℤ) where
  settle-gives_back :
      (c : ℕ) (t : Tracker K Closure) (app : App P)
      → app.pool.pending_queries ≡ []
      → settle sys json answer (gives_back c ∷ []) (t, app)
        ≡ (t, record app { pool = with_idle answer (sends_next app) c app.pool })
  unfolding settle apply_log
  settle-gives_back c t app none_waits =
      let fs : List (Frame Reply) = gives_back c ∷ [] in
      let steps : ℕ → Stepped Reply = λ n. run answer (sends_next app) n fs app.pool in
      let after : Stepped Reply → State K P =
        λ r. apply_log sys json r.log (t, record app { pool = r.pool }) in
      let ends = run-gives_back answer (sends_next app) c app.pool none_waits in
      ap (λ qs. after (steps (2 + 0 + waiting_cost reply_cost qs))) none_waits
      ∙ ap (λ log. apply_log sys json log (t, record app { pool = (steps 2).pool })) ends.2
      ∙ ap {B = State K P} (λ pool. (t, record app { pool = pool })) ends.1

  apply_log-errs :
      (c : ℕ) (calls : List Call) (cb : Reply) (conn : DbConnection) (t : Tracker K Closure)
      (app : App P)
      → app.crashed ≡ false
      → conn.is_error ≡ true
      → apply_log sys json (does c calls ∷ runs cb conn ∷ []) (t, app)
        ≡ (perform sys (queries c) calls t, app)
  unfolding apply_log apply_entry answer_rows
  apply_log-errs c calls inserted conn t app running failed = rw running refl
  apply_log-errs c calls selected conn t app running failed = rw (running, failed, answer_rows) refl

module _ {P : Type 0} (answer : ℕ → ℤ × ℤ) where
  run_callback-errs :
      (app : App P) (c : ℕ) (cb : Reply) (conn : DbConnection)
      → conn.is_error ≡ true
      → run_callback answer (sends_next app) c cb conn ≡ gives_back c ∷ []
  unfolding run_callback sends_next
  run_callback-errs app c inserted conn failed = rw failed refl
  run_callback-errs app c selected conn failed = refl

  on_event_errs :
      (app : App P) (ev : EpollEvent) (e : Env) (c : ℕ) (cb : Reply)
      → find c app.pool.in_use ≡ some cb
      → let r = DbHandler.handle_event ev e.pq (app.pool.heap c) in
        callbacks r.1 ≢ 0
        → r.0.is_error ≡ true
        → on_event answer (sends_next app) ev e.pq c app.pool ≡ record {
          pool = record app.pool {
            heap = at_address c r.0 app.pool.heap;
            in_use = erase c app.pool.in_use;
          };
          frames = gives_back c ∷ [];
          log = does c r.1 ∷ runs cb r.0 ∷ [];
        }
  unfolding on_event
  on_event_errs app ev e c cb held called failed =
      let r = DbHandler.handle_event ev e.pq (app.pool.heap c) in
      let after : List (Frame Reply) → Stepped Reply = λ fs. record {
        pool = record app.pool {
          heap = at_address c r.0 app.pool.heap;
          in_use = erase c app.pool.in_use;
        };
        frames = fs;
        log = does c r.1 ∷ runs cb r.0 ∷ [];
      } in
      rw (held, on_event)
        (if_cases (λ (q : Stepped Reply). q ≡ after (gives_back c ∷ [])) (callbacks r.1 == 0) _ _
          (λ quiet. absurd (called (ground (arith, quiet))))
          (λ _. ap after (run_callback-errs app c cb r.0 failed)))

module _ {K P J : Type 0} (sys : Epoll K) (json : JsonLib J) (answer : ℕ → ℤ × ℤ) where
  -- An event on a connection of the pool that is at work on the INSERT or the SELECT of a client and
  -- ends with an error, while no query waits: the program goes on, but the clients, the registry and
  -- the open descriptors are as before, and on the reactor only the calls of the connection itself are
  -- made, and the pool drops the callback of the query. So the client gets no answer and is not deleted.
  pub failed_query_leaves_client :
      (c : ℕ) (e : Env) (ev : EpollEvent) (t : Tracker K Closure) (app : App P) (cb : Reply)
      → find c app.pool.in_use ≡ some cb
      → callbacks (DbHandler.handle_event ev e.pq (app.pool.heap c)).1 ≢ 0
      → (DbHandler.handle_event ev e.pq (app.pool.heap c)).0.is_error ≡ true
      → app.pool.pending_queries ≡ []
      → app.crashed ≡ false
      → let calls = (DbHandler.handle_event ev e.pq (app.pool.heap c)).1 in
        let s = on_query sys json answer c e ev (t, app) in
        (s.0 ≡ perform sys (queries c) calls t)
        × (s.1.world ≡ app.world)
        × (s.1.clients ≡ app.clients)
        × (s.1.system ≡ app.system)
        × (s.1.pool.in_use ≡ erase c app.pool.in_use)
        × (s.1.crashed ≡ false)
  unfolding on_query
  failed_query_leaves_client c e ev t app cb held called failed none_waits running =
      let r = DbHandler.handle_event ev e.pq (app.pool.heap c) in
      let pool' : DbPooler Reply = record app.pool {
        heap = at_address c r.0 app.pool.heap;
        in_use = erase c app.pool.in_use;
      } in
      let app' : App P = record app { pool = pool' } in
      let end : State K P = (
        perform sys (queries c) r.1 t,
        record app { pool = with_idle answer (sends_next app') c pool' },
      ) in
      let ends : on_query sys json answer c e ev (t, app) ≡ end =
        ap
          (λ (q : Stepped Reply).
            settle sys json answer q.frames
              (apply_log sys json q.log (t, record app { pool = q.pool })))
          (on_event_errs answer app ev e c cb held called failed)
        ∙ ap (λ (s : State K P). settle sys json answer (gives_back c ∷ []) s)
            (apply_log-errs sys json answer c r.1 cb r.0 t app' running failed)
        ∙ settle-gives_back sys json answer c (perform sys (queries c) r.1 t) app' none_waits in
      (
        ap (λ (s : State K P). s.0) ends,
        ap (λ (s : State K P). s.1.world) ends,
        ap (λ (s : State K P). s.1.clients) ends,
        ap (λ (s : State K P). s.1.system) ends,
        ap (λ (s : State K P). s.1.pool.in_use) ends,
        ap (λ (s : State K P). s.1.crashed) ends ∙ running,
      )
