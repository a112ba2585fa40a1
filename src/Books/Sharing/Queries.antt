-- ===== src/Books/Sharing/Queries.antt =====
-- An event on a connection that is at work on a query of example/server.cpp.
use asynchronous_http_web_se.Base.{
  ℕ, ◌≤◌, ◌≡◌, refl, sym, ap, subst, ◌∙◌, inl, inr, true, false, [], ◌∷◌, none, some, is_some,
  Option-cases, Bool-cases, ℤ, int_key, nat_key, ◌=?◌, ◌==◌, arith,
}
use asynchronous_http_web_se.SafeMap.{get}
use asynchronous_http_web_se.StdMap.{find, erase}
use asynchronous_http_web_se.StdMap.Laws.{find-erase_other}
use asynchronous_http_web_se.Epoll.{Epoll, EpollLaws, EpollEvent}
use asynchronous_http_web_se.Reactor.{Tracker}
use asynchronous_http_web_se.Reactor.Tracking.{IsTracked}
use asynchronous_http_web_se.Calls.{perform, callbacks}
use asynchronous_http_web_se.Calls.Adding.{OnlyAdds}
use asynchronous_http_web_se.Db.Handler as DbHandler
use asynchronous_http_web_se.Db.Handler.Machine.{handle_event-Goes}
use asynchronous_http_web_se.Db.Handler.Turns.{handle_event_turns}
use asynchronous_http_web_se.Pooler.{
  DbPooler, does, runs, Stepped, run_callback, on_event, at_address,
}
use asynchronous_http_web_se.Pooler.Homes.{on_event-SameSockets}
use asynchronous_http_web_se.Pooler.Places.{places, on_event_keeps_places}
use asynchronous_http_web_se.Books.{Reply, Closure, queries, JsonLib, Env, State}
use asynchronous_http_web_se.Books.Handlers.{sends_next, apply_log, settle}
use asynchronous_http_web_se.Books.Serving.{on_query}
use asynchronous_http_web_se.Books.Sharing.{
  connection_of, working_on, IsHeld, IsShared, Apart, keeps_places-IsShared,
}
use asynchronous_http_web_se.Books.Sharing.Callbacks.{IsShared-of, apply_log-Shared, settle-Apart}
use asynchronous_http_web_se.Books.Sharing.Connecting.{Turn-OnlyAdds}

module _ {K P J : Type 0} (sys : Epoll K) (laws : EpollLaws sys) (home : ℕ → ℤ) (json : JsonLib J)
    (answer : ℕ → ℤ × ℤ) (c : ℕ) (e : Env) (ev : EpollEvent) (s : State K P)
    (h : Apart sys home s) where
  abbrev Result : Stepped Reply → Type 0
  Result r = Apart sys home (
      settle sys json answer r.frames
        (apply_log sys json r.log (s.0, record s.1 { pool = r.pool })))

  -- The connection registers nothing but itself, under its socket.
  handled-OnlyAdds :
      (t : Tracker K Closure)
      → IsTracked sys t
      → OnlyAdds sys laws
          (home c)
          (queries c)
          t
          (perform sys (queries c) (DbHandler.handle_event ev e.pq (s.1.pool.heap c)).1 t)
  handled-OnlyAdds t tracked =
      subst
        (λ fd.
          OnlyAdds sys laws fd (queries c) t
            (perform sys (queries c) (DbHandler.handle_event ev e.pq (s.1.pool.heap c)).1 t))
        (h.at_home c)
        (Turn-OnlyAdds sys laws (queries c) t tracked (handle_event-Goes ev e.pq (s.1.pool.heap c)))

  quiet-Result :
      (cb : Reply)
      → find c s.1.pool.in_use ≡ some cb
      → (callbacks (DbHandler.handle_event ev e.pq (s.1.pool.heap c)).1 == 0) ≡ true
      → Result (on_event answer (sends_next s.1) ev e.pq c s.1.pool)
  quiet-Result cb held quiet =
      let pool = s.1.pool in
      let react = sends_next s.1 in
      let r = on_event answer react ev e.pq c pool in
      let handled = DbHandler.handle_event ev e.pq (pool.heap c) in
      let pool' : DbPooler Reply = record pool { heap = at_address c handled.0 pool.heap } in
      let waiting : Stepped Reply = record {
        pool = pool';
        frames = [];
        log = does c handled.1 ∷ [];
      } in
      let is : r ≡ waiting = unfold on_event in rw (held, on_event, quiet) refl in
      let kept : IsShared sys home [] s.0 pool' =
        keeps_places-IsShared sys laws home h [] pool'
          (subst (λ (q : Stepped Reply). (i : ℕ) → (q.pool.heap i).socket ≡ (pool.heap i).socket) is
            (on_event-SameSockets answer react ev e.pq c pool))
          (λ i. refl) h.counted (λ i at_work. at_work) in
      let s' : State K P = (s.0, record s.1 { pool = pool' }) in
      let logged =
        apply_log-Shared sys laws home [] pool' json waiting.log s'
          ((handled-OnlyAdds, inl (rw held refl)), tt) (kept, refl) in
      subst Result (sym is) (
        settle-Apart sys laws home json answer [] (apply_log sys json waiting.log s')
          (IsShared-of sys laws home [] pool' (apply_log sys json waiting.log s') logged))

  -- The step that an event which runs the callback makes.
  abbrev ended : Reply → Stepped Reply
  ended cb =
      let conn = (DbHandler.handle_event ev e.pq (s.1.pool.heap c)).0 in
      record {
        pool = record s.1.pool {
          heap = at_address c conn s.1.pool.heap;
          in_use = erase c s.1.pool.in_use;
        };
        frames = run_callback answer (sends_next s.1) c cb conn;
        log = does c (DbHandler.handle_event ev e.pq (s.1.pool.heap c)).1 ∷ runs cb conn ∷ [];
      }

  abbrev tracker : Tracker K Closure
  tracker = perform sys (queries c) (DbHandler.handle_event ev e.pq (s.1.pool.heap c)).1 s.0

  module _ (cb : Reply) (held : find c s.1.pool.in_use ≡ some cb)
      (loud : (callbacks (DbHandler.handle_event ev e.pq (s.1.pool.heap c)).1 == 0) ≡ false) where
    on_event-ended : on_event answer (sends_next s.1) ev e.pq c s.1.pool ≡ ended cb
    unfolding on_event
    on_event-ended = rw (held, on_event, loud) refl

    gone_with_socket : get (home c) tracker.event_callback ≡ none
    gone_with_socket =
        let turns =
          handle_event_turns sys (queries c) s.0 ev e.pq (s.1.pool.heap c) laws h.tracked in
        elim turns.1.1 [
          | inl quiet ↦ absurd (ground (arith, quiet, loud))
          | inr (called, none_there) ↦
              subst (λ j. get j tracker.event_callback ≡ none) (h.at_home c) none_there
        ]

    ended-places : (i : ℕ) → places i (ended cb).frames (ended cb).pool ≡ places i [] s.1.pool
    ended-places i =
        subst (λ (q : Stepped Reply). places i q.frames q.pool ≡ places i [] s.1.pool)
          on_event-ended (on_event_keeps_places answer (sends_next s.1) i ev e.pq c s.1.pool)

    -- Other connections that the reactor waits for are still at work.
    ended-works :
        (fd : ℤ) (x : Closure) (i : ℕ)
        → get fd tracker.event_callback ≡ some x
        → working_on x ≡ some i
        → IsHeld i (ended cb).pool × (fd ≡ home i)
    ended-works fd x i f own =
        let adds = handled-OnlyAdds s.0 h.tracked in
        elim (adds.1 fd x f) [
          | inl old ↦
              let before = h.works fd x i old own in
              elim (Bool-cases (c =? i)) [
                | inl same ↦
                    let at_c : i ≡ c = ground (arith, same) in
                    let there : get (home c) tracker.event_callback ≡ some x =
                      subst (λ j. get j tracker.event_callback ≡ some x) (before.1 ∙ ap home at_c)
                        f in
                    let clash : none ≡ some x = sym gone_with_socket ∙ there in cc
                | inr other ↦
                    (ap is_some (find-erase_other c i s.1.pool.in_use other) ∙ before.0, before.1)
              ]
          | inr (at_fd, same) ↦
              let there : get (home c) tracker.event_callback ≡ some x =
                subst (λ j. get j tracker.event_callback ≡ some x) at_fd f in
              let clash : none ≡ some x = sym gone_with_socket ∙ there in cc
        ]

    ended-IsShared : IsShared sys home (ended cb).frames tracker (ended cb).pool
    ended-IsShared =
        let adds = handled-OnlyAdds s.0 h.tracked in
        record {
          tracked = adds.0;
          at_home = λ i.
              subst (λ (q : Stepped Reply). (q.pool.heap i).socket ≡ (s.1.pool.heap i).socket)
                on_event-ended (on_event-SameSockets answer (sends_next s.1) ev e.pq c s.1.pool i)
              ∙ h.at_home i;
          once = λ i. subst (λ (n : ℕ). n ≤ 1) (sym (ended-places i)) (h.once i);
          counted = h.counted;
          waits = λ fd x i f own. elim (adds.1 fd x f) [
            | inl old ↦ let before = h.waits fd x i old own in (ended-places i ∙ before.0, before.1)
            | inr (at_fd, same) ↦
                let own' : connection_of (queries c) ≡ some i =
                  subst (λ (y : Closure). connection_of y ≡ some i) same own in
                cc
          ];
          works = ended-works;
        }

    loud-Result : s.1.crashed ≡ false → Result (on_event answer (sends_next s.1) ev e.pq c s.1.pool)
    loud-Result running =
        let frames = (ended cb).frames in
        let pool' = (ended cb).pool in
        let s' : State K P = (tracker, record s.1 { pool = pool' }) in
        let before : State K P = (s.0, record s.1 { pool = pool' }) in
        let rest = runs cb (DbHandler.handle_event ev e.pq (s.1.pool.heap c)).0 ∷ [] in
        let logged =
          apply_log-Shared sys laws home frames pool' json rest s' tt (ended-IsShared, refl) in
        let first : apply_log sys json (ended cb).log before ≡ apply_log sys json rest s' =
          unfold apply_log in rw running refl in
        subst Result (sym on_event-ended) (
          settle-Apart sys laws home json answer frames (apply_log sys json (ended cb).log before) (
            subst (λ (q : State K P). IsShared sys home frames q.0 q.1.pool) (sym first)
              (IsShared-of sys laws home frames pool' (apply_log sys json rest s') logged)))

  -- An event on a connection at work keeps the pool's connections apart.
  pub on_query-Apart : s.1.crashed ≡ false → Apart sys home (on_query sys json answer c e ev s)
  unfolding on_query
  on_query-Apart running = elim (Option-cases (find c s.1.pool.in_use)) [
    | inl unheld ↦
        let idle : Stepped Reply = record { pool = s.1.pool; frames = []; log = [] } in
        let is : on_event answer (sends_next s.1) ev e.pq c s.1.pool ≡ idle =
          unfold on_event in rw (unheld, on_event) refl in
        subst Result (sym is) (unfold apply_log in settle-Apart sys laws home json answer [] s h)
    | inr (cb, held) ↦
        elim (Bool-cases (callbacks (DbHandler.handle_event ev e.pq (s.1.pool.heap c)).1 == 0)) [
          | inl quiet ↦ quiet-Result cb held quiet
          | inr loud ↦ loud-Result cb held loud running
        ]
  ]
