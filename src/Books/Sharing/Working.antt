-- ===== src/Books/Sharing/Working.antt =====
-- The connections of the pool in example/server.cpp that are at work on a query: what a run of the
-- pool registers in the reactor for them.
use asynchronous_http_web_se.Base.{
  ℕ, zero, suc, ◌≡◌, refl, ◌∙◌, ◌⊎◌, inl, inr, List, [], ◌∷◌, ◌++◌, ℤ, pos, minus_one, int_key,
  nat_key, ◌=?◌, ◌==◌, ltb, true, arith, if_cases,
}
use asynchronous_http_web_se.StdMap.{find}
use asynchronous_http_web_se.Epoll.{Epoll, EpollLaws, read_mask}
use asynchronous_http_web_se.Reactor.{Tracker, helper_sock}
use asynchronous_http_web_se.Reactor.Tracking.{IsTracked}
use asynchronous_http_web_se.Calls.{Call, tracks, perform, callbacks}
use asynchronous_http_web_se.Calls.Adding.{OnlyAdds, add_track-OnlyAdds}
use asynchronous_http_web_se.Db.{DbConnection, Handled, send_query, read_write_mask}
use asynchronous_http_web_se.Pooler.{
  PendingQuery, DbPooler, Entry, asks, hands, does, runs, Frame, sends, gives_back, drains, Stepped,
  hand_over, pool_send_query, send_next, step, run,
}
use asynchronous_http_web_se.Pooler.Homes.{step-SameSockets}
use asynchronous_http_web_se.Books.{Reply, Closure, queries}
use asynchronous_http_web_se.Books.Sharing.{IsHeld}

-- The connections at work stay at work.
abbrev pub KeepsHeld : DbPooler Reply → DbPooler Reply → Type 0
KeepsHeld pool pool' = (c : ℕ) → IsHeld c pool → IsHeld c pool'

module _ {K : Type 0} (sys : Epoll K) (laws : EpollLaws sys) (home : ℕ → ℤ) where
  -- Calls for a connection register it under its socket alone, and only one that is at work.
  abbrev pub CallsFit : DbPooler Reply → ℕ → List Call → Type 0
  CallsFit pool c calls =
      ((t : Tracker K Closure)
        → IsTracked sys t
        → OnlyAdds sys laws (home c) (queries c) t (perform sys (queries c) calls t))
      × (IsHeld c pool ⊎ ((t : Tracker K Closure) → perform sys (queries c) calls t ≡ t))

  abbrev pub LogFits : DbPooler Reply → List (Entry Reply) → Type 0
  LogFits pool [] = Unit {0}
  LogFits pool (does c calls ∷ log) = CallsFit pool c calls × LogFits pool log
  LogFits pool (asks q ∷ log) = LogFits pool log
  LogFits pool (hands q c ∷ log) = LogFits pool log
  LogFits pool (runs cb conn ∷ log) = LogFits pool log

  LogFits-grows :
      (log : List (Entry Reply)) (pool pool' : DbPooler Reply)
      → KeepsHeld pool pool'
      → LogFits pool log
      → LogFits pool' log
  LogFits-grows [] pool pool' still h = tt
  LogFits-grows (does c calls ∷ log) pool pool' still (calls_fit, h) = (
    (calls_fit.0, elim calls_fit.1 [ inl held ↦ inl (still c held) | inr nothing ↦ inr nothing ]),
    LogFits-grows log pool pool' still h,
  )
  LogFits-grows (asks q ∷ log) pool pool' still h = LogFits-grows log pool pool' still h
  LogFits-grows (hands q c ∷ log) pool pool' still h = LogFits-grows log pool pool' still h
  LogFits-grows (runs cb conn ∷ log) pool pool' still h = LogFits-grows log pool pool' still h

  pub LogFits-first :
      (pool : DbPooler Reply) (e : Entry Reply) (log : List (Entry Reply))
      → LogFits pool (e ∷ log)
      → LogFits pool (e ∷ []) × LogFits pool log
  LogFits-first pool (asks q) log h = (tt, h)
  LogFits-first pool (hands q c) log h = (tt, h)
  LogFits-first pool (does c calls) log h = ((h.0, tt), h.1)
  LogFits-first pool (runs cb conn) log h = (tt, h)

  LogFits-append :
      (a b : List (Entry Reply)) (pool : DbPooler Reply)
      → LogFits pool a
      → LogFits pool b
      → LogFits pool (a ++ b)
  LogFits-append [] b pool h k = k
  LogFits-append (does c calls ∷ a) b pool h k = (h.0, LogFits-append a b pool h.1 k)
  LogFits-append (asks q ∷ a) b pool h k = LogFits-append a b pool h k
  LogFits-append (hands q c ∷ a) b pool h k = LogFits-append a b pool h k
  LogFits-append (runs cb conn ∷ a) b pool h k = LogFits-append a b pool h k

  registers :
      {c : ℕ} (mask : ℕ) (conn : DbConnection)
      → conn.socket ≡ home c
      → (t : Tracker K Closure) → IsTracked sys t
      → OnlyAdds sys laws
          (home c)
          (queries c)
          t
          (perform sys (queries c) (tracks conn.socket mask helper_sock ∷ []) t)
  unfolding perform
  registers {c} mask conn at_home t h =
      rw at_home (add_track-OnlyAdds sys laws (home c) (queries c) t mask helper_sock h)

  -- `sendQuery` of a connection registers its socket, or runs the callback and registers nothing.
  send_query_calls :
      (c : ℕ) (sent status : ℤ) (conn : DbConnection)
      → conn.socket ≡ home c
      → let calls = (send_query sent status conn).1 in
        ((t : Tracker K Closure)
          → IsTracked sys t
          → OnlyAdds sys laws (home c) (queries c) t (perform sys (queries c) calls t))
        × ((callbacks calls ≡ 0) ⊎ ((t : Tracker K Closure) → perform sys (queries c) calls t ≡ t))
  unfolding send_query perform
  send_query_calls c sent status conn at_home =
      let P = λ (r : Handled).
        ((t : Tracker K Closure)
          → IsTracked sys t
          → OnlyAdds sys laws (home c) (queries c) t (perform sys (queries c) r.1 t))
        × ((callbacks r.1 ≡ 0) ⊎ ((t : Tracker K Closure) → perform sys (queries c) r.1 t ≡ t)) in
      if_cases P (sent =? pos 0) _ _ (λ _. ((λ t h. (h, λ j x e. inl e)), inr (λ t. refl)))
        (λ _.
          if_cases P (status =? minus_one) _ _
            (λ _. ((λ t h. (h, λ j x e. inl e)), inr (λ t. refl)))
            (λ _.
              if_cases P (status =? pos 0) _ _ (λ _. (registers read_mask conn at_home, inl refl))
                (λ _.
                  if_cases P (status =? pos 1) _ _
                    (λ _. (registers read_write_mask conn at_home, inl refl))
                    (λ _. ((λ t h. (h, λ j x e. inl e)), inl refl)))))

  module _ (answer : ℕ → ℤ × ℤ) (react : Reply → DbConnection → List (PendingQuery Reply)) where
    -- What a step leaves: the connections at work are still at work, and its log fits to the pool.
    abbrev Works : DbPooler Reply → Stepped Reply → Type 0
    Works pool r = KeepsHeld pool r.pool × LogFits r.pool r.log

    hand_over-Works :
        (q : PendingQuery Reply) (c : ℕ) (rest : List ℕ) (pool : DbPooler Reply)
        → (pool.heap c).socket ≡ home c
        → Works pool (hand_over answer react q c rest pool)
    unfolding hand_over find
    hand_over-Works q c rest pool at_home =
        let a = answer pool.answered in
        let conn = record (pool.heap c) { parent = q.client } in
        let made = send_query_calls c a.0 a.1 conn at_home in
        let self : (c =? c) ≡ true = (nat_key.same_iff c c).1 refl in
        if_cases (Works pool) (callbacks (send_query a.0 a.1 conn).1 == 0) _ _
          (λ _. ((λ d held. ground arith), ((made.0, inl (rw self refl)), tt)))
          (λ loud. (
            (λ d held. held),
            (
              (
                made.0,
                elim made.1 [
                  | inl quiet ↦ absurd (ground (arith, quiet, loud))
                  | inr nothing ↦ inr nothing
                ],
              ),
              tt,
            ),
          ))

    send-Works :
        (q : PendingQuery Reply) (pool : DbPooler Reply)
        → ((c : ℕ) → (pool.heap c).socket ≡ home c)
        → Works pool (pool_send_query answer react q pool)
    unfolding pool_send_query
    send-Works q pool at_home =
        if_cases (Works pool) (ltb 0 pool.idle_count) _ _ (λ _. takes_first pool.available_conns)
          (λ _. ((λ d held. held), tt))
      where
        takes_first :
            (conns : List ℕ)
            → Works pool (elim conns as (λ _. Stepped Reply) [
              | [] ↦ record { pool = pool; frames = []; log = [] }
              | c ∷ rest ↦ hand_over answer react q c rest pool
            ])
        takes_first [] = ((λ d held. held), tt)
        takes_first (c ∷ rest) = hand_over-Works q c rest pool (at_home c)

    next-Works :
        (qs : List (PendingQuery Reply)) (pool : DbPooler Reply)
        → ((c : ℕ) → (pool.heap c).socket ≡ home c)
        → Works pool (send_next answer react qs pool)
    unfolding send_next
    next-Works [] pool at_home = ((λ d held. held), tt)
    next-Works (q ∷ qs) pool at_home = send-Works q (record pool { pending_queries = qs }) at_home

    step-Works :
        (f : Frame Reply) (pool : DbPooler Reply)
        → ((c : ℕ) → (pool.heap c).socket ≡ home c)
        → Works pool (step answer react f pool)
    unfolding step
    step-Works (sends q) pool at_home = send-Works q pool at_home
    step-Works (gives_back c) pool at_home = ((λ d held. held), tt)
    step-Works drains pool at_home =
        if_cases (Works pool) (ltb 0 pool.idle_count) _ _
          (λ _. next-Works pool.pending_queries pool at_home) (λ _. ((λ d held. held), tt))

    -- The calls of the pool register only connections that are at work at their end.
    pub run-Works :
        (n : ℕ) (fs : List (Frame Reply)) (pool : DbPooler Reply)
        → ((c : ℕ) → (pool.heap c).socket ≡ home c)
        → Works pool (run answer react n fs pool)
    unfolding run
    run-Works zero fs pool at_home = ((λ d held. held), tt)
    run-Works (suc n) [] pool at_home = ((λ d held. held), tt)
    run-Works (suc n) (f ∷ fs) pool at_home =
        let r = step answer react f pool in
        let one = step-Works f pool at_home in
        let later =
          run-Works n (r.frames ++ fs) r.pool
            (λ c. step-SameSockets answer react f pool c ∙ at_home c) in
        let s = run answer react n (r.frames ++ fs) r.pool in
        (
          (λ c held. later.0 c (one.0 c held)),
          LogFits-append r.log s.log s.pool (LogFits-grows r.log r.pool s.pool later.0 one.1)
              later.1,
        )
