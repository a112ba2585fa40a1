-- ===== src/Books/Sharing/Starting.antt =====
-- The pool's constructor in example/server.cpp: the connections that the reactor waits for.
use asynchronous_http_web_se.Base.{
  ℕ, zero, suc, ◌+◌, ◌<◌, ◌≡◌, refl, sym, ap, subst, ◌∙◌, inl, inr, Bool, true, false, [], some,
  none, ℤ, pos, int_key, nat_key, ◌=?◌, text, arith, Bool-cases,
}
use asynchronous_http_web_se.SafeMap.{get}
use asynchronous_http_web_se.SafeMap.Laws.{get-empty}
use asynchronous_http_web_se.Epoll.{Epoll, EpollLaws, write_mask}
use asynchronous_http_web_se.Reactor.{Tracker, new_reactor, helper_sock}
use asynchronous_http_web_se.Reactor.Tracking.{IsTracked, new_reactor-IsTracked}
use asynchronous_http_web_se.Calls.{perform}
use asynchronous_http_web_se.Calls.Adding.{perform-Adds, add_track-OnlyAdds}
use asynchronous_http_web_se.Db.{DbConnection, new_db, connect_db}
use asynchronous_http_web_se.Pooler.{
  DbPooler, at_address, on_connected, start_one, start_from, empty_pool, new_pool,
}
use asynchronous_http_web_se.Pooler.Connecting.{new_pool-IsUntouched}
use asynchronous_http_web_se.Pooler.Places.{places}
use asynchronous_http_web_se.Books.{Reply, Closure, connects}
use asynchronous_http_web_se.Books.Serving.{track_from, db_connections}
use asynchronous_http_web_se.Books.Sharing.{connection_of, working_on, IsShared}
use asynchronous_http_web_se.Books.Sharing.Connecting.{heap-on_connected}

module _ (started : ℕ → Bool) (fd : ℕ → ℤ) where
  -- The reactor waits only for connections before `i` that were started, under their sockets.
  abbrev Begun : {K : Type 0} → ℕ → Tracker K Closure → Type 0
  Begun i t =
      (j : ℤ) (x : Closure) (c : ℕ)
      → get j t.event_callback ≡ some x
      → connection_of x ≡ some c
      → (started c ≡ true) × (c < i) × (j ≡ fd c)

  module _ {K : Type 0} (sys : Epoll K) (laws : EpollLaws sys) where
    connect_one :
        (i : ℕ) (t : Tracker K Closure)
        → IsTracked sys t
        → Begun i t
        → let u =
            perform sys
              (connects i)
              (connect_db (started i) (fd i) (new_db (text "") (pos 0))).1
              t in
          IsTracked sys u × Begun (suc i) u
    unfolding connect_db perform
    connect_one i t h begun = elim (Bool-cases (started i)) [
      | inr e ↦
          rw e
            (h, λ j x c f own. let old = begun j x c f own in (old.0, omega (arith, old.1), old.2))
      | inl e ↦
          let adds = add_track-OnlyAdds sys laws (fd i) (connects i) t write_mask helper_sock h in
          rw e (
            adds.0,
            λ j x c f own. elim (adds.1 j x f) [
              | inl old ↦
                  let before = begun j x c old own in (before.0, omega (arith, before.1), before.2)
              | inr (at_fd, same) ↦
                  let own' : some i ≡ some c =
                    subst (λ (y : Closure). connection_of y ≡ some c) same own in
                  let at_i : i ≡ c = ap (λ o. elim o [ some k ↦ k | none ↦ i ]) own' in
                  (subst (λ k. started k ≡ true) at_i e, omega (arith, at_i), at_fd ∙ ap fd at_i)
            ],
          )
    ]

    -- The reactor waits for no query.
    abbrev NoQueries : Tracker K Closure → Type 0
    NoQueries t = (j : ℤ) (x : Closure) → get j t.event_callback ≡ some x → working_on x ≡ none

    track_from-NoQueries :
        (n i : ℕ) (t : Tracker K Closure)
        → IsTracked sys t
        → NoQueries t
        → NoQueries (track_from sys started fd n i t)
    unfolding track_from
    track_from-NoQueries zero i t h quiet = quiet
    track_from-NoQueries (suc n) i t h quiet =
        let calls = (connect_db (started i) (fd i) (new_db (text "") (pos 0))).1 in
        let adds = perform-Adds sys laws (connects i) calls t h in
        track_from-NoQueries n (suc i) (perform sys (connects i) calls t) adds.0
          (λ j x e. elim (adds.1 j x e) [ inl old ↦ quiet j x old | inr same ↦ ap working_on same ])

    track_from-Begun :
        (n i k : ℕ) (t : Tracker K Closure)
        → i + n ≡ k
        → IsTracked sys t
        → Begun i t
        → IsTracked sys (track_from sys started fd n i t)
          × Begun k (track_from sys started fd n i t)
    unfolding track_from
    track_from-Begun zero i k t same h begun = (
      h,
      λ j x c e own. let old = begun j x c e own in (old.0, omega (arith, old.1, same), old.2),
    )
    track_from-Begun (suc n) i k t same h begun =
        let next = connect_one i t h begun in
        track_from-Begun n (suc i) k _ (omega (arith, same)) next.0 next.1

  -- The connections before `i` that were started have their sockets.
  abbrev HasSockets : ℕ → DbPooler Reply → Type 0
  HasSockets i pool = (c : ℕ) → started c ≡ true → c < i → (pool.heap c).socket ≡ fd c

  heap-start_one :
      (i j : ℕ) (pool : DbPooler Reply)
      → (start_one (started i) (fd i) i pool).heap j
        ≡ at_address i (connect_db (started i) (fd i) (new_db (text "") (pos 0))).0 pool.heap j
  unfolding start_one connect_db
  heap-start_one i j pool = elim (Bool-cases (started i)) [
    | inl e ↦ rw e refl
    | inr e ↦ rw e (
        ap (λ (heap : ℕ → DbConnection). heap j)
          (heap-on_connected i (record pool {
            heap = at_address i (connect_db false (fd i) (new_db (text "") (pos 0))).0 pool.heap;
          })))
  ]

  start_one-HasSockets :
      (i : ℕ) (pool : DbPooler Reply)
      → HasSockets i pool
      → HasSockets (suc i) (start_one (started i) (fd i) i pool)
  unfolding at_address connect_db
  start_one-HasSockets i pool h c e within = elim (Bool-cases (i =? c)) [
    | inl here ↦
        let at_c : i ≡ c = ground (arith, here) in
        let e' : started i ≡ true = ap started at_c ∙ e in
        ap (λ (d : DbConnection). d.socket) (heap-start_one i c pool)
        ∙ rw (here, at_address, e') (ap fd at_c)
    | inr there ↦
        ap (λ (d : DbConnection). d.socket) (heap-start_one i c pool)
        ∙ rw (there, at_address) (h c e (ground (arith, there, within)))
  ]

  places-start_one :
      (c i : ℕ) (pool : DbPooler Reply)
      → places c [] (start_one (started i) (fd i) i pool) ≡ places c [] pool
  unfolding start_one connect_db at_address on_connected
  places-start_one c i pool = elim (Bool-cases (started i)) [
    | inl e ↦ rw e refl
    | inr e ↦ let same : (i =? i) ≡ true = (nat_key.same_iff i i).1 refl in rw (e, same) refl
  ]

  start_from-begins :
      (n i k : ℕ) (pool : DbPooler Reply)
      → i + n ≡ k
      → HasSockets i pool
      → HasSockets k (start_from started fd n i pool)
        × ((c : ℕ) → places c [] (start_from started fd n i pool) ≡ places c [] pool)
  unfolding start_from
  start_from-begins zero i k pool same h =
      ((λ c e within. h c e (omega (arith, within, same))), (λ c. refl))
  start_from-begins (suc n) i k pool same h =
      let pool' = start_one (started i) (fd i) i pool in
      let rest =
        start_from-begins n (suc i) k pool' (omega (arith, same)) (start_one-HasSockets i pool h) in
      (rest.0, λ c. rest.1 c ∙ places-start_one c i pool)

  -- After the constructor no connection is in a place, and the reactor waits for each that was
  -- started under its socket.
  pub new_pool-IsShared :
      {K : Type 0} (sys : Epoll K) (laws : EpollLaws sys) (epollfd : K)
      → ((j : ℤ) → sys.interest epollfd j ≡ none)
      → let pool = new_pool started fd db_connections in
        IsShared sys
          (λ c. (pool.heap c).socket)
          []
          (track_from sys started fd db_connections 0 (new_reactor epollfd).tracker)
          pool
  unfolding new_pool new_reactor empty_pool
  new_pool-IsShared sys laws epollfd none_yet =
      let t : Tracker _ Closure = (new_reactor epollfd).tracker in
      let tracked = new_reactor-IsTracked {C = Closure} sys epollfd none_yet in
      let nothing : Begun 0 t = λ j x c e own. let e' = sym (get-empty {V = Closure} j) ∙ e in cc in
      let none_held : (j : ℤ) (x : Closure)
          → get j t.event_callback ≡ some x
          → working_on x ≡ none =
        λ j x e. let e' = sym (get-empty {V = Closure} j) ∙ e in cc in
      let no_queries = track_from-NoQueries sys laws db_connections 0 t tracked none_held in
      let begun =
        track_from-Begun sys laws db_connections 0 db_connections t refl tracked nothing in
      let made =
        start_from-begins db_connections 0 db_connections (empty_pool db_connections) refl
          (λ c e within. absurd (omega (arith, within))) in
      record {
        tracked = begun.0;
        at_home = λ c. refl;
        once = λ c. omega (arith, made.1 c);
        counted = (new_pool-IsUntouched started fd db_connections).0.0;
        waits = λ j x c e own.
            let old = begun.1 j x c e own in (made.1 c, old.2 ∙ sym (made.0 c old.0 old.1));
        works = λ j x c e own.
            let quiet = no_queries j x e in let clash : none ≡ some c = sym quiet ∙ own in cc;
      }
