-- ===== src/Books/Sharing/Connecting.antt =====
-- A connection of example/server.cpp that is being established, from the pool's constructor to the
-- callback that puts it into the pool.
use asynchronous_http_web_se.Base.{
  is_some, true, sym, ℕ, suc, ◌+◌, ◌≤◌, ◌≡◌, refl, ap, subst, ◌∙◌, inl, inr, Bool, List, [], ◌∷◌,
  Option, none, some, ℤ, int_key, nat_key, ◌=?◌, ◌==◌, arith, Bool-cases, if_cases, if◌then◌else◌,
}
use asynchronous_http_web_se.SafeMap.{get}
use asynchronous_http_web_se.StdMap.{find}
use asynchronous_http_web_se.Epoll.{Epoll, EpollLaws, EpollEvent}
use asynchronous_http_web_se.Reactor.{Tracker, remove_track}
use asynchronous_http_web_se.Reactor.Tracking.{IsTracked}
use asynchronous_http_web_se.Calls.{Call, perform, callbacks}
use asynchronous_http_web_se.Calls.Adding.{OnlyAdds, modify_track-OnlyAdds, remove_track-OnlyAdds}
use asynchronous_http_web_se.Db.{DbConnection, DbConnectionState}
use asynchronous_http_web_se.Db.Handler as DbHandler
use asynchronous_http_web_se.Db.Handler.Machine.{Closing, Turn, handle_event-Goes}
use asynchronous_http_web_se.Db.Handler.Machine as Machine
use asynchronous_http_web_se.Db.Handler.Turns.{perform-Closing, handle_event_turns}
use asynchronous_http_web_se.Pooler.{DbPooler, at_address, on_connected}
use asynchronous_http_web_se.Pooler.Homes.{handle_event-socket, socket-at_address}
use asynchronous_http_web_se.Pooler.Counting.{on_connected-IsCounted}
use asynchronous_http_web_se.Pooler.Places.{places, occurs-append}
use asynchronous_http_web_se.Books.{Reply, Closure, connects, Env, State}
use asynchronous_http_web_se.Books.Serving.{on_connecting}
use asynchronous_http_web_se.Books.Sharing.{connection_of, working_on, IsShared}

module _ {K C : Type 0} (sys : Epoll K) (laws : EpollLaws sys) (closure : C) where
  pub Turn-OnlyAdds :
      {fd : ℤ} {s s' : DbConnectionState} {e : Bool} {cs : List Call} (t : Tracker K C)
      → IsTracked sys t
      → Turn fd s cs s' e
      → OnlyAdds sys laws fd closure t (perform sys closure cs t)
  unfolding perform
  Turn-OnlyAdds t h Machine.waits = (h, λ j x e. inl e)
  Turn-OnlyAdds {fd} t h (Machine.rearms mask p) =
      modify_track-OnlyAdds sys laws fd closure t mask p h
  Turn-OnlyAdds {fd} t h (Machine.query_sent mask p b) =
      modify_track-OnlyAdds sys laws fd closure t mask p h
  Turn-OnlyAdds {fd} t h (Machine.fails after a c) =
      rw (perform-Closing sys closure (remove_track sys t fd).0 c)
        (remove_track-OnlyAdds sys laws fd closure t h)
  Turn-OnlyAdds {fd} t h (Machine.connects b) = remove_track-OnlyAdds sys laws fd closure t h
  Turn-OnlyAdds {fd} t h (Machine.responds b c) =
      rw (perform-Closing sys closure (remove_track sys t fd).0 c)
        (remove_track-OnlyAdds sys laws fd closure t h)

-- The callback of `connectDb` puts its connection into one more place, if at all, and no other.
places-on_connected :
    (c i : ℕ) (pool : DbPooler Reply)
    → places i [] (on_connected c pool) ≤ places i [] pool + (if i =? c then 1 else 0)
unfolding on_connected
places-on_connected c i pool =
    let bound =
      λ (p : DbPooler Reply). places i [] p ≤ places i [] pool + (if i =? c then 1 else 0) in
    let more = occurs-append i pool.available_conns (c ∷ []) in
    if_cases bound (pool.heap c).is_error _ _ (λ _. omega arith)
      (λ _.
        if_cases bound (suc pool.connected_count == pool.pool_size) _ _ (λ _. omega (arith, more))
          (λ _. omega (arith, more)))

pub heap-on_connected : (c : ℕ) (pool : DbPooler Reply) → (on_connected c pool).heap ≡ pool.heap
unfolding on_connected
heap-on_connected c pool =
    let same = λ (p : DbPooler Reply). p.heap ≡ pool.heap in
    if_cases same (pool.heap c).is_error _ _ (λ _. refl)
      (λ _. if_cases same (suc pool.connected_count == pool.pool_size) _ _ (λ _. refl) (λ _. refl))

in_use-on_connected : (c : ℕ) (pool : DbPooler Reply) → (on_connected c pool).in_use ≡ pool.in_use
unfolding on_connected
in_use-on_connected c pool =
    let same = λ (p : DbPooler Reply). p.in_use ≡ pool.in_use in
    if_cases same (pool.heap c).is_error _ _ (λ _. refl)
      (λ _. if_cases same (suc pool.connected_count == pool.pool_size) _ _ (λ _. refl) (λ _. refl))

module _ {K : Type 0} (sys : Epoll K) (home : ℕ → ℤ) where
  -- The connection goes into the pool once nothing waits for it.
  on_connected-IsShared :
      (c : ℕ) (t : Tracker K Closure) (pool : DbPooler Reply)
      → IsShared sys home [] t pool
      → places c [] pool ≡ 0
      → get (home c) t.event_callback ≡ none
      → IsShared sys home [] t (on_connected c pool)
  on_connected-IsShared c t pool h nowhere gone = record {
    tracked = h.tracked;
    at_home = λ i.
        ap (λ (heap : ℕ → DbConnection). (heap i).socket) (heap-on_connected c pool) ∙ h.at_home i;
    once = λ i. elim (Bool-cases (i == c)) [
      | inl e ↦
          let same : i ≡ c = ground (arith, e) in
          let before : places i [] pool ≡ 0 = ap (λ k. places k [] pool) same ∙ nowhere in
          ground (arith, places-on_connected c i pool, before, e)
      | inr e ↦ ground (arith, places-on_connected c i pool, h.once i, e)
    ];
    counted = on_connected-IsCounted c pool h.counted;
    waits = λ fd x i e own.
        let old = h.waits fd x i e own in
        elim (Bool-cases (i == c)) [
          | inl same ↦
              let at_c : i ≡ c = ground (arith, same) in
              let there : get (home c) t.event_callback ≡ some x =
                subst (λ j. get j t.event_callback ≡ some x) (old.1 ∙ ap home at_c) e in
              cc
          | inr other ↦ (ground (arith, places-on_connected c i pool, old.0, other), old.1)
        ];
    works = λ fd x i e own.
        let old = h.works fd x i e own in
        (
          subst (λ (m : List (ℕ × Reply)). is_some (find i m) ≡ true)
              (sym (in_use-on_connected c pool)) old.0,
          old.1,
        );
  }

module _ {K P : Type 0} (sys : Epoll K) (laws : EpollLaws sys) (home : ℕ → ℤ) where
  pub on_connecting-Shared :
      (c : ℕ) (e : Env) (ev : EpollEvent) (s : State K P)
      → get ev.fd s.0.event_callback ≡ some (connects c)
      → IsShared sys home [] s.0 s.1.pool
      → let r = on_connecting sys c e ev s in IsShared sys home [] r.0 r.1.pool
  unfolding on_connecting
  on_connecting-Shared c e ev (t, app) held h =
      let conn = app.pool.heap c in
      let handled = DbHandler.handle_event ev e.pq conn in
      let t' = perform sys (connects c) handled.1 t in
      let pool : DbPooler Reply = record app.pool { heap = at_address c handled.0 app.pool.heap } in
      let turns = handle_event_turns sys (connects c) t ev e.pq conn laws h.tracked in
      let adds = Turn-OnlyAdds sys laws (connects c) t h.tracked (handle_event-Goes ev e.pq conn) in
      let here = h.waits ev.fd (connects c) c held refl in
      let kept : IsShared sys home [] t' pool = record {
        tracked = adds.0;
        at_home = λ i.
            socket-at_address c handled.0 app.pool.heap i (handle_event-socket ev e.pq conn)
            ∙ h.at_home i;
        once = h.once;
        counted = h.counted;
        waits = λ fd x i f own. elim (adds.1 fd x f) [
          | inl old ↦ h.waits fd x i old own
          | inr (at_fd, same) ↦
              let own' : some c ≡ some i =
                subst (λ (y : Closure). connection_of y ≡ some i) same own in
              let at_i : c ≡ i = ap (λ (o : Option ℕ). elim o [ some k ↦ k | none ↦ c ]) own' in
              (
                subst (λ k. places k [] app.pool ≡ 0) at_i here.0,
                at_fd ∙ h.at_home c ∙ ap home at_i,
              )
        ];
        works = λ fd x i f own. elim (adds.1 fd x f) [
          | inl old ↦ h.works fd x i old own
          | inr (at_fd, same) ↦
              let own' : working_on (connects c) ≡ some i =
                subst (λ (y : Closure). working_on y ≡ some i) same own in
              cc
        ];
      } in
      let shared = λ (r : State K P). IsShared sys home [] r.0 r.1.pool in
      elim turns.1.1 [
        | inl quiet ↦
            if_cases shared (callbacks handled.1 == 0) _ _ (λ _. kept)
              (λ loud. absurd (ground (arith, quiet, loud)))
        | inr (called, gone) ↦
            let gone' : get (home c) t'.event_callback ≡ none =
              subst (λ j. get j t'.event_callback ≡ none) (h.at_home c) gone in
            if_cases shared (callbacks handled.1 == 0) _ _
              (λ quiet. absurd (ground (arith, quiet, called)))
              (λ _. on_connected-IsShared sys home c t' pool kept here.0 gone')
      ]
