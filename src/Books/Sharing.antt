-- ===== src/Books/Sharing.antt =====
-- The connections of the pool in example/server.cpp: none is given to two queries at once.
pub mod Working
pub mod Connecting
pub mod Starting
pub mod Callbacks
pub mod Queries
pub mod Runs
use asynchronous_http_web_se.Base.{
  ℕ, ◌≤◌, ◌≡◌, refl, sym, ap, subst, ◌∙◌, inl, inr, List, [], Option, none, some, is_some, true, ℤ,
  int_key, nat_key,
}
use asynchronous_http_web_se.SafeMap.{get}
use asynchronous_http_web_se.StdMap.{find}
use asynchronous_http_web_se.Epoll.{Epoll, EpollLaws}
use asynchronous_http_web_se.Reactor.{Tracker}
use asynchronous_http_web_se.Reactor.Tracking.{IsTracked}
use asynchronous_http_web_se.Calls.{Call, perform}
use asynchronous_http_web_se.Calls.Adding.{OnlyAdds, Adds, perform-Adds}
use asynchronous_http_web_se.Pooler.{DbPooler, Frame}
use asynchronous_http_web_se.Pooler.Places.{places}
use asynchronous_http_web_se.Pooler.Sending.{IsCounted}
use asynchronous_http_web_se.Books.{
  Reply, Closure, accepts, reads, writes, connects, queries, State,
}

-- The connection that a closure waits to be established.
abbrev pub connection_of : Closure → Option ℕ
connection_of (connects c) = some c
connection_of accepts = none
connection_of (reads a) = none
connection_of (writes a) = none
connection_of (queries c) = none

-- The connection that a closure waits for to be done with its query.
abbrev pub working_on : Closure → Option ℕ
working_on (queries c) = some c
working_on accepts = none
working_on (reads a) = none
working_on (writes a) = none
working_on (connects c) = none

-- A connection is at work on a query, whose callback the pool has.
abbrev pub IsHeld : ℕ → DbPooler Reply → Type 0
IsHeld c pool = is_some (find c pool.in_use) ≡ true

module _ {K : Type 0} (sys : Epoll K) (home : ℕ → ℤ) where
  -- With these calls of the pool still to make: each connection has its socket; it is in one place at
  -- most, idle, at work on a query, or about to be given back; and one that the reactor waits for
  -- under its socket is in none; `idle_count` is the size of the queue of the idle ones; and where
  -- the reactor waits for the end of a query, the connection is at work, and under its socket.
  pub record IsShared (fs : List (Frame Reply)) (t : Tracker K Closure) (pool : DbPooler Reply)
      : Type 0 where
    pub tracked : IsTracked sys t
    pub at_home : (c : ℕ) → (pool.heap c).socket ≡ home c
    pub once : (c : ℕ) → places c fs pool ≤ 1
    pub counted : IsCounted pool
    pub waits :
        (fd : ℤ) (closure : Closure) (c : ℕ)
        → get fd t.event_callback ≡ some closure
        → connection_of closure ≡ some c
        → (places c fs pool ≡ 0) × (fd ≡ home c)
    pub works :
        (fd : ℤ) (closure : Closure) (c : ℕ)
        → get fd t.event_callback ≡ some closure
        → working_on closure ≡ some c
        → IsHeld c pool × (fd ≡ home c)

module _ {K P : Type 0} (sys : Epoll K) (home : ℕ → ℤ) where
  -- A state between two callbacks: the pool has no calls to make.
  abbrev pub Apart : State K P → Type 0
  Apart s = IsShared sys home [] s.0 s.1.pool

module _ {K : Type 0} (sys : Epoll K) (laws : EpollLaws sys) (home : ℕ → ℤ)
    {fs : List (Frame Reply)} {t : Tracker K Closure} {pool : DbPooler Reply}
    (h : IsShared sys home fs t pool) where
  -- Calls with a closure that waits for no connection.
  pub Adds-IsShared :
      (closure : Closure) (u : Tracker K Closure)
      → connection_of closure ≡ none
      → working_on closure ≡ none
      → Adds sys laws closure t u
      → IsShared sys home fs u pool
  Adds-IsShared closure u not_new not_at_work adds = record {
    tracked = adds.0;
    at_home = h.at_home;
    once = h.once;
    counted = h.counted;
    waits = λ fd x c e own. elim (adds.1 fd x e) [
      | inl old ↦ h.waits fd x c old own
      | inr same ↦
          let own' : connection_of closure ≡ some c =
            subst (λ (y : Closure). connection_of y ≡ some c) same own in
          cc
    ];
    works = λ fd x c e own. elim (adds.1 fd x e) [
      | inl old ↦ h.works fd x c old own
      | inr same ↦
          let own' : working_on closure ≡ some c =
            subst (λ (y : Closure). working_on y ≡ some c) same own in
          cc
    ];
  }

  pub perform-IsShared :
      (closure : Closure) (calls : List Call)
      → connection_of closure ≡ none
      → working_on closure ≡ none
      → IsShared sys home fs (perform sys closure calls t) pool
  perform-IsShared closure calls not_new not_at_work =
      Adds-IsShared closure (perform sys closure calls t) not_new not_at_work
        (perform-Adds sys laws closure calls t h.tracked)

  -- Calls for a connection that is at work, under its socket.
  pub queries-IsShared :
      (c : ℕ) (u : Tracker K Closure)
      → OnlyAdds sys laws (home c) (queries c) t u
      → IsHeld c pool
      → IsShared sys home fs u pool
  queries-IsShared c u adds held = record {
    tracked = adds.0;
    at_home = h.at_home;
    once = h.once;
    counted = h.counted;
    waits = λ fd x d e own. elim (adds.1 fd x e) [
      | inl old ↦ h.waits fd x d old own
      | inr (_, same) ↦
          let own' : connection_of (queries c) ≡ some d =
            subst (λ (y : Closure). connection_of y ≡ some d) same own in
          cc
    ];
    works = λ fd x d e own. elim (adds.1 fd x e) [
      | inl old ↦ h.works fd x d old own
      | inr (at_fd, same) ↦
          let own' : some c ≡ some d = subst (λ (y : Closure). working_on y ≡ some d) same own in
          let at_d : c ≡ d = ap (λ (o : Option ℕ). elim o [ some k ↦ k | none ↦ c ]) own' in
          (subst (λ k. IsHeld k pool) at_d held, at_fd ∙ ap home at_d)
    ];
  }

  -- The pool changes, and keeps its sockets, the places of its connections, and those at work.
  pub keeps_places-IsShared :
      (gs : List (Frame Reply)) (pool' : DbPooler Reply)
      → ((c : ℕ) → (pool'.heap c).socket ≡ (pool.heap c).socket)
      → ((c : ℕ) → places c gs pool' ≡ places c fs pool)
      → IsCounted pool'
      → ((c : ℕ) → IsHeld c pool → IsHeld c pool')
      → IsShared sys home gs t pool'
  keeps_places-IsShared gs pool' sockets kept count still = record {
    tracked = h.tracked;
    at_home = λ c. sockets c ∙ h.at_home c;
    once = λ c. subst (λ (n : ℕ). n ≤ 1) (sym (kept c)) (h.once c);
    counted = count;
    waits = λ fd x c e own. let old = h.waits fd x c e own in (kept c ∙ old.0, old.1);
    works = λ fd x c e own. let old = h.works fd x c e own in (still c old.0, old.1);
  }
