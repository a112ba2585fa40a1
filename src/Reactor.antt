-- ===== src/Reactor.antt =====
-- include/reactor.h: `IOReactor`. A callback is a value of a type `C`, and the application's own
-- state is a type `W`; `invoke` runs a callback. It gets the tracking part of the reactor, and not
-- the event queue, which is private and which only `reactorRun` touches.
pub mod Queue
pub mod Tracking
pub mod Running
pub mod Dispatch
pub mod Steps
pub mod Registering
pub mod Lifetime
use asynchronous_http_web_se.Base.{
  ℕ, zero, suc, List, [], ◌∷◌, Option, none, some, Bool, true, false, ltb, ◌=?◌, ℤ, pos, int_key,
  minus_one, if◌then◌else◌,
}
use asynchronous_http_web_se.SafeMap.{ThreadSafeMap, empty, insert, get, remove, get_size}
use asynchronous_http_web_se.Epoll.{
  EpollEvent, Epoll, epollin, add_epoll_interest, modify_epoll_interest, remove_epoll_interest,
}

pub data EventPriority : Type 0 where
  listen_sock new_sock helper_sock : EventPriority

-- The value of an enumerator.
abbrev pub rank : EventPriority → ℕ
rank listen_sock = 0
rank new_sock = 1
rank helper_sock = 2

abbrev pub Queued : Type 0
Queued = EventPriority × EpollEvent

-- `PQComparator`
unfoldable pub pq_comparator : Queued → Queued → Bool
pq_comparator a b = ltb (rank a.0) (rank b.0)

-- `event_queue_.push`. The head of the list is `top()`, a greatest element by the comparator. Which
-- of several greatest elements a `std::priority_queue` gives is left open by the library; here the
-- oldest one goes first, and no theorem rests on that.
unfoldable pub push : Queued → List Queued → List Queued
unfolding pq_comparator
push x [] = x ∷ []
push x (y ∷ q) = if pq_comparator y x then x ∷ y ∷ q else y ∷ push x q

-- `epollfd_`, `event_callback_` and `event_priority_`
pub record Tracker (K C : Type 0) : Type 0 where
  pub epoll : K
  pub event_callback : ThreadSafeMap ℤ C
  pub event_priority : ThreadSafeMap ℤ EventPriority

pub record IoReactor (K C : Type 0) : Type 0 where
  pub tracker : Tracker K C
  pub open tracker use *
  pub event_queue : List Queued

-- The constructor, given the new epoll instance.
unfoldable pub new_reactor : {K C : Type 0} → K → IoReactor K C
new_reactor epollfd = record {
  tracker = record { epoll = epollfd; event_callback = empty; event_priority = empty };
  event_queue = [];
}

module _ {K C : Type 0} (sys : Epoll K) where
  -- The two `insert` calls that follow a successful `epoll_ctl`.
  register : Tracker K C → K → ℤ → EventPriority → C → Tracker K C
  register t k sockfd priority cb = record {
    epoll = k;
    event_callback = insert sockfd cb t.event_callback;
    event_priority = insert sockfd priority t.event_priority;
  }

  registered : Tracker K C → K × ℤ → ℤ → EventPriority → C → Tracker K C × ℤ
  unfolding register
  registered t (k, status) sockfd priority cb =
      if status =? minus_one then (t, minus_one) else (register t k sockfd priority cb, pos 0)

  unfoldable pub async_accept : Tracker K C → ℤ → C → Tracker K C × ℤ
  unfolding registered add_epoll_interest
  async_accept t sock cb =
      registered t (add_epoll_interest sys t.epoll sock epollin) sock listen_sock cb

  unfoldable pub add_track : Tracker K C → ℤ → ℕ → EventPriority → C → Tracker K C × ℤ
  unfolding registered add_epoll_interest
  add_track t sockfd mask priority cb =
      registered t (add_epoll_interest sys t.epoll sockfd mask) sockfd priority cb

  unfoldable pub modify_track : Tracker K C → ℤ → ℕ → EventPriority → C → Tracker K C × ℤ
  unfolding registered modify_epoll_interest
  modify_track t sockfd mask priority cb =
      registered t (modify_epoll_interest sys t.epoll sockfd mask) sockfd priority cb

  -- A failed `epoll_ctl` is passed over.
  unfoldable pub remove_track : Tracker K C → ℤ → Tracker K C × ℤ
  unfolding remove_epoll_interest
  remove_track t sockfd = (
    record {
      epoll = (remove_epoll_interest sys t.epoll sockfd).0;
      event_callback = (remove sockfd t.event_callback).0;
      event_priority = (remove sockfd t.event_priority).0;
    },
    pos 0,
  )

module _ {K C : Type 0} where
  -- `event_priority_.get` leaves the default `NEW_SOCK` where the fd has no entry.
  unfoldable pub priority_of : Tracker K C → EpollEvent → EventPriority
  priority_of t ev = elim (get ev.fd t.event_priority) [ some p ↦ p | none ↦ new_sock ]

  -- The `for` loop over the events of one `epoll_wait`.
  unfoldable pub enqueue : Tracker K C → List EpollEvent → List Queued → List Queued
  unfolding priority_of push
  enqueue t [] q = q
  enqueue t (ev ∷ evs) q = enqueue t evs (push (priority_of t ev, ev) q)

  -- `event_callback_.getSize() > 0`
  abbrev pub has_callbacks : Tracker K C → Bool
  has_callbacks t = ltb 0 (get_size t.event_callback)

-- What one `epoll_wait` gives: -1, or events.
pub data Wait : Type 0 where
  wait_failed : Wait
  ready : List EpollEvent → Wait

-- `reactorRun` returns a status, or it sits in an `epoll_wait` that has no result yet.
pub data Outcome : Type 0 where
  returned : ℤ → Outcome
  waiting : Outcome

-- A callback as what it does to the reactor and to the application's state.
abbrev pub Callback : Type 0 → Type 0 → Type 0 → Type 0
Callback K C W = EpollEvent → Tracker K C × W → Tracker K C × W

module _ {K C W : Type 0} (invoke : C → Callback K C W) where
  unfoldable pub run_callback : EpollEvent → Tracker K C × W → (Tracker K C × W) × ℤ
  run_callback new_event s = elim (get new_event.fd s.0.event_callback) [
    | some cb ↦ (invoke cb new_event s, pos 0)
    | none ↦ (s, minus_one)
  ]

  -- `while (!event_queue_.empty())`: run the callback of the top, then pop it.
  unfoldable pub drain : List Queued → Tracker K C × W → Tracker K C × W
  unfolding run_callback
  drain [] s = s
  drain (top ∷ q) s = drain q (run_callback top.1 s).0

  -- The argument lists what the successive `epoll_wait` calls give.
  unfoldable pub reactor_run :
      List Wait → List Queued → Tracker K C × W → (Tracker K C × W) × Outcome
  unfolding drain enqueue
  reactor_run [] q s =
      let s' = drain q s in if has_callbacks s'.0 then (s', waiting) else (s', returned (pos 0))
  reactor_run (wait_failed ∷ waits) q s =
      let s' = drain q s in
      if has_callbacks s'.0 then (s', returned minus_one) else (s', returned (pos 0))
  reactor_run (ready evs ∷ waits) q s =
      let s' = drain q s in
      let rest = reactor_run waits (enqueue s'.0 evs []) s' in
      if has_callbacks s'.0 then rest else (s', returned (pos 0))
