-- ===== src/Books/Safety.antt =====
-- The clients in the reactor against the clients that are alive.
pub mod Parts
pub mod Callbacks
pub mod Events
pub mod Runs
use asynchronous_http_web_se.Base.{
  Bool, false, ℕ, ◌≡◌, ◌≢◌, refl, sym, ap, subst, ◌∙◌, ◌⊎◌, inl, inr, List, [], ◌∷◌, Option, none,
  some, Option-cases, ℤ, int_key, int_eq_iff, nat_key, ◌=?◌, arith, Bool-cases, if◌then◌else◌,
}
use asynchronous_http_web_se.SafeMap.{get}
use asynchronous_http_web_se.SafeMap.Laws.{
  IsMap, get-insert, get-remove, insert-IsMap, remove-IsMap,
}
use asynchronous_http_web_se.Epoll.{Epoll, EpollLaws}
use asynchronous_http_web_se.Reactor.{
  Tracker, EventPriority, add_track, modify_track, remove_track, async_accept,
}
use asynchronous_http_web_se.Reactor.Tracking.{
  IsTracked, add_track_result, modify_track_result, async_accept_result, async_accept-IsTracked,
  remove_track_effect, add_track-IsTracked, modify_track-IsTracked, remove_track-IsTracked,
}
use asynchronous_http_web_se.Calls.{
  Call, tracks, modifies, untracks, transmits, clears, calls_back, perform, perform_call,
}
use asynchronous_http_web_se.Registry.{World, ClientObject}
use asynchronous_http_web_se.Registry.Parents.{IsSound}
use asynchronous_http_web_se.Client.{ClientConnection}
use asynchronous_http_web_se.Books.{Closure, accepts, reads, writes, connects, queries, App, State}

-- The client whose closure it is.
abbrev pub client_of : Closure → Option ℕ
client_of (reads a) = some a
client_of (writes a) = some a
client_of accepts = none
client_of (connects c) = none
client_of (queries c) = none

-- A client that is alive, with this socket.
abbrev pub LivesOn : World → ℕ → ℤ → Type 0
LivesOn w a fd = (o : ClientObject) × (w.objects a ≡ some o) × (o.socket ≡ fd)

module _ {K P : Type 0} (sys : Epoll K) where
  -- The reactor is in step with epoll; the registry has only clients that are alive; the objects of
  -- the living clients have the sockets that they were made with; and each closure of a client in
  -- the reactor is that of a living one, under its socket. No client was used after its end.
  pub record IsSafeIn (t : Tracker K Closure) (w : World) (clients : ℕ → ClientConnection P)
      (misused : Bool) : Type 0 where
    pub tracked : IsTracked sys t
    pub sound : IsSound w
    pub sockets : (a : ℕ) (o : ClientObject) → w.objects a ≡ some o → (clients a).socket ≡ o.socket
    pub lives :
        (fd : ℤ) (closure : Closure) (a : ℕ)
        → get fd t.event_callback ≡ some closure
        → client_of closure ≡ some a
        → LivesOn w a fd
    pub well_used : misused ≡ false

  abbrev pub IsSafe : State K P → Type 0
  IsSafe s = IsSafeIn s.0 s.1.world s.1.clients s.1.misused

-- The reactor has no closure of this client.
abbrev pub Untracked : {K : Type 0} → ℕ → Tracker K Closure → Type 0
Untracked a t =
    (fd : ℤ) (closure : Closure)
    → get fd t.event_callback ≡ some closure
    → client_of closure ≢ some a
