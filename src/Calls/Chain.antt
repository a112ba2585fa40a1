-- ===== src/Calls/Chain.antt =====
-- Calls of a handler that may move its registration on, and that end it at most once.
use asynchronous_http_web_se.Base.{
  ℕ, ◌≡◌, refl, ◌⊎◌, inl, inr, List, [], ◌∷◌, none, arith, ℤ, int_key, int_eq_iff, Bytes,
}
use asynchronous_http_web_se.SafeMap.{get}
use asynchronous_http_web_se.Epoll.{Epoll, EpollLaws}
use asynchronous_http_web_se.Reactor.{EventPriority, Tracker, modify_track}
use asynchronous_http_web_se.Reactor.Tracking.{
  IsTracked, remove_track_effect, remove_track-IsTracked, modify_track-IsTracked,
}
use asynchronous_http_web_se.Calls.{
  Call, modifies, untracks, transmits, calls_back, perform, callbacks,
}

-- `send`s and `modifyTrack`s of the socket, and at the end nothing, or `removeTrack` of the socket
-- and the callback.
pub data Chain (fd : ℤ) : List Call → Type 0 where
  silent : Chain fd []
  last : Chain fd (untracks fd ∷ calls_back ∷ [])
  sends : (bytes : Bytes) {cs : List Call} → Chain fd cs → Chain fd (transmits fd bytes ∷ cs)
  moves :
      (mask : ℕ) (p : EventPriority) {cs : List Call}
      → Chain fd cs
      → Chain fd (modifies fd mask p ∷ cs)

module _ {K C : Type 0} (sys : Epoll K) (closure : C) where
  -- What the calls do to the reactor: the callback has not run; or it has run once, and the reactor
  -- holds no callback for the socket.
  abbrev pub ChainEffect : ℤ → List Call → Tracker K C → Type 0
  ChainEffect fd cs t =
      IsTracked sys (perform sys closure cs t)
      × ((callbacks cs ≡ 0)
          ⊎ ((callbacks cs ≡ 1) × (get fd (perform sys closure cs t).event_callback ≡ none)))

  pub effect_of_Chain :
      {fd : ℤ} {cs : List Call} (t : Tracker K C)
      → EpollLaws sys
      → IsTracked sys t
      → Chain fd cs
      → ChainEffect fd cs t
  unfolding perform
  effect_of_Chain t laws h silent = (h, inl refl)
  effect_of_Chain {fd} t laws h last = (
    remove_track-IsTracked sys laws t fd h,
    inr (refl, ground (arith, remove_track_effect sys laws t fd fd h, int_eq_iff fd fd)),
  )
  effect_of_Chain t laws h (sends bytes c) = effect_of_Chain t laws h c
  effect_of_Chain {fd} t laws h (moves mask p c) =
      effect_of_Chain (modify_track sys t fd mask p closure).0 laws
        (modify_track-IsTracked sys laws t fd mask p closure h) c
