-- ===== src/Calls/Once.antt =====
-- Lists of calls that end a registration at most once, and what they do to the reactor.
use asynchronous_http_web_se.Base.{
  ◌≡◌, refl, ◌⊎◌, inl, inr, List, [], ◌∷◌, none, arith, ℤ, int_key, int_eq_iff, Bytes,
}
use asynchronous_http_web_se.SafeMap.{get}
use asynchronous_http_web_se.Epoll.{Epoll, EpollLaws}
use asynchronous_http_web_se.Reactor.{Tracker, remove_track}
use asynchronous_http_web_se.Reactor.Tracking.{IsTracked, remove_track_effect}
use asynchronous_http_web_se.Calls.{Call, untracks, transmits, calls_back, perform, callbacks}

-- The calls are `transmits` only, or `transmits` and then `removeTrack` of the socket and the
-- callback.
pub data OneShot (fd : ℤ) : List Call → Type 0 where
  silent : OneShot fd []
  last : OneShot fd (untracks fd ∷ calls_back ∷ [])
  sends :
      (s : ℤ) (bytes : Bytes) {cs : List Call} → OneShot fd cs → OneShot fd (transmits s bytes ∷ cs)

module _ {K C : Type 0} (sys : Epoll K) (closure : C) where
  -- What `OneShot` calls do to the reactor: nothing, with no callback run; or they take the socket
  -- out, so that the reactor holds no callback for it, with the callback run once.
  abbrev pub OneShotEffect : ℤ → List Call → Tracker K C → Type 0
  OneShotEffect fd cs t =
      ((callbacks cs ≡ 0) × (perform sys closure cs t ≡ t))
      ⊎ ((callbacks cs ≡ 1)
          × (perform sys closure cs t ≡ (remove_track sys t fd).0)
          × (get fd (perform sys closure cs t).event_callback ≡ none))

  pub effect_of_OneShot :
      {fd : ℤ} {cs : List Call} (t : Tracker K C)
      → EpollLaws sys
      → IsTracked sys t
      → OneShot fd cs
      → OneShotEffect fd cs t
  unfolding perform
  effect_of_OneShot t laws h silent = inl (refl, refl)
  effect_of_OneShot {fd} t laws h last =
      inr (refl, refl, ground (arith, remove_track_effect sys laws t fd fd h, int_eq_iff fd fd))
  effect_of_OneShot t laws h (sends s bytes o) = effect_of_OneShot t laws h o
