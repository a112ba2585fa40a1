-- ===== src/Reactor/Steps.antt =====
-- The reactors that the constructor and the tracking methods lead to, in any order of calls.
use asynchronous_http_web_se.Base.{◌↔◌, ℕ, ◌≡◌, none, ℤ, int_key, arith}
use asynchronous_http_web_se.SafeMap.{get_size}
use asynchronous_http_web_se.SafeMap.Laws.{get_size_zero}
use asynchronous_http_web_se.Epoll.{Epoll, EpollLaws}
use asynchronous_http_web_se.Reactor.{
  Tracker, EventPriority, new_reactor, async_accept, add_track, modify_track, remove_track,
}
use asynchronous_http_web_se.Reactor.Tracking.{
  IsTracked, new_reactor-IsTracked, add_track-IsTracked, async_accept-IsTracked,
  modify_track-IsTracked, remove_track-IsTracked,
}

-- A reactor after some calls. `k` is a new epoll instance.
pub data Reached {K C : Type 0} (sys : Epoll K) (k : K) : Tracker K C → Type 0 where
  starts : Reached sys k (new_reactor k).tracker
  accepts :
      {t : Tracker K C} (fd : ℤ) (cb : C)
      → Reached sys k t
      → Reached sys k (async_accept sys t fd cb).0
  adds :
      {t : Tracker K C} (fd : ℤ) (mask : ℕ) (p : EventPriority) (cb : C)
      → Reached sys k t
      → Reached sys k (add_track sys t fd mask p cb).0
  modifies :
      {t : Tracker K C} (fd : ℤ) (mask : ℕ) (p : EventPriority) (cb : C)
      → Reached sys k t
      → Reached sys k (modify_track sys t fd mask p cb).0
  removes : {t : Tracker K C} (fd : ℤ) → Reached sys k t → Reached sys k (remove_track sys t fd).0

module _ {K C : Type 0} (sys : Epoll K) (laws : EpollLaws sys) (k : K)
    (none_yet : (j : ℤ) → sys.interest k j ≡ none) where
  pub Reached-IsTracked : {t : Tracker K C} → Reached sys k t → IsTracked sys t
  Reached-IsTracked starts = new_reactor-IsTracked sys k none_yet
  Reached-IsTracked (accepts {t} fd cb r) =
      async_accept-IsTracked sys laws t fd cb (Reached-IsTracked r)
  Reached-IsTracked (adds {t} fd mask p cb r) =
      add_track-IsTracked sys laws t fd mask p cb (Reached-IsTracked r)
  Reached-IsTracked (modifies {t} fd mask p cb r) =
      modify_track-IsTracked sys laws t fd mask p cb (Reached-IsTracked r)
  Reached-IsTracked (removes {t} fd r) = remove_track-IsTracked sys laws t fd (Reached-IsTracked r)

  -- Whatever calls of the tracking methods were made, in any order, and whichever of them failed:
  -- an fd is in the interest list of epoll exactly if it has a callback, and exactly if it has a
  -- priority; no key stands twice in a map; and the reactor has no callback left, so that its loop
  -- ends, exactly if epoll watches nothing.
  pub tracking_in_step :
      (t : Tracker K C)
      → Reached sys k t
      → IsTracked sys t
        × ((get_size t.event_callback ≡ 0) ↔ ((j : ℤ) → sys.interest t.epoll j ≡ none))
  tracking_in_step t r =
      let h = Reached-IsTracked r in
      let size = get_size_zero t.event_callback in
      (
        h,
        (
          (λ e j. ground (arith, h.same_interest j, size.0 e j)),
          (λ watched. size.1 (λ j. ground (arith, h.same_interest j, watched j))),
        ),
      )
