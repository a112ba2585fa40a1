-- ===== src/Calls/Adding.antt =====
-- The callbacks that the reactor holds after calls of its methods, against those before.
use asynchronous_http_web_se.Base.{
  ℕ, ◌≡◌, subst, ◌⊎◌, inl, inr, List, [], ◌∷◌, some, ℤ, int_key, int_eq_iff, nat_key, arith,
}
use asynchronous_http_web_se.SafeMap.{get}
use asynchronous_http_web_se.Epoll.{Epoll, EpollLaws}
use asynchronous_http_web_se.Reactor.{
  Tracker, EventPriority, add_track, modify_track, remove_track, async_accept,
}
use asynchronous_http_web_se.Reactor.Tracking.{
  IsTracked, add_track_result, modify_track_result, async_accept_result, async_accept-IsTracked,
  remove_track_effect, add_track-IsTracked, modify_track-IsTracked, remove_track-IsTracked,
}
use asynchronous_http_web_se.Calls.{
  Call, tracks, modifies, untracks, transmits, clears, calls_back, perform, perform_call,
}

module _ {K C : Type 0} (sys : Epoll K) (laws : EpollLaws sys) (fd : ℤ) (closure : C) where
  -- A registration adds no closure but this one, and that under this fd.
  abbrev pub OnlyAdds : Tracker K C → Tracker K C → Type 0
  OnlyAdds t u =
      IsTracked sys u
      × ((j : ℤ) (x : C)
          → get j u.event_callback ≡ some x
          → (get j t.event_callback ≡ some x) ⊎ ((j ≡ fd) × (x ≡ closure)))

  pub add_track-OnlyAdds :
      (t : Tracker K C) (mask : ℕ) (p : EventPriority)
      → IsTracked sys t
      → OnlyAdds t (add_track sys t fd mask p closure).0
  add_track-OnlyAdds t mask p h = (
    add_track-IsTracked sys laws t fd mask p closure h,
    λ j x e. elim (add_track_result sys t fd mask p closure) [
      | inl failed ↦
          inl (subst (λ (r : Tracker K C × ℤ). get j r.0.event_callback ≡ some x) failed e)
      | inr (zero_status, effect) ↦ ground (arith, effect j, e, int_eq_iff fd j)
    ],
  )

  pub modify_track-OnlyAdds :
      (t : Tracker K C) (mask : ℕ) (p : EventPriority)
      → IsTracked sys t
      → OnlyAdds t (modify_track sys t fd mask p closure).0
  modify_track-OnlyAdds t mask p h = (
    modify_track-IsTracked sys laws t fd mask p closure h,
    λ j x e. elim (modify_track_result sys t fd mask p closure) [
      | inl failed ↦
          inl (subst (λ (r : Tracker K C × ℤ). get j r.0.event_callback ≡ some x) failed e)
      | inr (zero_status, effect) ↦ ground (arith, effect j, e, int_eq_iff fd j)
    ],
  )

  pub async_accept-OnlyAdds :
      (t : Tracker K C) → IsTracked sys t → OnlyAdds t (async_accept sys t fd closure).0
  async_accept-OnlyAdds t h = (
    async_accept-IsTracked sys laws t fd closure h,
    λ j x e. elim (async_accept_result sys t fd closure) [
      | inl failed ↦
          inl (subst (λ (r : Tracker K C × ℤ). get j r.0.event_callback ≡ some x) failed e)
      | inr (zero_status, effect) ↦ ground (arith, effect j, e, int_eq_iff fd j)
    ],
  )

  pub remove_track-OnlyAdds :
      (t : Tracker K C) → IsTracked sys t → OnlyAdds t (remove_track sys t fd).0
  remove_track-OnlyAdds t h = (
    remove_track-IsTracked sys laws t fd h,
    λ j x e. inl (ground (arith, remove_track_effect sys laws t fd j h, e)),
  )

module _ {K C : Type 0} (sys : Epoll K) (laws : EpollLaws sys) (closure : C) where
  -- Calls of a handler add no closure but the handler's own.
  abbrev pub Adds : Tracker K C → Tracker K C → Type 0
  Adds t u =
      IsTracked sys u
      × ((j : ℤ) (x : C)
          → get j u.event_callback ≡ some x
          → (get j t.event_callback ≡ some x) ⊎ (x ≡ closure))

  Adds-of : (fd : ℤ) (t u : Tracker K C) → OnlyAdds sys laws fd closure t u → Adds t u
  Adds-of fd t u h = (h.0, λ j x e. elim (h.1 j x e) [ inl old ↦ inl old | inr own ↦ inr own.1 ])

  perform_call-Adds :
      (c : Call) (t : Tracker K C) → IsTracked sys t → Adds t (perform_call sys closure c t)
  unfolding perform_call
  perform_call-Adds (tracks fd mask p) t h =
      Adds-of fd t _ (add_track-OnlyAdds sys laws fd closure t mask p h)
  perform_call-Adds (modifies fd mask p) t h =
      Adds-of fd t _ (modify_track-OnlyAdds sys laws fd closure t mask p h)
  perform_call-Adds (untracks fd) t h =
      Adds-of fd t _ (remove_track-OnlyAdds sys laws fd closure t h)
  perform_call-Adds (transmits fd bytes) t h = (h, λ j x e. inl e)
  perform_call-Adds clears t h = (h, λ j x e. inl e)
  perform_call-Adds calls_back t h = (h, λ j x e. inl e)

  pub perform-Adds :
      (cs : List Call) (t : Tracker K C) → IsTracked sys t → Adds t (perform sys closure cs t)
  unfolding perform
  perform-Adds [] t h = (h, λ j x e. inl e)
  perform-Adds (c ∷ cs) t h =
      let first = perform_call-Adds c t h in
      let later = perform-Adds cs (perform_call sys closure c t) first.0 in
      (later.0, λ j x e. elim (later.1 j x e) [ inl old ↦ first.1 j x old | inr own ↦ inr own ])
