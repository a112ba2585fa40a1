-- ===== src/Reactor/Registering.antt =====
-- The priority that an fd was last registered with, from the calls of the tracking methods alone.
use asynchronous_http_web_se.Base.{
  ◌≡◌, ap, ◌∙◌, inl, inr, Option, none, some, Option-cases, ℤ, int_key, ◌=?◌, arith, if◌then◌else◌,
}
use asynchronous_http_web_se.SafeMap.{ThreadSafeMap, get, insert}
use asynchronous_http_web_se.SafeMap.Laws.{get-empty, get-insert}
use asynchronous_http_web_se.Epoll.{
  Epoll, EpollLaws, epollin, add_epoll_interest, modify_epoll_interest,
}
use asynchronous_http_web_se.Reactor.{
  Tracker, EventPriority, listen_sock, new_reactor, async_accept, add_track, modify_track,
}
use asynchronous_http_web_se.Reactor.Tracking.{remove_track_effect}
use asynchronous_http_web_se.Reactor.Steps.{
  Reached, starts, accepts, adds, modifies, removes, Reached-IsTracked,
}

-- What a registration of `fd` with this priority leaves for `j`, given what `epoll_ctl` answered.
abbrev pub registers :
    {K : Type 0} → Option K → ℤ → EventPriority → ℤ → Option EventPriority → Option EventPriority
registers none fd p j before = before
registers (some _) fd p j before = if fd =? j then some p else before

-- The priority in the last call for this fd that `epoll_ctl` accepted; none where there was none, or
-- the fd was taken out since.
unfoldable pub last_priority :
    {K C : Type 0} {sys : Epoll K} {k : K} {t : Tracker K C}
    → Reached sys k t
    → ℤ
    → Option EventPriority
last_priority starts j = none
last_priority {sys} (accepts {t} fd cb r) j =
    registers (sys.ctl_add t.epoll (record { events = epollin; fd = fd })) fd listen_sock j
      (last_priority r j)
last_priority {sys} (adds {t} fd mask p cb r) j =
    registers (sys.ctl_add t.epoll (record { events = mask; fd = fd })) fd p j (last_priority r j)
last_priority {sys} (modifies {t} fd mask p cb r) j =
    registers (sys.ctl_mod t.epoll (record { events = mask; fd = fd })) fd p j (last_priority r j)
last_priority (removes fd r) j = if fd =? j then none else last_priority r j

inserted :
    (p : EventPriority) (m : ThreadSafeMap ℤ EventPriority) (fd j : ℤ)
    {before : Option EventPriority}
    → get j m ≡ before
    → get j (insert fd p m) ≡ (if fd =? j then some p else before)
inserted p m fd j e =
    get-insert fd j p m ∙ ap (λ (o : Option EventPriority). if fd =? j then some p else o) e

module _ {K C : Type 0} (sys : Epoll K) (laws : EpollLaws sys) (k : K)
    (none_yet : (j : ℤ) → sys.interest k j ≡ none) where
  pub get-last_priority :
      {t : Tracker K C} (r : Reached sys k t) (j : ℤ) → get j t.event_priority ≡ last_priority r j
  unfolding last_priority async_accept add_track modify_track
  get-last_priority starts j = unfold new_reactor in get-empty j
  get-last_priority (accepts {t} fd cb r) j =
      elim (Option-cases (sys.ctl_add t.epoll (record { events = epollin; fd = fd }))) [
        | inl e ↦ rw (e, add_epoll_interest) (get-last_priority r j)
        | inr (_, e) ↦
            rw (e, add_epoll_interest)
              (inserted listen_sock t.event_priority fd j (get-last_priority r j))
      ]
  get-last_priority (adds {t} fd mask p cb r) j =
      elim (Option-cases (sys.ctl_add t.epoll (record { events = mask; fd = fd }))) [
        | inl e ↦ rw (e, add_epoll_interest) (get-last_priority r j)
        | inr (_, e) ↦
            rw (e, add_epoll_interest) (inserted p t.event_priority fd j (get-last_priority r j))
      ]
  get-last_priority (modifies {t} fd mask p cb r) j =
      elim (Option-cases (sys.ctl_mod t.epoll (record { events = mask; fd = fd }))) [
        | inl e ↦ rw (e, modify_epoll_interest) (get-last_priority r j)
        | inr (_, e) ↦
            rw (e, modify_epoll_interest) (inserted p t.event_priority fd j (get-last_priority r j))
      ]
  get-last_priority (removes {t} fd r) j = ground (
    arith,
    remove_track_effect sys laws t fd j (Reached-IsTracked sys laws k none_yet r),
    get-last_priority r j,
  )
