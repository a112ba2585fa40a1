-- ===== src/Reactor/Tracking.antt =====
-- The interest list of epoll beside the two maps of the reactor.
use asynchronous_http_web_se.Base.{
  ℕ, ◌≡◌, ◌⊎◌, none, some, arith, ◌=?◌, ℤ, pos, int_key, int_eq_iff, minus_one, if◌then◌else◌,
  is_some, Option-cases, inl, inr,
}
use asynchronous_http_web_se.SafeMap.{get}
use asynchronous_http_web_se.SafeMap.Laws.{
  IsMap, empty-IsMap, insert-IsMap, remove-IsMap, get-insert, get-remove, get-empty,
}
use asynchronous_http_web_se.Epoll.{
  Epoll, EpollLaws, epollin, add_epoll_interest, modify_epoll_interest, remove_epoll_interest,
}
use asynchronous_http_web_se.Reactor.{
  Tracker, EventPriority, listen_sock, register, async_accept, add_track, modify_track,
  remove_track, new_reactor,
}

module _ {K C : Type 0} (sys : Epoll K) where
  pub record IsTracked (t : Tracker K C) : Type 0 where
    pub callbacks : IsMap t.event_callback
    pub priorities : IsMap t.event_priority
    pub same_interest :
        (j : ℤ) → is_some (sys.interest t.epoll j) ≡ is_some (get j t.event_callback)
    pub same_priority :
        (j : ℤ) → is_some (get j t.event_priority) ≡ is_some (get j t.event_callback)

  pub new_reactor-IsTracked :
      (k : K) → ((j : ℤ) → sys.interest k j ≡ none) → IsTracked (new_reactor {C = C} k).tracker
  unfolding new_reactor
  new_reactor-IsTracked k h = record {
    callbacks = empty-IsMap ℤ C;
    priorities = empty-IsMap ℤ EventPriority;
    same_interest = λ j. ground (arith, h j, get-empty {V = C} j);
    same_priority = λ j. ground (arith, get-empty {V = C} j, get-empty {V = EventPriority} j);
  }

  register-IsTracked :
      (t : Tracker K C) (k : K) (fd : ℤ) (mask : ℕ) (p : EventPriority) (cb : C)
      → ((j : ℤ) → sys.interest k j ≡ (if fd =? j then some mask else sys.interest t.epoll j))
      → IsTracked t
      → IsTracked (register sys t k fd p cb)
  unfolding register
  register-IsTracked t k fd mask p cb e h = record {
    callbacks = insert-IsMap fd cb t.event_callback h.callbacks;
    priorities = insert-IsMap fd p t.event_priority h.priorities;
    same_interest =
        λ j. ground (arith, e j, get-insert fd j cb t.event_callback, h.same_interest j);
    same_priority = λ j. ground (
      arith,
      get-insert fd j cb t.event_callback,
      get-insert fd j p t.event_priority,
      h.same_priority j,
    );
  }

  module _ (laws : EpollLaws sys) where
    -- `addTrack` keeps the interest list of epoll and the two maps in step: the same fds in all three,
    -- and no key twice in a map.
    pub add_track-IsTracked :
        (t : Tracker K C) (fd : ℤ) (mask : ℕ) (p : EventPriority) (cb : C)
        → IsTracked t
        → IsTracked (add_track sys t fd mask p cb).0
    unfolding add_track
    add_track-IsTracked t fd mask p cb h =
        elim (Option-cases (sys.ctl_add t.epoll (record { events = mask; fd = fd }))) [
          | inl e ↦ rw (e, add_epoll_interest) h
          | inr (k, e) ↦
              rw (e, add_epoll_interest)
                (register-IsTracked t k fd mask p cb (λ j. laws.add_some _ k _ j e) h)
        ]

    -- `asyncAccept` keeps the interest list of epoll and the two maps in step.
    pub async_accept-IsTracked :
        (t : Tracker K C) (fd : ℤ) (cb : C) → IsTracked t → IsTracked (async_accept sys t fd cb).0
    unfolding async_accept
    async_accept-IsTracked t fd cb h =
        elim (Option-cases (sys.ctl_add t.epoll (record { events = epollin; fd = fd }))) [
          | inl e ↦ rw (e, add_epoll_interest) h
          | inr (k, e) ↦
              rw (e, add_epoll_interest)
                (register-IsTracked t k fd epollin listen_sock cb (λ j. laws.add_some _ k _ j e) h)
        ]

    -- `modifyTrack` keeps the interest list of epoll and the two maps in step.
    pub modify_track-IsTracked :
        (t : Tracker K C) (fd : ℤ) (mask : ℕ) (p : EventPriority) (cb : C)
        → IsTracked t
        → IsTracked (modify_track sys t fd mask p cb).0
    unfolding modify_track
    modify_track-IsTracked t fd mask p cb h =
        elim (Option-cases (sys.ctl_mod t.epoll (record { events = mask; fd = fd }))) [
          | inl e ↦ rw (e, modify_epoll_interest) h
          | inr (k, e) ↦
              rw (e, modify_epoll_interest)
                (register-IsTracked t k fd mask p cb (λ j. laws.mod_some _ k _ j e) h)
        ]

    -- Whatever `epoll_ctl` answers, the fd is gone from the interest list.
    interest-remove :
        (t : Tracker K C) (fd j : ℤ)
        → sys.interest (remove_track sys t fd).0.epoll j
          ≡ (if fd =? j then none else sys.interest t.epoll j)
    unfolding remove_track
    interest-remove t fd j = elim (Option-cases (sys.ctl_del t.epoll fd)) [
      | inl e ↦
          rw (e, remove_epoll_interest)
            (ground (arith, laws.del_none t.epoll fd e, int_eq_iff fd j))
      | inr (k, e) ↦ rw (e, remove_epoll_interest) (laws.del_some t.epoll k fd j e)
    ]

    -- `removeTrack` always takes the fd, and nothing else, out of the interest list and both maps.
    pub remove_track_effect :
        (t : Tracker K C) (fd j : ℤ)
        → IsTracked t
        → let u = (remove_track sys t fd).0 in
          (sys.interest u.epoll j ≡ (if fd =? j then none else sys.interest t.epoll j))
          × (get j u.event_callback ≡ (if fd =? j then none else get j t.event_callback))
          × (get j u.event_priority ≡ (if fd =? j then none else get j t.event_priority))
    unfolding remove_track
    remove_track_effect t fd j h = (
      interest-remove t fd j,
      get-remove fd j t.event_callback h.callbacks,
      get-remove fd j t.event_priority h.priorities,
    )

    -- `removeTrack` keeps the interest list of epoll and the two maps in step.
    pub remove_track-IsTracked :
        (t : Tracker K C) (fd : ℤ) → IsTracked t → IsTracked (remove_track sys t fd).0
    unfolding remove_track
    remove_track-IsTracked t fd h = record {
      callbacks = remove-IsMap fd t.event_callback h.callbacks;
      priorities = remove-IsMap fd t.event_priority h.priorities;
      same_interest = λ j. ground (arith, remove_track_effect t fd j h, h.same_interest j);
      same_priority = λ j. ground (arith, remove_track_effect t fd j h, h.same_priority j);
    }

  -- A registration returns -1 and changes nothing, or it returns 0 and the fd, and no other, has
  -- the new callback.
  pub add_track_result :
      (t : Tracker K C) (fd : ℤ) (mask : ℕ) (p : EventPriority) (cb : C)
      → (add_track sys t fd mask p cb ≡ (t, minus_one))
        ⊎ (((add_track sys t fd mask p cb).1 ≡ pos 0)
            × ((j : ℤ)
                → get j (add_track sys t fd mask p cb).0.event_callback
                  ≡ (if fd =? j then some cb else get j t.event_callback)))
  unfolding add_track
  add_track_result t fd mask p cb =
      elim (Option-cases (sys.ctl_add t.epoll (record { events = mask; fd = fd }))) [
        | inl e ↦ inl (rw (e, add_epoll_interest))
        | inr (k, e) ↦
            inr (rw (e, add_epoll_interest), rw (e, add_epoll_interest) (λ j. get-insert fd j cb _))
      ]

  -- The same for `modifyTrack`.
  pub modify_track_result :
      (t : Tracker K C) (fd : ℤ) (mask : ℕ) (p : EventPriority) (cb : C)
      → (modify_track sys t fd mask p cb ≡ (t, minus_one))
        ⊎ (((modify_track sys t fd mask p cb).1 ≡ pos 0)
            × ((j : ℤ)
                → get j (modify_track sys t fd mask p cb).0.event_callback
                  ≡ (if fd =? j then some cb else get j t.event_callback)))
  unfolding modify_track
  modify_track_result t fd mask p cb =
      elim (Option-cases (sys.ctl_mod t.epoll (record { events = mask; fd = fd }))) [
        | inl e ↦ inl (rw (e, modify_epoll_interest))
        | inr (k, e) ↦ inr (
          rw (e, modify_epoll_interest),
          rw (e, modify_epoll_interest) (λ j. get-insert fd j cb _),
        )
      ]

  -- The same for `asyncAccept`.
  pub async_accept_result :
      (t : Tracker K C) (fd : ℤ) (cb : C)
      → (async_accept sys t fd cb ≡ (t, minus_one))
        ⊎ (((async_accept sys t fd cb).1 ≡ pos 0)
            × ((j : ℤ)
                → get j (async_accept sys t fd cb).0.event_callback
                  ≡ (if fd =? j then some cb else get j t.event_callback)))
  unfolding async_accept
  async_accept_result t fd cb =
      elim (Option-cases (sys.ctl_add t.epoll (record { events = epollin; fd = fd }))) [
        | inl e ↦ inl (rw (e, add_epoll_interest))
        | inr (k, e) ↦
            inr (rw (e, add_epoll_interest), rw (e, add_epoll_interest) (λ j. get-insert fd j cb _))
      ]
