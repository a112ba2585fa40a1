-- ===== src/Reactor/Running.antt =====
-- What `reactorRun` keeps, and what its result says.
use asynchronous_http_web_se.Base.{
  ◌≡◌, refl, true, false, List, [], ◌∷◌, Option, none, some, arith, ℤ, pos, negsuc, int_key,
  is_some, Option-cases, inl, inr,
}
use asynchronous_http_web_se.SafeMap.{get, get_size}
use asynchronous_http_web_se.SafeMap.Laws.{get_size_zero}
use asynchronous_http_web_se.Epoll.{EpollEvent, Epoll}
use asynchronous_http_web_se.Reactor.{
  Tracker, Queued, Wait, wait_failed, ready, Outcome, returned, waiting, run_callback, drain,
  enqueue, has_callbacks, reactor_run,
}
use asynchronous_http_web_se.Reactor.Tracking.{IsTracked}

abbrev pub HasFailure : List Wait → Type 0
HasFailure [] = ⊥
HasFailure (wait_failed ∷ waits) = Unit {0}
HasFailure (ready evs ∷ waits) = HasFailure waits

-- What a result says of the interest list of epoll.
abbrev pub Answers : {K : Type 0} → Epoll K → List Wait → K → Outcome → Type 0
Answers sys waits k (returned (pos _)) = (j : ℤ) → sys.interest k j ≡ none
Answers sys waits k (returned (negsuc _)) = HasFailure waits
Answers sys waits k waiting = ¬ ((j : ℤ) → sys.interest k j ≡ none)

module _ {K C W : Type 0} (invoke : C → EpollEvent → Tracker K C × W → Tracker K C × W) where
  module _ (P : Tracker K C × W → Type 0)
      (keep : (cb : C) (ev : EpollEvent) (s : Tracker K C × W)
        → get ev.fd s.0.event_callback ≡ some cb
        → P s
        → P (invoke cb ev s)) where
    run_callback_keeps :
        (ev : EpollEvent) (s : Tracker K C × W) → P s → P (run_callback invoke ev s).0
    unfolding run_callback
    run_callback_keeps ev s h = elim (Option-cases (get ev.fd s.0.event_callback)) [
      | inl e ↦ rw (e, run_callback) h
      | inr (cb, e) ↦ rw (e, run_callback) (keep cb ev s e h)
    ]

    drain_keeps : (q : List Queued) (s : Tracker K C × W) → P s → P (drain invoke q s)
    unfolding drain
    drain_keeps [] s h = h
    drain_keeps (top ∷ q) s h =
        drain_keeps q (run_callback invoke top.1 s).0 (run_callback_keeps top.1 s h)

    -- What every registered callback keeps, the whole run keeps.
    pub reactor_run_keeps :
        (waits : List Wait) (q : List Queued) (s : Tracker K C × W)
        → P s
        → P (reactor_run invoke waits q s).0
    unfolding reactor_run
    reactor_run_keeps [] q s h = ground (arith, drain_keeps q s h)
    reactor_run_keeps (wait_failed ∷ waits) q s h = ground (arith, drain_keeps q s h)
    reactor_run_keeps (ready evs ∷ waits) q s h =
        let s' = drain invoke q s in
        ground (
          arith,
          drain_keeps q s h,
          reactor_run_keeps waits (enqueue s'.0 evs []) s' (drain_keeps q s h),
        )

  -- What a result of the loop says about the state that it leaves.
  abbrev pub Explains : List Wait → Tracker K C → Outcome → Type 0
  Explains waits t (returned (pos _)) = has_callbacks t ≡ false
  Explains waits t (returned (negsuc _)) = (has_callbacks t ≡ true) × HasFailure waits
  Explains waits t waiting = has_callbacks t ≡ true

  reactor_run-Explains :
      (waits : List Wait) (q : List Queued) (s : Tracker K C × W)
      → let r = reactor_run invoke waits q s in Explains waits r.0.0 r.1
  unfolding reactor_run
  reactor_run-Explains [] q s = ground arith
  reactor_run-Explains (wait_failed ∷ waits) q s = ground arith
  reactor_run-Explains (ready evs ∷ waits) q s =
      let s' = drain invoke q s in
      ground (arith, reactor_run-Explains waits (enqueue s'.0 evs []) s')

  module _ (sys : Epoll K)
      (keep : (cb : C) (ev : EpollEvent) (s : Tracker K C × W)
        → get ev.fd s.0.event_callback ≡ some cb
        → IsTracked sys s.0
        → IsTracked sys (invoke cb ev s).0) where
    none_of_is_some {ℓ} : {A : Type ℓ} (o : Option A) → is_some o ≡ false → o ≡ none
    none_of_is_some none h = refl
    none_of_is_some (some a) h = cc

    Answers-of :
        (waits : List Wait) (t : Tracker K C) (o : Outcome)
        → IsTracked sys t
        → Explains waits t o
        → Answers sys waits t.epoll o
    Answers-of waits t (returned (pos n)) h e = λ j.
        none_of_is_some _
          (ground (arith, h.same_interest j, (get_size_zero t.event_callback).0 (ground arith) j))
    Answers-of waits t (returned (negsuc n)) h e = e.1
    Answers-of waits t waiting h e = λ none_left. absurd (ground (arith, size_is_zero none_left))
      where
        size_is_zero : ((j : ℤ) → sys.interest t.epoll j ≡ none) → get_size t.event_callback ≡ 0
        size_is_zero none_left =
            (get_size_zero t.event_callback).1
              (λ j. none_of_is_some _ (ground (arith, h.same_interest j, none_left j)))

    -- Where the callbacks keep the interest list and the maps in step, `reactorRun` returns 0 only
    -- when epoll watches no fd, returns -1 only after an `epoll_wait` that failed, and waits only
    -- while epoll watches some fd.
    pub reactor_run_result :
        (waits : List Wait) (q : List Queued) (s : Tracker K C × W)
        → IsTracked sys s.0
        → let r = reactor_run invoke waits q s in
          IsTracked sys r.0.0 × Answers sys waits r.0.0.epoll r.1
    reactor_run_result waits q s h =
        let r = reactor_run invoke waits q s in
        let kept : IsTracked sys r.0.0 =
          reactor_run_keeps (λ s. IsTracked sys s.0) keep waits q s h in
        (kept, Answers-of waits r.0.0 r.1 kept (reactor_run-Explains waits q s))
