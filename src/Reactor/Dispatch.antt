-- ===== src/Reactor/Dispatch.antt =====
-- `reactorRun` where one event is ready at a time.
use asynchronous_http_web_se.Base.{
  ◌≡◌, refl, sym, ap, ◌∙◌, inl, inr, true, List, [], ◌∷◌, some, none, ℤ, int_key, Bool-cases, arith,
  if_cases,
}
use asynchronous_http_web_se.SafeMap.{get}
use asynchronous_http_web_se.SafeMap.Laws.{get_size_zero}
use asynchronous_http_web_se.Epoll.{EpollEvent}
use asynchronous_http_web_se.Reactor.{
  Tracker, Queued, Wait, ready, wait_failed, Outcome, run_callback, drain, enqueue, has_callbacks,
  priority_of, push, reactor_run,
}

module _ {K C W : Type 0} (invoke : C → EpollEvent → Tracker K C × W → Tracker K C × W) where
  has_callbacks-of_get :
      (t : Tracker K C) (fd : ℤ) (cb : C)
      → get fd t.event_callback ≡ some cb
      → has_callbacks t ≡ true
  has_callbacks-of_get t fd cb e = elim (Bool-cases (has_callbacks t)) [
    | inl some_left ↦ some_left
    | inr none_left ↦
        let gone = (get_size_zero t.event_callback).0 (ground (arith, none_left)) fd in
        let clash : none ≡ some cb = sym gone ∙ e in cc
  ]

  run_queued :
      (waits : List Wait) (x : Queued) (s : Tracker K C × W)
      → reactor_run invoke waits (x ∷ []) s
        ≡ reactor_run invoke waits [] (run_callback invoke x.1 s).0
  unfolding reactor_run drain
  run_queued [] x s = refl
  run_queued (wait_failed ∷ waits) x s = refl
  run_queued (ready evs ∷ waits) x s = refl

  -- An event on a tracked fd runs its callback, and the loop goes on from there.
  reactor_run_event :
      (waits : List Wait) (ev : EpollEvent) (cb : C) (s : Tracker K C × W)
      → get ev.fd s.0.event_callback ≡ some cb
      → reactor_run invoke (ready (ev ∷ []) ∷ waits) [] s
        ≡ reactor_run invoke waits [] (invoke cb ev s)
  unfolding reactor_run drain enqueue push run_callback
  reactor_run_event waits ev cb s e =
      let more = has_callbacks-of_get s.0 ev.fd cb e in
      rw more (run_queued waits (priority_of s.0 ev, ev) s ∙ rw (e, run_callback) refl)

  reactor_run_idle : (s : Tracker K C × W) → (reactor_run invoke [] [] s).0 ≡ s
  unfolding reactor_run drain
  reactor_run_idle s =
      if_cases (λ (r : (Tracker K C × W) × Outcome). r.0 ≡ s) (has_callbacks s.0) _ _ (λ _. refl)
        (λ _. refl)

-- Each `epoll_wait` gives one event.
abbrev pub one_by_one : List EpollEvent → List Wait
one_by_one [] = []
one_by_one (ev ∷ evs) = ready (ev ∷ []) ∷ one_by_one evs

module _ {K C W : Type 0} (invoke : C → EpollEvent → Tracker K C × W → Tracker K C × W) where
  -- The callbacks that these events find, run one after the other, lead to a state.
  pub data Serves : Tracker K C × W → List EpollEvent → Tracker K C × W → Type 0 where
    served : {s : Tracker K C × W} → Serves s [] s
    event :
        {s s' end : Tracker K C × W} {ev : EpollEvent} {evs : List EpollEvent} (cb : C)
        → get ev.fd s.0.event_callback ≡ some cb
        → invoke cb ev s ≡ s'
        → Serves s' evs end
        → Serves s (ev ∷ evs) end

  pub reactor_run-Serves :
      {s end : Tracker K C × W} {evs : List EpollEvent}
      → Serves s evs end
      → (reactor_run invoke (one_by_one evs) [] s).0 ≡ end
  reactor_run-Serves {s} served = reactor_run_idle invoke s
  reactor_run-Serves {s} (event {s'} {ev} {evs} cb held next rest) =
      ap (λ (r : (Tracker K C × W) × Outcome). r.0)
        (reactor_run_event invoke (one_by_one evs) ev cb s held
          ∙ ap (λ (q : Tracker K C × W). reactor_run invoke (one_by_one evs) [] q) next)
      ∙ reactor_run-Serves rest
