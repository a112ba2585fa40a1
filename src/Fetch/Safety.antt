-- ===== src/Fetch/Safety.antt =====
-- The connection of example/client.cpp against the reactor: it is deleted at most once, and then the
-- reactor holds no callback.
use asynchronous_http_web_se.Base.{
  Option-cases, true, ℕ, suc, ◌==◌, ◌≡◌, refl, sym, ap, subst, ◌∙◌, ◌⊎◌, inl, inr, List, [], ◌∷◌,
  Option, none, some, ℤ, int_key, ◌=?◌, minus_one, arith, Bytes, text, if◌then◌else◌, if_cases,
}
use asynchronous_http_web_se.SafeMap.{get}
use asynchronous_http_web_se.SafeMap.Laws.{get-empty}
use asynchronous_http_web_se.Epoll.{Epoll, EpollLaws, EpollEvent, write_mask}
use asynchronous_http_web_se.SocketIo.{Inbound, Outbound}
use asynchronous_http_web_se.Reactor.{
  Tracker, Wait, Outcome, new_reactor, helper_sock, add_track, modify_track, remove_track,
}
use asynchronous_http_web_se.Reactor.Tracking.{IsTracked, new_reactor-IsTracked}
use asynchronous_http_web_se.Reactor.Running.{reactor_run_keeps}
use asynchronous_http_web_se.Http.{Llhttp}
use asynchronous_http_web_se.Calls.{Call, perform, callbacks}
use asynchronous_http_web_se.Calls.Adding.{
  OnlyAdds, add_track-OnlyAdds, modify_track-OnlyAdds, remove_track-OnlyAdds,
}
use asynchronous_http_web_se.Calls.Chain.{Chain, silent, last, sends, moves, effect_of_Chain}
use asynchronous_http_web_se.Api.{new_api}
use asynchronous_http_web_se.Api.Handler.{Handled, handle_event, send_request, connect_api}
use asynchronous_http_web_se.Api.Handler.Socket.{handle_event-socket}
use asynchronous_http_web_se.Api.Handler.Machine.{handle_event-Advance}
use asynchronous_http_web_se.Sockets.{System}
use asynchronous_http_web_se.Fetch.{
  Closure, connects, requests, Fetch, State, print, delete_conn, on_response, after_method,
  on_connected, serve, invoke, Setup, create, start_with, main,
}

-- The reactor holds callbacks for this fd only.
abbrev pub OnlyFor : {K C : Type 0} → ℤ → Tracker K C → Type 0
OnlyFor {C} fd t = (j : ℤ) (x : C) → get j t.event_callback ≡ some x → j ≡ fd

module _ {K C : Type 0} (sys : Epoll K) (laws : EpollLaws sys) (fd : ℤ) (closure : C) where
  OnlyAdds-OnlyFor :
      (t u : Tracker K C) → OnlyAdds sys laws fd closure t u → OnlyFor fd t → OnlyFor fd u
  OnlyAdds-OnlyFor t u adds h j x e = elim (adds.1 j x e) [ inl old ↦ h j x old | inr own ↦ own.0 ]

  Chain-OnlyFor :
      {cs : List Call} (t : Tracker K C)
      → IsTracked sys t
      → Chain fd cs
      → OnlyFor fd t
      → OnlyFor fd (perform sys closure cs t)
  unfolding perform
  Chain-OnlyFor t tracked silent h = h
  Chain-OnlyFor t tracked last h =
      OnlyAdds-OnlyFor t (remove_track sys t fd).0
        (remove_track-OnlyAdds sys laws fd closure t tracked) h
  Chain-OnlyFor t tracked (sends bytes c) h = Chain-OnlyFor t tracked c h
  Chain-OnlyFor t tracked (moves mask p c) h =
      let adds = modify_track-OnlyAdds sys laws fd closure t mask p tracked in
      Chain-OnlyFor (modify_track sys t fd mask p closure).0 adds.0 c
        (OnlyAdds-OnlyFor t (modify_track sys t fd mask p closure).0 adds h)

quiet_of :
    {K : Type 0} (fd : ℤ) (t : Tracker K Closure)
    → OnlyFor fd t
    → get fd t.event_callback ≡ none
    → (j : ℤ) → get j t.event_callback ≡ none
quiet_of fd t only gone j = elim (Option-cases (get j t.event_callback)) [
  | inl e ↦ e
  | inr (x, e) ↦
      let e' : get fd t.event_callback ≡ some x =
        subst (λ k. get k t.event_callback ≡ some x) (only j x e) e in
      cc
]

start_tracking :
    {K : Type 0} (sys : Epoll K) (laws : EpollLaws sys) (fd : ℤ) (closure : Closure)
    (t : Tracker K Closure)
    → IsTracked sys t
    → ((j : ℤ) → get j t.event_callback ≡ none)
    → IsTracked sys (add_track sys t fd write_mask helper_sock closure).0
      × OnlyFor fd (add_track sys t fd write_mask helper_sock closure).0
start_tracking sys laws fd closure t tracked quiet =
    let u = (add_track sys t fd write_mask helper_sock closure).0 in
    let adds = add_track-OnlyAdds sys laws fd closure t write_mask helper_sock tracked in
    let none_before : OnlyFor fd t = λ j x e. let e' = sym (quiet j) ∙ e in cc in
    (adds.0, OnlyAdds-OnlyFor sys laws fd closure t u adds none_before)

nothing_held :
    {K : Type 0} (k : K) (j : ℤ) → get j (new_reactor {C = Closure} k).tracker.event_callback ≡ none
unfolding new_reactor
nothing_held k j = get-empty {V = Closure} j

module _ {K P : Type 0} (sys : Epoll K) where
  -- The reactor is in step with epoll. Either the connection is not deleted, and the reactor holds
  -- callbacks for its socket only; or it was deleted once, and the reactor holds none.
  pub record IsClean (s : State K P) : Type 0 where
    pub tracked : IsTracked sys s.0
    pub own :
        ((s.1.closed ≡ []) × OnlyFor s.1.conn.socket s.0)
        ⊎ ((s.1.closed ≡ s.1.conn.socket ∷ []) × ((j : ℤ) → get j s.0.event_callback ≡ none))

  abbrev pub EndsClean : Option (State K P × Outcome) → Type 0
  EndsClean none = Unit {0}
  EndsClean (some (s, outcome)) = IsClean s

  -- As it is when a callback of the program runs: the connection is not deleted, and the reactor
  -- holds no callback.
  abbrev IsQuiet : State K P → Type 0
  IsQuiet s = IsTracked sys s.0 × (s.1.closed ≡ []) × ((j : ℤ) → get j s.0.event_callback ≡ none)

  delete_conn-IsClean : (s : State K P) → IsQuiet s → IsClean (delete_conn s)
  unfolding delete_conn
  delete_conn-IsClean (t, f) (tracked, alive, quiet) = record {
    tracked = tracked;
    own = inr (ap (λ (l : List ℤ). f.conn.socket ∷ l) alive, quiet);
  }

  on_response-IsClean : (s : State K P) → IsQuiet s → IsClean (on_response s)
  unfolding on_response print
  on_response-IsClean (t, f) h =
      if_cases (λ (r : State K P). IsClean r) f.conn.is_error _ _ (λ _. delete_conn-IsClean _ h)
        (λ _. delete_conn-IsClean _ h)

module _ {K P : Type 0} (sys : Epoll K) (laws : EpollLaws sys) where
  on_connected-IsClean : (s : State K P) → IsQuiet sys s → IsClean sys (on_connected sys s)
  unfolding on_connected print after_method send_request perform
  on_connected-IsClean (t, f) h =
      let (tracked, alive, quiet) = h in
      let begun = start_tracking sys laws f.conn.socket requests t tracked quiet in
      if_cases (λ (r : State K P). IsClean sys r) f.conn.is_error _ _
        (λ _. delete_conn-IsClean sys _ h)
        (λ _. record { tracked = begun.0; own = inl (alive, begun.1) })

  module _ (parser_lib : Llhttp P) where
    serve-IsClean :
        (closure : Closure) (cb : State K P → State K P) (ev : EpollEvent) (inbound : Inbound)
        (outbound : Outbound) (s : State K P) (held : Closure)
        → get ev.fd s.0.event_callback ≡ some held
        → IsClean sys s
        → ((r : State K P) → IsQuiet sys r → IsClean sys (cb r))
        → IsClean sys (serve sys parser_lib closure cb ev inbound outbound s)
    unfolding serve after_method
    serve-IsClean closure cb ev inbound outbound (t, f) held e h keep = elim h.own [
      | inr (deleted, quiet) ↦ let e' = sym (quiet ev.fd) ∙ e in cc
      | inl (alive, only) ↦
          let fd = f.conn.socket in
          let handled = handle_event parser_lib ev inbound outbound f.conn in
          let chain = (handle_event-Advance parser_lib ev inbound outbound f.conn).chain in
          let t' = perform sys closure handled.1 t in
          let effect = effect_of_Chain sys closure t laws h.tracked chain in
          let same = handle_event-socket parser_lib ev inbound outbound f.conn in
          let only' : OnlyFor fd t' = Chain-OnlyFor sys laws fd closure t h.tracked chain only in
          let s' : State K P = (t', record f { conn = handled.0 }) in
          let still : IsClean sys s' = record {
            tracked = effect.0;
            own = inl (alive, subst (λ k. OnlyFor k t') (sym same) only');
          } in
          elim effect.1 [
            | inl none_called ↦
                if_cases (λ (r : State K P). IsClean sys r) (callbacks handled.1 == 0) _ _
                  (λ _. still) (λ loud. absurd (ground (arith, none_called, loud)))
            | inr (called, gone) ↦
                if_cases (λ (r : State K P). IsClean sys r) (callbacks handled.1 == 0) _ _
                  (λ _. still) (λ _. keep s' (effect.0, alive, quiet_of fd t' only' gone))
          ]
    ]

    -- A callback of the reactor, run for an fd that holds one, keeps the connection safe.
    invoke-IsClean :
        (env : ℕ → Inbound × Outbound) (closure : Closure) (ev : EpollEvent) (s : State K P)
        → get ev.fd s.0.event_callback ≡ some closure
        → IsClean sys s
        → IsClean sys (invoke sys parser_lib env closure ev s)
    unfolding invoke
    invoke-IsClean env connects ev (t, f) e h =
        serve-IsClean connects (on_connected sys) ev (env f.served).0 (env f.served).1
          (t, record f { served = suc f.served }) connects e
          (record { tracked = h.tracked; own = h.own }) on_connected-IsClean
    invoke-IsClean env requests ev (t, f) e h =
        serve-IsClean requests on_response ev (env f.served).0 (env f.served).1
          (t, record f { served = suc f.served }) requests e
          (record { tracked = h.tracked; own = h.own }) (on_response-IsClean sys)

    start_with-IsClean :
        (setup : Setup K) (made : ℤ × System)
        → ((j : ℤ) → sys.interest setup.epollfd j ≡ none)
        → IsClean sys (start_with sys parser_lib setup made)
    unfolding start_with connect_api after_method perform
    start_with-IsClean setup (fd, system) none_yet =
        let conn = new_api parser_lib (text "") setup.garbage in
        let t : Tracker K Closure = (new_reactor setup.epollfd).tracker in
        let f : Fetch P = record {
          conn = conn;
          closed = [];
          system = system;
          printed = [];
          served = 0;
        } in
        let tracked = new_reactor-IsTracked {C = Closure} sys setup.epollfd none_yet in
        let quiet : (j : ℤ) → get j t.event_callback ≡ none = nothing_held setup.epollfd in
        let begun = start_tracking sys laws fd connects t tracked quiet in
        let failed = record conn {
          socket = fd;
          is_error = true;
          error_description = text "can not create connection";
        } in
        if_cases
          (λ (h : Handled P). IsClean sys (
            if callbacks h.1 == 0
            then after_method sys connects h (t, f)
            else on_connected sys (after_method sys connects h (t, f))))
          (fd =? minus_one) _ _
          (λ _. on_connected-IsClean (t, record f { conn = failed }) (tracked, refl, quiet))
          (λ _. record { tracked = begun.0; own = inl (refl, begun.1) })

    -- However the server and the system answer: when `main` returns, or waits for the next event,
    -- the connection is not deleted and the reactor holds callbacks for its socket only, or it was
    -- deleted once and the reactor holds no callback. Here a new epoll instance watches nothing.
    pub main-EndsClean :
        (setup : Setup K) (env : ℕ → Inbound × Outbound) (waits : List Wait)
        (arguments : List Bytes)
        → ((j : ℤ) → sys.interest setup.epollfd j ≡ none)
        → EndsClean sys (main sys parser_lib setup env waits arguments)
    unfolding main
    main-EndsClean setup env waits [] none_yet = tt
    main-EndsClean setup env waits (program ∷ []) none_yet = tt
    main-EndsClean setup env waits (program ∷ address ∷ []) none_yet = tt
    main-EndsClean setup env waits (program ∷ address ∷ port ∷ more) none_yet =
        reactor_run_keeps (invoke sys parser_lib env) (λ (r : State K P). IsClean sys r)
          (invoke-IsClean env) waits []
          (start_with sys parser_lib setup (create setup address port))
          (start_with-IsClean setup (create setup address port) none_yet)
