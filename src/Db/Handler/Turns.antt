-- ===== src/Db/Handler/Turns.antt =====
-- What the turns of `Dbconnection::handleEvent` do to the reactor and to the request.
use asynchronous_http_web_se.Base.{
  ◌≡◌, refl, ◌⊎◌, inl, inr, Bool, true, List, ◌∷◌, arith, ℤ, int_key, int_eq_iff,
}
use asynchronous_http_web_se.Epoll.{Epoll, EpollLaws, EpollEvent}
use asynchronous_http_web_se.Reactor.{Tracker, remove_track}
use asynchronous_http_web_se.Reactor.Tracking.{
  IsTracked, remove_track_effect, remove_track-IsTracked, modify_track-IsTracked,
}
use asynchronous_http_web_se.Calls.{Call, untracks, perform, callbacks}
use asynchronous_http_web_se.Calls.Chain.{ChainEffect}
use asynchronous_http_web_se.Db.{
  DbConnection, DbConnectionState, idle, connecting, connected, sending_query, reading_response,
}
use asynchronous_http_web_se.Db.Handler.{PqAnswers, handle_event}
use asynchronous_http_web_se.Db.Handler.Machine.{
  Closing, ends, frees, Turn, waits, rearms, query_sent, fails, connects, responds,
  handle_event-Goes,
}

-- The moves of `connection_state` in an event that runs no callback.
abbrev pub Waits : DbConnectionState → DbConnectionState → Type 0
Waits s s' = (s' ≡ s) ⊎ ((s ≡ sending_query) × (s' ≡ reading_response))

-- The moves in an event that runs the callback, with the error flag that the callback finds.
abbrev pub Ends : DbConnectionState → DbConnectionState → Bool → Type 0
Ends s s' is_error =
    ((is_error ≡ true) × ((s' ≡ s) ⊎ (s' ≡ idle)))
    ⊎ (((s ≡ connecting) × (s' ≡ connected)) ⊎ ((s ≡ reading_response) × (s' ≡ idle)))

callbacks-Closing : {cs : List Call} → Closing cs → callbacks cs ≡ 1
callbacks-Closing ends = refl
callbacks-Closing (frees c) = callbacks-Closing c

Turn-moves :
    {fd : ℤ} {s s' : DbConnectionState} {e : Bool} {cs : List Call}
    → Turn fd s cs s' e
    → ((callbacks cs ≡ 0) × Waits s s') ⊎ ((callbacks cs ≡ 1) × Ends s s' e)
Turn-moves waits = inl (refl, inl refl)
Turn-moves (rearms mask p) = inl (refl, inl refl)
Turn-moves (query_sent mask p b) = inl (refl, inr (b, refl))
Turn-moves (fails after a c) = inr (callbacks-Closing c, inl (refl, a))
Turn-moves (connects b) = inr (refl, inr (inl (b, refl)))
Turn-moves (responds b c) = inr (callbacks-Closing c, inr (inr (b, refl)))

module _ {K C : Type 0} (sys : Epoll K) (closure : C) where
  pub perform-Closing :
      {cs : List Call} (t : Tracker K C) → Closing cs → perform sys closure cs t ≡ t
  unfolding perform
  perform-Closing t ends = refl
  perform-Closing t (frees c) = perform-Closing t c

  effect_of_untracks :
      (fd : ℤ) {cs : List Call} (t : Tracker K C)
      → EpollLaws sys
      → IsTracked sys t
      → Closing cs
      → ChainEffect sys closure fd (untracks fd ∷ cs) t
  unfolding perform
  effect_of_untracks fd t laws h c = rw (perform-Closing (remove_track sys t fd).0 c) (
    remove_track-IsTracked sys laws t fd h,
    inr (
      callbacks-Closing c,
      ground (arith, remove_track_effect sys laws t fd fd h, int_eq_iff fd fd),
    ),
  )

  effect_of_Turn :
      {fd : ℤ} {s s' : DbConnectionState} {e : Bool} {cs : List Call} (t : Tracker K C)
      → EpollLaws sys
      → IsTracked sys t
      → Turn fd s cs s' e
      → ChainEffect sys closure fd cs t
  unfolding perform
  effect_of_Turn t laws h waits = (h, inl refl)
  effect_of_Turn {fd} t laws h (rearms mask p) =
      (modify_track-IsTracked sys laws t fd mask p closure h, inl refl)
  effect_of_Turn {fd} t laws h (query_sent mask p b) =
      (modify_track-IsTracked sys laws t fd mask p closure h, inl refl)
  effect_of_Turn {fd} t laws h (fails after a c) = effect_of_untracks fd t laws h c
  effect_of_Turn {fd} t laws h (connects b) = effect_of_untracks fd t laws h ends
  effect_of_Turn {fd} t laws h (responds b c) = effect_of_untracks fd t laws h c

  -- An event on a connection to the database either runs no callback, with the state kept or gone
  -- from sending the query to reading the response; or it runs the callback once, with the socket
  -- off the reactor: after an error, which the callback finds in `isError`, or with the connection
  -- established, or with the response read and the connection idle.
  pub handle_event_turns :
      (t : Tracker K C) (ev : EpollEvent) (pq : PqAnswers) (conn : DbConnection)
      → EpollLaws sys
      → IsTracked sys t
      → let r = handle_event ev pq conn in
        (((callbacks r.1 ≡ 0) × Waits conn.connection_state r.0.connection_state)
          ⊎ ((callbacks r.1 ≡ 1) × Ends conn.connection_state r.0.connection_state r.0.is_error))
        × ChainEffect sys closure conn.socket r.1 t
  handle_event_turns t ev pq conn laws h =
      let turn = handle_event-Goes ev pq conn in (Turn-moves turn, effect_of_Turn t laws h turn)
