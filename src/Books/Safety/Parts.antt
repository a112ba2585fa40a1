-- ===== src/Books/Safety/Parts.antt =====
-- What the clients, the registry and the reactor's registrations do to the safety of the program.
use asynchronous_http_web_se.Base.{
  Bool, ℕ, ◌≡◌, sym, ap, subst, ◌∙◌, inl, inr, List, Option, none, some, Option-cases, ℤ, nat_key,
  ◌=?◌, arith, Bool-cases,
}
use asynchronous_http_web_se.Epoll.{Epoll, EpollLaws}
use asynchronous_http_web_se.Reactor.{Tracker, remove_track}
use asynchronous_http_web_se.Calls.{Call, perform}
use asynchronous_http_web_se.Client.{ClientConnection}
use asynchronous_http_web_se.Registry.{World, ClientObject, create, destroy, put}
use asynchronous_http_web_se.Registry.Parents.{IsSound, create-IsSound, destroy-IsSound}
use asynchronous_http_web_se.Books.{Closure, set_client}
use asynchronous_http_web_se.Calls.Adding.{OnlyAdds, perform-Adds, remove_track-OnlyAdds}
use asynchronous_http_web_se.Books.Safety.{client_of, LivesOn, IsSafeIn, Untracked}

module _ {K P : Type 0} (sys : Epoll K) (laws : EpollLaws sys) {t : Tracker K Closure} {w : World}
    {clients : ℕ → ClientConnection P} {m : Bool} (h : IsSafeIn sys t w clients m) where
  -- A registration of a closure that is no client's, or one of a living client.
  pub OnlyAdds-IsSafeIn :
      (fd : ℤ) (closure : Closure) (u : Tracker K Closure)
      → OnlyAdds sys laws fd closure t u
      → ((a : ℕ) → client_of closure ≡ some a → LivesOn w a fd)
      → IsSafeIn sys u w clients m
  OnlyAdds-IsSafeIn fd closure u adds living = record {
    tracked = adds.0;
    sound = h.sound;
    well_used = h.well_used;
    sockets = h.sockets;
    lives = λ j x a e own. elim (adds.1 j x e) [
      | inl old ↦ h.lives j x a old own
      | inr (at_fd, same) ↦
          subst (LivesOn w a) (sym at_fd)
            (living a (subst (λ (c : Closure). client_of c ≡ some a) same own))
    ];
  }

  -- The calls of a connection of the pool.
  pub perform-IsSafeIn :
      (closure : Closure) (calls : List Call)
      → client_of closure ≡ none
      → IsSafeIn sys (perform sys closure calls t) w clients m
  perform-IsSafeIn closure calls no_client =
      let adds = perform-Adds sys laws closure calls t h.tracked in
      record {
        tracked = adds.0;
        sound = h.sound;
        well_used = h.well_used;
        sockets = h.sockets;
        lives = λ j x a e own. elim (adds.1 j x e) [
          | inl old ↦ h.lives j x a old own
          | inr same ↦
              let own' : client_of closure ≡ some a =
                subst (λ (c : Closure). client_of c ≡ some a) same own in
              cc
        ];
      }

  pub remove_track-IsSafeIn : (fd : ℤ) → IsSafeIn sys (remove_track sys t fd).0 w clients m
  remove_track-IsSafeIn fd =
      let adds = remove_track-OnlyAdds sys laws fd (Closure.accepts) t h.tracked in
      OnlyAdds-IsSafeIn fd Closure.accepts (remove_track sys t fd).0 adds (λ a e. cc)

  -- The object of a client changes, and keeps its socket.
  pub set_client-IsSafeIn :
      (a : ℕ) (conn : ClientConnection P)
      → conn.socket ≡ (clients a).socket
      → IsSafeIn sys t w (set_client a conn clients) m
  unfolding set_client
  set_client-IsSafeIn a conn same = record {
    tracked = h.tracked;
    sound = h.sound;
    well_used = h.well_used;
    sockets = λ b o e. elim (Bool-cases (a =? b)) [
      | inl here ↦
          let at_a : a ≡ b = ground (arith, here) in
          rw (here, set_client) (same ∙ ap (λ i. (clients i).socket) at_a ∙ h.sockets b o e)
      | inr there ↦ rw (there, set_client) (h.sockets b o e)
    ];
    lives = h.lives;
  }

  pub destroy-IsSafeIn : (a : ℕ) → Untracked a t → IsSafeIn sys t (destroy a w) clients m
  unfolding destroy put
  destroy-IsSafeIn a gone = elim (Option-cases (w.objects a)) [
    | inl e ↦ rw (e, destroy) h
    | inr (o, e) ↦
        let kept : IsSound (destroy a w) = destroy-IsSound a w h.sound in
        record {
          tracked = h.tracked;
          sound = kept;
          well_used = h.well_used;
          sockets = λ b o' f. h.sockets b o' (ground (arith, rw (e, destroy) at f));
          lives = λ fd x b f own.
              let (o', at_b, on_fd) = h.lives fd x b f own in
              elim (Bool-cases (a =? b)) [
                | inl here ↦
                    let at_a : b ≡ a = ground (arith, here) in
                    absurd (gone fd x f (own ∙ ap some at_a))
                | inr there ↦ (o', rw (e, destroy) (ground (arith, there, at_b)), on_fd)
              ];
        }
  ]

  pub create-IsSafeIn :
      (a : ℕ) (o : ClientObject) (conn : ClientConnection P)
      → w.objects a ≡ none
      → conn.socket ≡ o.socket
      → IsSafeIn sys t (create a o w) (set_client a conn clients) m
  unfolding create put set_client
  create-IsSafeIn a o conn free same = record {
    tracked = h.tracked;
    sound = create-IsSound a o w free h.sound;
    well_used = h.well_used;
    sockets = λ b o' e. elim (Bool-cases (a =? b)) [
      | inl here ↦
          let at_b : some o ≡ some o' = rw here at e in
          rw (here, set_client)
            (same
              ∙ ap (λ (m : Option ClientObject). elim m [ some c ↦ c.socket | none ↦ o.socket ])
                  at_b)
      | inr there ↦ rw (there, set_client) (h.sockets b o' (rw there at e))
    ];
    lives = λ fd x b f own.
        let (o', at_b, on_fd) = h.lives fd x b f own in
        elim (Bool-cases (a =? b)) [
          | inl here ↦
              let at_a : a ≡ b = ground (arith, here) in
              let free' : w.objects b ≡ none = ap w.objects (sym at_a) ∙ free in cc
          | inr there ↦ (o', rw there at_b, on_fd)
        ];
  }
