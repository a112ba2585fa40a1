-- ===== src/Books/Safety/Callbacks.antt =====
-- The callbacks that example/server.cpp gives to the clients and to the pool keep the program safe.
use asynchronous_http_web_se.Base.{
  is_some, arith, ℕ, ◌≡◌, refl, sym, subst, inl, inr, List, [], ◌∷◌, ◌++◌, Option, none, some,
  Option-cases, ℤ, nat_key, if_cases, Bytes, bytes_eq, text,
}
use asynchronous_http_web_se.Epoll.{Epoll, EpollLaws, read_mask, write_mask}
use asynchronous_http_web_se.Reactor.{add_track, new_sock, helper_sock}
use asynchronous_http_web_se.Calls.{perform}
use asynchronous_http_web_se.Client.Handler.{read, write}
use asynchronous_http_web_se.Db.{DbConnection}
use asynchronous_http_web_se.Pooler.{Entry, asks, hands, does, runs, Frame, sends, run}
use asynchronous_http_web_se.Registry.{World, ClientObject, db_parent, get_parent}
use asynchronous_http_web_se.Registry.Parents.{IsSound}
use asynchronous_http_web_se.Books.{
  Reply, inserted, selected, reads, writes, queries, JsonLib, State, set_client,
}
use asynchronous_http_web_se.Books.Text.{response_text, all_rows}
use asynchronous_http_web_se.Pooler.Ending.{work}
use asynchronous_http_web_se.Books.Handlers.{
  use_client, insert_query, reply_cost, sends_next, crash, or_crash, delete_client, start_read,
  start_write, answer_rows, apply_entry, apply_log, settle, root_page, insert_page, read_done,
}
use asynchronous_http_web_se.Calls.Adding.{add_track-OnlyAdds}
use asynchronous_http_web_se.Books.Safety.{LivesOn, IsSafe, IsSafeIn, Untracked}
use asynchronous_http_web_se.Books.Safety.Parts.{
  OnlyAdds-IsSafeIn, perform-IsSafeIn, set_client-IsSafeIn, destroy-IsSafeIn,
}

-- A client that is not deleted.
abbrev pub IsLiving : World → ℕ → Type 0
IsLiving w a = (o : ClientObject) × (w.objects a ≡ some o)

db_parent-IsLiving :
    (w : World) (conn : DbConnection) (a : ℕ) → IsSound w → db_parent conn w ≡ some a → IsLiving w a
unfolding db_parent get_parent
db_parent-IsLiving w conn a h e = let (o, at_a, is_id) = h.lives conn.parent a e in (o, at_a)

module _ {K P : Type 0} (sys : Epoll K) (laws : EpollLaws sys) where
  pub or_crash-IsSafe :
      {A : Type 0} (o : Option A) (next : A → State K P) (s : State K P)
      → IsSafe sys s
      → ((a : A) → IsSafe sys (next a))
      → IsSafe sys (or_crash o next s)
  unfolding or_crash crash
  or_crash-IsSafe none next (t, app) h keep = h
  or_crash-IsSafe (some a) next s h keep = keep a

  pub use_client-IsSafe :
      (a : ℕ) (s next : State K P)
      → IsLiving s.1.world a
      → IsSafe sys next
      → IsSafe sys (use_client a s next)
  unfolding use_client
  use_client-IsSafe a (t, app) next (o, at_a) h =
      if_cases (λ (r : State K P). IsSafe sys r) (is_some (app.world.objects a)) _ _ (λ _. h)
        (λ dead. absurd (ground (arith, at_a, dead)))

  pub delete_client-IsSafe :
      (a : ℕ) (s : State K P)
      → IsSafe sys s
      → IsLiving s.1.world a
      → Untracked a s.0
      → IsSafe sys (delete_client a s)
  unfolding delete_client
  delete_client-IsSafe a (t, app) h living gone =
      use_client-IsSafe a (t, app) _ living (destroy-IsSafeIn sys laws h a gone)

  pub start_read-IsSafe :
      (a : ℕ) (s : State K P)
      → IsSafe sys s
      → IsLiving s.1.world a
      → IsSafe sys (start_read sys a s)
  unfolding start_read perform read
  start_read-IsSafe a (t, app) h (o, at_a) =
      let fd = (app.clients a).socket in
      let t' = (add_track sys t fd read_mask new_sock (reads a)).0 in
      use_client-IsSafe a (t, app) (t', app) (o, at_a)
        (OnlyAdds-IsSafeIn sys laws h fd (reads a) t'
          (add_track-OnlyAdds sys laws fd (reads a) t read_mask new_sock h.tracked)
          (λ b same.
            subst (λ (c : Option ℕ). LivesOn app.world (elim c [ some i ↦ i | none ↦ a ]) fd) same
              (o, at_a, sym (h.sockets a o at_a))))

  pub start_write-IsSafe :
      (a : ℕ) (body : Bytes) (s : State K P)
      → IsSafe sys s
      → IsLiving s.1.world a
      → IsSafe sys (start_write sys a body s)
  unfolding start_write perform write
  start_write-IsSafe a body (t, app) h (o, at_a) =
      let client = app.clients a in
      let client' = record client { send_buffer = client.send_buffer ++ response_text body } in
      let fd = client.socket in
      let h' : IsSafeIn sys t app.world (set_client a client' app.clients) app.misused =
        set_client-IsSafeIn sys laws h a client' refl in
      let t' = (add_track sys t fd write_mask helper_sock (writes a)).0 in
      let app' = record app { clients = set_client a client' app.clients } in
      use_client-IsSafe a (t, app) (t', app') (o, at_a)
        (OnlyAdds-IsSafeIn sys laws h' fd (writes a) t'
          (add_track-OnlyAdds sys laws fd (writes a) t write_mask helper_sock h.tracked)
          (λ b same.
            subst (λ (c : Option ℕ). LivesOn app.world (elim c [ some i ↦ i | none ↦ a ]) fd) same
              (o, at_a, sym (h.sockets a o at_a))))

  module _ {J : Type 0} (json : JsonLib J) where
    answer_rows-IsSafe :
        (conn : DbConnection) (s : State K P)
        → IsSafe sys s
        → IsSafe sys (answer_rows sys json conn s)
    unfolding answer_rows
    answer_rows-IsSafe conn s h =
        if_cases (λ (r : State K P). IsSafe sys r) conn.is_error _ _ (λ _. h)
          λ _. elim (Option-cases (db_parent conn s.1.world)) [
            | inl e ↦ rw (e, answer_rows) h
            | inr (a, e) ↦
                let living = db_parent-IsLiving s.1.world conn a h.sound e in
                rw (e, answer_rows)
                  (or_crash-IsSafe (all_rows conn.results) _ s h λ rows.
                    or_crash-IsSafe (json.dump_rows rows) _ s h
                      λ body. start_write-IsSafe a body s h living)
          ]

    apply_entry-IsSafe :
        (e : Entry Reply) (s : State K P) → IsSafe sys s → IsSafe sys (apply_entry sys json e s)
    unfolding apply_entry
    apply_entry-IsSafe (asks q) s h = h
    apply_entry-IsSafe (hands q c) s h = h
    apply_entry-IsSafe (does c calls) (t, app) h =
        perform-IsSafeIn sys laws h (queries c) calls refl
    apply_entry-IsSafe (runs inserted conn) s h = h
    apply_entry-IsSafe (runs selected conn) s h = answer_rows-IsSafe conn s h

    pub apply_log-IsSafe :
        (log : List (Entry Reply)) (s : State K P)
        → IsSafe sys s
        → IsSafe sys (apply_log sys json log s)
    unfolding apply_log
    apply_log-IsSafe [] s h = h
    apply_log-IsSafe (e ∷ log) s h =
        if_cases (λ (r : State K P). IsSafe sys r) s.1.crashed _ _ (λ _. h)
          λ _. apply_log-IsSafe log (apply_entry sys json e s) (apply_entry-IsSafe e s h)

    root_page-IsSafe :
        (a : ℕ) (s : State K P)
        → IsSafe sys s
        → IsLiving s.1.world a
        → IsSafe sys (root_page sys json a s)
    unfolding root_page
    root_page-IsSafe a s h living = elim (Option-cases (json.parse (s.1.clients a).request.body)) [
      | inl e ↦ rw (e, root_page) (start_write-IsSafe a [] s h living)
      | inr (j, e) ↦
          rw (e, root_page)
            (or_crash-IsSafe (json.int_value j (text "id")) _ s h λ id.
              or_crash-IsSafe (json.text_value j (text "title")) _ s h λ title.
                or_crash-IsSafe (json.dump j) _ s h λ body. start_write-IsSafe a body s h living)
    ]

    module _ (answer : ℕ → ℤ × ℤ) where
      pub settle-IsSafe :
          (fs : List (Frame Reply)) (s : State K P)
          → IsSafe sys s
          → IsSafe sys (settle sys json answer fs s)
      unfolding settle
      settle-IsSafe fs (t, app) h =
          let r = run answer (sends_next app) (work reply_cost fs app.pool) fs app.pool in
          apply_log-IsSafe r.log (t, record app { pool = r.pool }) h

      insert_page-IsSafe :
          (a : ℕ) (s : State K P)
          → IsSafe sys s
          → IsLiving s.1.world a
          → Untracked a s.0
          → IsSafe sys (insert_page sys json answer a s)
      unfolding insert_page
      insert_page-IsSafe a s h living gone =
          elim (Option-cases (json.parse (s.1.clients a).request.body)) [
            | inl e ↦ rw (e, insert_page) (delete_client-IsSafe a s h living gone)
            | inr (j, e) ↦
                rw (e, insert_page)
                  (or_crash-IsSafe (json.int_value j (text "id")) _ s h λ id.
                    or_crash-IsSafe (json.text_value j (text "title")) _ s h λ title.
                      settle-IsSafe
                        (sends (insert_query (s.1.clients a).connection_id id title) ∷ []) s h)
          ]

      -- The callback of `read` keeps the program safe, where the client is not deleted and off the
      -- reactor.
      pub read_done-IsSafe :
          (a : ℕ) (s : State K P)
          → IsSafe sys s
          → IsLiving s.1.world a
          → Untracked a s.0
          → IsSafe sys (read_done sys json answer a s)
      unfolding read_done
      read_done-IsSafe a s h living gone =
          let Q = λ (r : State K P). IsSafe sys r in
          if_cases Q (s.1.clients a).is_error _ _ (λ _. delete_client-IsSafe a s h living gone)
            λ _.
              if_cases Q (bytes_eq (s.1.clients a).request.url (text "/")) _ _
                (λ _. root_page-IsSafe a s h living) (λ _. insert_page-IsSafe a s h living gone)
