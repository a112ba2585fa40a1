-- ===== src/Books/Sharing/Callbacks.antt =====
-- The callbacks of example/server.cpp keep the pool's connections apart.
use asynchronous_http_web_se.Base.{
  ℕ, ◌≡◌, refl, sym, ap, subst, ◌∙◌, inl, inr, List, [], ◌∷◌, ◌++◌, Option, none, some,
  Option-cases, is_some, ℤ, Bytes, bytes_eq, text, arith, if_cases,
}
use asynchronous_http_web_se.Epoll.{Epoll, EpollLaws}
use asynchronous_http_web_se.Reactor.{Tracker}
use asynchronous_http_web_se.Calls.{perform}
use asynchronous_http_web_se.Client.Handler.{read, write}
use asynchronous_http_web_se.Db.{DbConnection}
use asynchronous_http_web_se.Pooler.{DbPooler, Entry, asks, hands, does, runs, Frame, sends, run}
use asynchronous_http_web_se.Pooler.Ending.{work, run_ends}
use asynchronous_http_web_se.Books.Sharing.Working.{LogFits, LogFits-first, run-Works}
use asynchronous_http_web_se.Pooler.Homes.{run-SameSockets}
use asynchronous_http_web_se.Pooler.Counting.{run-IsCounted}
use asynchronous_http_web_se.Pooler.Places.{places, run_keeps_places}
use asynchronous_http_web_se.Registry.{db_parent}
use asynchronous_http_web_se.Books.{
  Reply, Closure, inserted, selected, reads, writes, queries, JsonLib, State, set_client,
}
use asynchronous_http_web_se.Books.Text.{response_text, all_rows}
use asynchronous_http_web_se.Books.Handlers.{
  use_client, insert_query, reply_cost, sends_next, crash, or_crash, delete_client, start_read,
  start_write, answer_rows, apply_entry, apply_log, settle, root_page, insert_page, read_done,
}
use asynchronous_http_web_se.Books.Answering.{sends_next-IsBounded}
use asynchronous_http_web_se.Books.Sharing.{
  Apart, IsShared, queries-IsShared, perform-IsShared, keeps_places-IsShared,
}

module _ {K P : Type 0} (sys : Epoll K) (laws : EpollLaws sys) (home : ℕ → ℤ)
    (fs : List (Frame Reply)) (pool : DbPooler Reply) where
  -- A state with this pool, and these calls of it still to make.
  abbrev pub Shared : State K P → Type 0
  Shared s = IsShared sys home fs s.0 pool × (s.1.pool ≡ pool)

  pub IsShared-of : (s : State K P) → Shared s → IsShared sys home fs s.0 s.1.pool
  IsShared-of s h = subst (λ (p : DbPooler Reply). IsShared sys home fs s.0 p) (sym h.1) h.0

  pub use_client-Shared :
      (a : ℕ) (s next : State K P) → Shared s → Shared next → Shared (use_client a s next)
  unfolding use_client
  use_client-Shared a (t, app) next h k =
      if_cases Shared (is_some (app.world.objects a)) _ _ (λ _. k) (λ _. h)

  or_crash-Shared :
      {A : Type 0} (o : Option A) (next : A → State K P) (s : State K P)
      → Shared s
      → ((a : A) → Shared (next a))
      → Shared (or_crash o next s)
  unfolding or_crash crash
  or_crash-Shared none next (t, app) h keep = h
  or_crash-Shared (some a) next s h keep = keep a

  pub delete_client-Shared : (a : ℕ) (s : State K P) → Shared s → Shared (delete_client a s)
  unfolding delete_client
  delete_client-Shared a (t, app) h = use_client-Shared a (t, app) _ h h

  pub start_read-Shared : (a : ℕ) (s : State K P) → Shared s → Shared (start_read sys a s)
  unfolding start_read
  start_read-Shared a (t, app) h =
      let calls = (read (app.clients a)).1 in
      use_client-Shared a (t, app) (perform sys (reads a) calls t, app) h
        (perform-IsShared sys laws home h.0 (reads a) calls refl refl, h.1)

  start_write-Shared :
      (a : ℕ) (body : Bytes) (s : State K P) → Shared s → Shared (start_write sys a body s)
  unfolding start_write
  start_write-Shared a body (t, app) h =
      let client = app.clients a in
      let client' = record client { send_buffer = client.send_buffer ++ response_text body } in
      let calls = (write client').1 in
      use_client-Shared a (t, app)
        (perform sys (writes a) calls t, record app { clients = set_client a client' app.clients })
        h (perform-IsShared sys laws home h.0 (writes a) calls refl refl, h.1)

  module _ {J : Type 0} (json : JsonLib J) where
    answer_rows-Shared :
        (conn : DbConnection) (s : State K P) → Shared s → Shared (answer_rows sys json conn s)
    unfolding answer_rows
    answer_rows-Shared conn s h =
        if_cases Shared conn.is_error _ _ (λ _. h)
          λ _. elim (Option-cases (db_parent conn s.1.world)) [
            | inl e ↦ rw (e, answer_rows) h
            | inr (a, e) ↦
                rw (e, answer_rows)
                  (or_crash-Shared (all_rows conn.results) _ s h λ rows.
                    or_crash-Shared (json.dump_rows rows) _ s h
                      λ body. start_write-Shared a body s h)
          ]

    apply_entry-Shared :
        (e : Entry Reply) (s : State K P)
        → LogFits sys laws home pool (e ∷ [])
        → Shared s
        → Shared (apply_entry sys json e s)
    unfolding apply_entry
    apply_entry-Shared (asks q) s fits h = h
    apply_entry-Shared (hands q c) s fits h = h
    apply_entry-Shared (does c calls) (t, app) ((adds, registers), _) h = elim registers [
      | inl held ↦ (
        queries-IsShared sys laws home h.0 c (perform sys (queries c) calls t) (adds t h.0.tracked)
            held,
        h.1,
      )
      | inr nothing ↦ (
        subst (λ (u : Tracker K Closure). IsShared sys home fs u pool) (sym (nothing t)) h.0,
        h.1,
      )
    ]
    apply_entry-Shared (runs inserted conn) s fits h = h
    apply_entry-Shared (runs selected conn) s fits h = answer_rows-Shared conn s h

    pub apply_log-Shared :
        (log : List (Entry Reply)) (s : State K P)
        → LogFits sys laws home pool log
        → Shared s
        → Shared (apply_log sys json log s)
    unfolding apply_log
    apply_log-Shared [] s fits h = h
    apply_log-Shared (e ∷ log) s fits h =
        let each = LogFits-first sys laws home pool e log fits in
        if_cases Shared s.1.crashed _ _ (λ _. h)
          λ _.
            apply_log-Shared log (apply_entry sys json e s) each.1 (apply_entry-Shared e s each.0 h)

    pub root_page-Shared : (a : ℕ) (s : State K P) → Shared s → Shared (root_page sys json a s)
    unfolding root_page
    root_page-Shared a s h = elim (Option-cases (json.parse (s.1.clients a).request.body)) [
      | inl e ↦ rw (e, root_page) (start_write-Shared a [] s h)
      | inr (j, e) ↦
          rw (e, root_page)
            (or_crash-Shared (json.int_value j (text "id")) _ s h λ id.
              or_crash-Shared (json.text_value j (text "title")) _ s h
                λ title. or_crash-Shared (json.dump j) _ s h λ body. start_write-Shared a body s h)
    ]

module _ {K P : Type 0} (sys : Epoll K) (laws : EpollLaws sys) (home : ℕ → ℤ) where
  pub use_client-Apart :
      (a : ℕ) (s next : State K P)
      → Apart sys home s
      → Apart sys home next
      → Apart sys home (use_client a s next)
  unfolding use_client
  use_client-Apart a (t, app) next h k =
      if_cases (λ (r : State K P). Apart sys home r) (is_some (app.world.objects a)) _ _ (λ _. k)
        (λ _. h)

  pub delete_client-Apart :
      (a : ℕ) (s : State K P) → Apart sys home s → Apart sys home (delete_client a s)
  delete_client-Apart a s h =
      IsShared-of sys laws home [] s.1.pool (delete_client a s)
        (delete_client-Shared sys laws home [] s.1.pool a s (h, refl))

  pub start_read-Apart :
      (a : ℕ) (s : State K P) → Apart sys home s → Apart sys home (start_read sys a s)
  start_read-Apart a s h =
      IsShared-of sys laws home [] s.1.pool (start_read sys a s)
        (start_read-Shared sys laws home [] s.1.pool a s (h, refl))

module _ {K P J : Type 0} (sys : Epoll K) (laws : EpollLaws sys) (home : ℕ → ℤ) (json : JsonLib J)
    (answer : ℕ → ℤ × ℤ) where
  -- The calls of the pool come to their end, with each connection in the places that it had.
  pub settle-Apart :
      (fs : List (Frame Reply)) (s : State K P)
      → IsShared sys home fs s.0 s.1.pool
      → Apart sys home (settle sys json answer fs s)
  unfolding settle
  settle-Apart fs (t, app) h =
      let react = sends_next app in
      let n = work reply_cost fs app.pool in
      let r = run answer react n fs app.pool in
      let works = run-Works sys laws home answer react n fs app.pool h.at_home in
      let ended : r.frames ≡ [] =
        run_ends answer react reply_cost (sends_next-IsBounded app) n fs app.pool (omega arith) in
      let s' : State K P = (t, record app { pool = r.pool }) in
      let kept : IsShared sys home [] t r.pool =
        keeps_places-IsShared sys laws home h [] r.pool (run-SameSockets answer react n fs app.pool)
          (λ c.
            ap (λ (gs : List (Frame Reply)). places c gs r.pool) (sym ended)
            ∙ run_keeps_places answer react c n fs app.pool)
          (run-IsCounted answer react n fs app.pool h.counted) works.0 in
      IsShared-of sys laws home [] r.pool (apply_log sys json r.log s')
        (apply_log-Shared sys laws home [] r.pool json r.log s' works.1 (kept, refl))

  or_crash-Apart :
      {A : Type 0} (o : Option A) (next : A → State K P) (s : State K P)
      → Apart sys home s
      → ((a : A) → Apart sys home (next a))
      → Apart sys home (or_crash o next s)
  unfolding or_crash crash
  or_crash-Apart none next (t, app) h keep = h
  or_crash-Apart (some a) next s h keep = keep a

  insert_page-Apart :
      (a : ℕ) (s : State K P) → Apart sys home s → Apart sys home (insert_page sys json answer a s)
  unfolding insert_page
  insert_page-Apart a s h = elim (Option-cases (json.parse (s.1.clients a).request.body)) [
    | inl e ↦ rw (e, insert_page) (delete_client-Apart sys laws home a s h)
    | inr (j, e) ↦
        rw (e, insert_page)
          (or_crash-Apart (json.int_value j (text "id")) _ s h λ id.
            or_crash-Apart (json.text_value j (text "title")) _ s h λ title.
              let q = sends (insert_query (s.1.clients a).connection_id id title) in
              settle-Apart (q ∷ []) s (
                keeps_places-IsShared sys laws home h (q ∷ []) s.1.pool (λ c. refl) (λ c. refl)
                  h.counted (λ c held. held)))
  ]

  pub read_done-Apart :
      (a : ℕ) (s : State K P) → Apart sys home s → Apart sys home (read_done sys json answer a s)
  unfolding read_done
  read_done-Apart a s h =
      let pool = s.1.pool in
      if_cases (λ (r : State K P). Apart sys home r) (s.1.clients a).is_error _ _
        (λ _. delete_client-Apart sys laws home a s h)
        λ _.
          if_cases (λ (r : State K P). Apart sys home r)
            (bytes_eq (s.1.clients a).request.url (text "/")) _ _
            (λ _.
              IsShared-of sys laws home [] pool (root_page sys json a s)
                (root_page-Shared sys laws home [] pool json a s (h, refl)))
            (λ _. insert_page-Apart a s h)
