-- ===== src/Books/Handlers.antt =====
-- The callbacks of example/server.cpp, and `main`.
use asynchronous_http_web_se.Base.{
  ℕ, List, [], ◌∷◌, ◌++◌, Option, none, some, is_some, true, ℤ, Bytes, bytes_eq, text,
  if◌then◌else◌,
}
use asynchronous_http_web_se.Epoll.{Epoll}
use asynchronous_http_web_se.Calls.{perform}
use asynchronous_http_web_se.Client.Handler.{read, write}
use asynchronous_http_web_se.Db.{DbConnection}
use asynchronous_http_web_se.Pooler.{
  PendingQuery, Frame, sends, Entry, asks, hands, does, runs, run,
}
use asynchronous_http_web_se.Pooler.Ending.{work}
use asynchronous_http_web_se.Registry.{destroy, db_parent}
use asynchronous_http_web_se.Sockets.{close_fd}
use asynchronous_http_web_se.Books.{
  Reply, inserted, selected, reads, writes, queries, JsonLib, App, State, set_client,
}
use asynchronous_http_web_se.Books.Text.{response_text, insert_text, select_text, all_rows}

-- A bound on the queries and callbacks that follow from a callback.
abbrev pub reply_cost : Reply → ℕ
reply_cost inserted = 3
reply_cost selected = 1

-- The queries that the callback of a query sends: after the INSERT, the SELECT for the client that
-- the connection works for, if that client is still there.
unfoldable pub sends_next : {P : Type 0} → App P → Reply → DbConnection → List (PendingQuery Reply)
unfolding db_parent
sends_next app inserted conn = if conn.is_error then [] else elim (db_parent conn app.world) [
  | none ↦ []
  | some a ↦
      record { query = select_text; client = (app.clients a).connection_id; cb = selected } ∷ []
]
sends_next app selected conn = []

-- The query of the INSERT.
unfoldable pub insert_query : Bytes → ℤ → Bytes → PendingQuery Reply
unfolding insert_text
insert_query client id title = record {
  query = insert_text id title;
  client = client;
  cb = inserted;
}

module _ {K P : Type 0} where
  unfoldable pub crash : State K P → State K P
  crash (t, app) = (t, record app { crashed = true })

  -- The value of a call of a library, where it does not throw.
  unfoldable pub or_crash : {A : Type 0} → Option A → (A → State K P) → State K P → State K P
  unfolding crash
  or_crash none next s = crash s
  or_crash (some a) next s = next a

  -- A use of the client at an address, which gives `next`. Where no object stands there the
  -- behaviour is undefined, which the state records.
  unfoldable pub use_client : ℕ → State K P → State K P → State K P
  use_client a (t, app) next =
      if is_some (app.world.objects a) then next else (t, record app { misused = true })

  -- `delete client`: the destructor, which closes the socket.
  unfoldable pub delete_client : ℕ → State K P → State K P
  unfolding use_client
  delete_client a (t, app) =
      use_client a (t, app)
        (
          t,
          record app {
            world = destroy a app.world;
            system = record app.system {
              open_fds = close_fd (app.clients a).socket app.system.open_fds;
            };
          },
        )

  module _ (sys : Epoll K) where
    -- `client->read` with the program's callback.
    unfoldable pub start_read : ℕ → State K P → State K P
    unfolding perform read use_client
    start_read a (t, app) =
        use_client a (t, app) (perform sys (reads a) (read (app.clients a)).1 t, app)

    -- `client->sendBuffer.insert` of a response, and `client->write` with the callback that deletes
    -- the client.
    unfoldable pub start_write : ℕ → Bytes → State K P → State K P
    unfolding perform write set_client response_text use_client
    start_write a body (t, app) =
        let client = app.clients a in
        let client' = record client { send_buffer = client.send_buffer ++ response_text body } in
        use_client a (t, app)
          (
            perform sys (writes a) (write client').1 t,
            record app { clients = set_client a client' app.clients },
          )

    module _ {J : Type 0} (json : JsonLib J) where
      -- The callback of the SELECT, from the test of `is_error` on.
      unfoldable pub answer_rows : DbConnection → State K P → State K P
      unfolding or_crash start_write all_rows
      answer_rows conn s = if conn.is_error then s else elim (db_parent conn s.1.world) [
        | none ↦ s
        | some a ↦
            or_crash (all_rows conn.results)
              (λ rows. or_crash (json.dump_rows rows) (λ body. start_write a body s) s) s
      ]

      -- What an entry of the pool's log does to the rest of the program.
      unfoldable pub apply_entry : Entry Reply → State K P → State K P
      unfolding perform answer_rows
      apply_entry (asks q) s = s
      apply_entry (hands q c) s = s
      apply_entry (does c calls) (t, app) = (perform sys (queries c) calls t, app)
      apply_entry (runs inserted conn) s = s
      apply_entry (runs selected conn) s = answer_rows conn s

      -- Nothing runs after a crash.
      unfoldable pub apply_log : List (Entry Reply) → State K P → State K P
      unfolding apply_entry
      apply_log [] s = s
      apply_log (e ∷ log) s = if s.1.crashed then s else apply_log log (apply_entry e s)

      -- The callback of `client->read` for the URL `/`.
      unfoldable pub root_page : ℕ → State K P → State K P
      unfolding or_crash start_write
      root_page a s = elim (json.parse (s.1.clients a).request.body) [
        | none ↦ start_write a [] s
        | some j ↦
            or_crash (json.int_value j (text "id"))
              (λ _.
                or_crash (json.text_value j (text "title"))
                  (λ _. or_crash (json.dump j) (λ body. start_write a body s) s) s)
              s
      ]

      -- `answer` gives what `PQsendQuery` and `PQflush` return.
      module _ (answer : ℕ → ℤ × ℤ) where
        -- Calls of the pool, up to their end. They make and delete no client, and change no id, so
        -- what `sends_next` reads is the same at each of them.
        unfoldable pub settle : List (Frame Reply) → State K P → State K P
        unfolding apply_log sends_next run
        settle fs (t, app) =
            let r = run answer (sends_next app) (work reply_cost fs app.pool) fs app.pool in
            apply_log r.log (t, record app { pool = r.pool })

        -- The callback of `client->read` for another URL.
        unfoldable pub insert_page : ℕ → State K P → State K P
        unfolding or_crash delete_client settle insert_query
        insert_page a s = elim (json.parse (s.1.clients a).request.body) [
          | none ↦ delete_client a s
          | some j ↦
              or_crash (json.int_value j (text "id"))
                (λ id.
                  or_crash (json.text_value j (text "title"))
                    (λ title.
                      settle (sends (insert_query (s.1.clients a).connection_id id title) ∷ []) s)
                    s)
                s
        ]

        -- The callback of `client->read`.
        unfoldable pub read_done : ℕ → State K P → State K P
        unfolding delete_client root_page insert_page
        read_done a s =
            if (s.1.clients a).is_error
            then delete_client a s
            else if bytes_eq (s.1.clients a).request.url (text "/")
            then root_page a s
            else insert_page a s
