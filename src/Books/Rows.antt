-- ===== src/Books/Rows.antt =====
-- The answer to an INSERT in example/server.cpp: the rows of the SELECT, from libpq to the bytes on
-- the wire.
use mathlib.Core.List.{map}
use asynchronous_http_web_se.Base.{
  ℕ, zero, suc, ◌+◌, ◌≤◌, ◌≡◌, ◌≢◌, refl, ap, ◌∙◌, ◌⊎◌, inl, inr, false, List, [], ◌∷◌, ◌++◌, some,
  Bytes, get_elem?, arith,
}
use asynchronous_http_web_se.Epoll.{Epoll}
use asynchronous_http_web_se.Http.{Llhttp}
use asynchronous_http_web_se.SocketIo.{Outbound}
use asynchronous_http_web_se.Calls.{sent_by, callbacks}
use asynchronous_http_web_se.Client.Handler.Sending.{write_events, FitAll}
use asynchronous_http_web_se.Db.{DbConnection, QueryResult}
use asynchronous_http_web_se.Db.Results.{
  PgResult, tuple_from, table_from, query_result, store_results,
}
use asynchronous_http_web_se.Db.Results.Storing.{
  AllGood, get_elem?-tuple_from, get_elem?-table_from, store_results_good,
}
use asynchronous_http_web_se.Reactor.{add_track}
use asynchronous_http_web_se.Registry.{db_parent}
use asynchronous_http_web_se.Books.{JsonLib, State}
use asynchronous_http_web_se.Books.Text.{rows_from, all_rows}
use asynchronous_http_web_se.Http.Reading.{read_response}
use asynchronous_http_web_se.Books.Handlers.{or_crash, start_write, answer_rows}
use asynchronous_http_web_se.Books.Safety.Callbacks.{IsLiving}
use asynchronous_http_web_se.Books.Answering.{written_is_read, buffer-start_write}

-- The first two columns of `n` rows from `i` on.
abbrev pub pairs_from : (ℕ → ℕ → Bytes) → ℕ → ℕ → List (Bytes × Bytes)
pairs_from value zero i = []
pairs_from value (suc n) i = (value i 0, value i 1) ∷ pairs_from value n (suc i)

-- The rows of all results, in order.
abbrev pub all_pairs : List PgResult → List (Bytes × Bytes)
all_pairs [] = []
all_pairs (res ∷ more) = pairs_from res.value res.ntuples 0 ++ all_pairs more

-- Each result has no rows, or at least two columns.
abbrev pub HasTwoColumns : List PgResult → Type 0
HasTwoColumns [] = Unit {0}
HasTwoColumns (res ∷ more) = ((res.ntuples ≡ 0) ⊎ (2 ≤ res.nfields)) × HasTwoColumns more

rows_from-table_from :
    (value : ℕ → ℕ → Bytes) (ncols nrows n i : ℕ)
    → i + n ≤ nrows
    → 2 ≤ ncols
    → rows_from (table_from value ncols nrows 0) n i ≡ some (pairs_from value n i)
unfolding rows_from
rows_from-table_from value ncols nrows zero i within two = refl
rows_from-table_from value ncols nrows (suc n) i within two =
    let row : get_elem? (table_from value ncols nrows 0) i ≡ some (tuple_from (value i) ncols 0) =
      get_elem?-table_from value ncols nrows 0 i (omega arith)
      ∙ ap (λ (x : ℕ). some (tuple_from (value x) ncols 0)) {x = 0 + i} {y = i} (omega arith) in
    let id : get_elem? (tuple_from (value i) ncols 0) 0 ≡ some (value i 0) =
      get_elem?-tuple_from (value i) ncols 0 0 (omega arith) in
    let title : get_elem? (tuple_from (value i) ncols 0) 1 ≡ some (value i 1) =
      get_elem?-tuple_from (value i) ncols 0 1 (omega arith) in
    let rest = rows_from-table_from value ncols nrows n (suc i) (omega arith) two in
    rw (row, rows_from, id, title, rest)

-- The loop over the results never leaves a table, and gives their rows.
all_rows-query_result :
    (rs : List PgResult) → HasTwoColumns rs → all_rows (map query_result rs) ≡ some (all_pairs rs)
unfolding all_rows query_result
all_rows-query_result [] h = refl
all_rows-query_result (res ∷ more) h =
    let rest = all_rows-query_result more h.1 in
    let rows : rows_from (table_from res.value res.nfields res.ntuples 0) res.ntuples 0
        ≡ some (pairs_from res.value res.ntuples 0) =
      elim h.0 [
        | inl no_rows ↦ rw no_rows refl
        | inr two ↦
            rows_from-table_from res.value res.nfields res.ntuples res.ntuples 0 (omega arith) two
      ] in
    rw (rows, rest)

module _ {K P J : Type 0} (sys : Epoll K) (json : JsonLib J) where
  answer_rows-start_write :
      (conn : DbConnection) (s : State K P) (a : ℕ) (rows : List (Bytes × Bytes)) (body : Bytes)
      → conn.is_error ≡ false
      → db_parent conn s.1.world ≡ some a
      → all_rows conn.results ≡ some rows
      → json.dump_rows rows ≡ some body
      → answer_rows sys json conn s ≡ start_write sys a body s
  unfolding answer_rows or_crash db_parent add_track
  answer_rows-start_write conn s a rows body fine parent e dumped =
      rw (fine, answer_rows, parent, e, dumped)

  -- The callback of a SELECT whose results libpq gave without an error, each with two columns or no
  -- rows, for a client that is not deleted, with nothing sent yet: the bytes that have gone to the
  -- client when the callback of `write` runs without an error are one complete response, whose body
  -- is the JSON text of the first two columns of all rows of all results, in order.
  pub rows_are_answered :
      (parser_lib : Llhttp P) (rs : List PgResult) (conn : DbConnection) (s : State K P) (a : ℕ)
      (body : Bytes) (outs : List Outbound)
      → AllGood rs
      → HasTwoColumns rs
      → conn.results ≡ []
      → conn.is_error ≡ false
      → IsLiving s.1.world a
      → let conn' = (store_results rs conn).0 in
        db_parent conn' s.1.world ≡ some a
        → json.dump_rows (all_pairs rs) ≡ some body
        → (s.1.clients a).send_buffer ≡ []
        → (s.1.clients a).sent_bytes ≡ 0
        → let client = (answer_rows sys json conn' s).1.clients a in
          FitAll parser_lib outs client
          → callbacks (write_events parser_lib outs client).1 ≢ 0
          → (write_events parser_lib outs client).0.is_error ≡ false
          → read_response (sent_by (write_events parser_lib outs client).1) ≡ some (body, [])
  rows_are_answered parser_lib rs conn s a body outs good two none_before fine living parent dumped
        unsent_yet none_sent fits called no_error =
      let conn' = (store_results rs conn).0 in
      let stored = store_results_good rs conn good in
      let results : conn'.results ≡ map query_result rs =
        stored.0 ∙ ap (λ (qs : List QueryResult). qs ++ map query_result rs) none_before in
      let rows : all_rows conn'.results ≡ some (all_pairs rs) =
        ap all_rows results ∙ all_rows-query_result rs two in
      written_is_read parser_lib ((answer_rows sys json conn' s).1.clients a) (s.1.clients a) body
        outs
        (ap (λ (s' : State K P). s'.1.clients a)
            (answer_rows-start_write conn' s a (all_pairs rs) body (stored.1 ∙ fine) parent rows
              dumped)
          ∙ buffer-start_write sys a body s living)
        unsent_yet none_sent fits called no_error
