-- ===== src/Tests/RowsTests.antt =====
-- The answer of example/server.cpp to a query on concrete inputs.
use asynchronous_http_web_se.Base.{
  ◌+◌, ◌≡◌, refl, inr, List, [], ◌∷◌, some, pos, text, arith, bytes_key,
}
use asynchronous_http_web_se.SocketIo.{Outbound, took, would_block}
use asynchronous_http_web_se.StdMap.{find, assign}
use asynchronous_http_web_se.Epoll.{has}
use asynchronous_http_web_se.Calls.{sent_by}
use asynchronous_http_web_se.Client.{new_client}
use asynchronous_http_web_se.Client.Handler.{handle_event}
use asynchronous_http_web_se.Client.Handler.Sending.{write_events}
use asynchronous_http_web_se.Db.{DbConnection, new_db}
use asynchronous_http_web_se.Db.Results.{PgResult, tuples_ok, store_results}
use asynchronous_http_web_se.Registry.{create, start, db_parent}
use asynchronous_http_web_se.Http.Reading.{read_response}
use asynchronous_http_web_se.Books.Handlers.{answer_rows}
use asynchronous_http_web_se.Books.Rows.{all_pairs, rows_are_answered}
use asynchronous_http_web_se.Tests.Kernel.{kernel}
use asynchronous_http_web_se.Tests.LineParser.{line_parser}
use asynchronous_http_web_se.Tests.BooksTests.{text_json, lines_of, busy_server}

-- Two rows of two columns, each cell of two bytes.
abbrev two_rows : List PgResult
two_rows =
    record { status = tuples_ok; ntuples = 2; nfields = 2; value = λ i j. (65 + i) ∷ (97 + j) ∷ [] }
    ∷ []

abbrev for_client : DbConnection
for_client = record (new_db (text "") (pos 20)) { parent = 9 ∷ [] }

abbrev at_once : List Outbound
at_once = took 96 would_block ∷ []

rows_are_answered_example :
    let client =
      (answer_rows kernel text_json (store_results two_rows for_client).0 busy_server).1.clients
        0 in
    read_response (sent_by (write_events line_parser at_once client).1)
    ≡ some (lines_of (all_pairs two_rows), [])
unfolding new_db create start db_parent find assign store_results new_client answer_rows
    handle_event write_events has
rows_are_answered_example =
    rows_are_answered kernel text_json line_parser two_rows for_client busy_server 0
      (lines_of (all_pairs two_rows)) at_once (refl, tt) (inr (omega arith), tt) refl refl
      (record { connection_id = 9 ∷ []; socket = pos 30 }, refl) refl refl refl refl
      ((omega arith, tt), tt) (λ e. absurd (omega (arith, e))) refl
