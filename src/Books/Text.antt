-- ===== src/Books/Text.antt =====
-- The texts that example/server.cpp builds: the responses and the queries.
pub mod Reading
use asynchronous_http_web_se.Base.{
  ℕ, zero, suc, List, [], ◌∷◌, ◌++◌, Option, none, some, ℤ, Bytes, text, length, get_elem?,
}
use asynchronous_http_web_se.Db.{QueryResult}
use asynchronous_http_web_se.Printing.{crlf, print_size, to_string}

-- The lines of the response before the number and behind it.
abbrev pub head_lines : Bytes
head_lines =
    text "HTTP/1.1 200 OK"
    ++ (crlf ++ (text "Content-Type: text/plain" ++ (crlf ++ text "Content-Length: ")))

abbrev pub end_lines : Bytes
end_lines = crlf ++ (text "Connection: close" ++ (crlf ++ crlf))

-- `oss.str()`
unfoldable pub response_text : Bytes → Bytes
unfolding print_size
response_text body = head_lines ++ (print_size (length body) ++ (end_lines ++ body))

-- The INSERT for an id and a title.
unfoldable pub insert_text : ℤ → Bytes → Bytes
unfolding to_string
insert_text id title =
    text "INSERT INTO books (id, title) VALUES ("
    ++ (to_string id ++ (text ", '" ++ (title ++ text "');")))

abbrev pub select_text : Bytes
select_text = text "SELECT * from books;"

-- `table[i][0]` and `table[i][1]` for `n` rows from `i` on. An index out of range is undefined
-- behaviour, and gives `none`.
unfoldable pub rows_from : List (List Bytes) → ℕ → ℕ → Option (List (Bytes × Bytes))
rows_from table zero i = some []
rows_from table (suc n) i =
    let rest = rows_from table n (suc i) in
    elim (get_elem? table i) [
      | none ↦ none
      | some row ↦ elim (get_elem? row 0) [
        | none ↦ none
        | some id ↦ elim (get_elem? row 1) [
          | none ↦ none
          | some title ↦ elim rest [ none ↦ none | some rows ↦ some ((id, title) ∷ rows) ]
        ]
      ]
    ]

-- The `for` loop over the results of the query.
unfoldable pub all_rows : List QueryResult → Option (List (Bytes × Bytes))
unfolding rows_from
all_rows [] = some []
all_rows (result ∷ results) =
    let rest = all_rows results in
    elim (rows_from result.table result.rows 0) [
      | none ↦ none
      | some rows ↦ elim rest [ none ↦ none | some more ↦ some (rows ++ more) ]
    ]
