-- ===== src/Db/Results.antt =====
-- The loop over `PQgetResult` in `Dbconnection::handleEvent`.
pub mod Storing
use asynchronous_http_web_se.Base.{
  ℕ, zero, suc, ◌+◌, ◌<◌, ◌≡◌, refl, sym, ap, ◌∙◌, ◌⊎◌, inl, inr, Bool, true, false, not, List, [],
  ◌∷◌, ◌++◌, Option, none, some, arith, Bytes, length, All, append_assoc, append-nil, if◌then◌else◌,
}
use asynchronous_http_web_se.Calls.{Call, clears, calls_back, cleared, callbacks}
use asynchronous_http_web_se.Db.{DbConnection, QueryResult, Handled}

pub data ExecStatus : Type 0 where
  tuples_ok command_ok other_status : ExecStatus

-- A `PGresult` of libpq: `PQresultStatus`, `PQntuples`, `PQnfields` and `PQgetvalue`.
pub record PgResult : Type 0 where
  pub status : ExecStatus
  pub ntuples : ℕ
  pub nfields : ℕ
  pub value : ℕ → ℕ → Bytes

-- `queryStatus != PGRES_TUPLES_OK && queryStatus != PGRES_COMMAND_OK`
abbrev pub is_bad : ExecStatus → Bool
is_bad tuples_ok = false
is_bad command_ok = false
is_bad other_status = true

-- `for (j = 0; j < ncols; j++)`: `n` rounds are left, from `j` on.
unfoldable pub tuple_from : (ℕ → Bytes) → ℕ → ℕ → List Bytes
tuple_from value zero j = []
tuple_from value (suc n) j = value j ∷ tuple_from value n (suc j)

-- `for (i = 0; i < nrows; i++)`
unfoldable pub table_from : (ℕ → ℕ → Bytes) → ℕ → ℕ → ℕ → List (List Bytes)
unfolding tuple_from
table_from value ncols zero i = []
table_from value ncols (suc n) i = tuple_from (value i) ncols 0 ∷ table_from value ncols n (suc i)

unfoldable pub query_result : PgResult → QueryResult
unfolding table_from
query_result res = record {
  rows = res.ntuples;
  cols = res.nfields;
  table = table_from res.value res.nfields res.ntuples 0;
}

-- `while ((res = PQgetResult(this->conn)) != NULL) PQclear(res);`
unfoldable pub discard : List PgResult → List Call
discard [] = calls_back ∷ []
discard (res ∷ more) = clears ∷ discard more

-- The results that `PQgetResult` gives before NULL.
unfoldable pub store_results : List PgResult → DbConnection → Handled
unfolding query_result discard
store_results [] conn = (conn, calls_back ∷ [])
store_results (res ∷ more) conn =
    let (conn', calls) =
      store_results more (record conn { results = conn.results ++ query_result res ∷ [] }) in
    if is_bad res.status
    then (record conn { is_error = true }, discard more)
    else (conn', clears ∷ calls)
