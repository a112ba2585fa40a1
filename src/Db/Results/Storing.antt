-- ===== src/Db/Results/Storing.antt =====
-- What is stored of the results of a query, and which results are freed.
use mathlib.Core.List.{map}
use mathlib.Core.Path.{ap₂}
use asynchronous_http_web_se.Base.{
  ℕ, zero, suc, ◌+◌, ◌<◌, ◌≡◌, refl, sym, ap, ◌∙◌, true, false, List, [], ◌∷◌, ◌++◌, Option, none,
  some, arith, Bytes, length, get_elem?, append_assoc, append-nil,
}
use asynchronous_http_web_se.Calls.{cleared, callbacks}
use asynchronous_http_web_se.Db.{DbConnection}
use asynchronous_http_web_se.Db.Results.{
  PgResult, is_bad, tuple_from, table_from, query_result, discard, store_results,
}

-- Row `i`, column `j` of a stored table.
abbrev pub cell : List (List Bytes) → ℕ → ℕ → Option Bytes
cell table i j = elim (get_elem? table i) [ none ↦ none | some row ↦ get_elem? row j ]

pub get_elem?-tuple_from :
    (value : ℕ → Bytes) (n j k : ℕ)
    → k < n
    → get_elem? (tuple_from value n j) k ≡ some (value (j + k))
unfolding tuple_from
get_elem?-tuple_from value zero j k h = absurd (omega arith)
get_elem?-tuple_from value (suc n) j zero h =
    ap (λ (x : ℕ). some (value x)) {x = j} {y = j + 0} (omega arith)
get_elem?-tuple_from value (suc n) j (suc k) h =
    get_elem?-tuple_from value n (suc j) k (omega arith)
    ∙ ap (λ (x : ℕ). some (value x)) {x = suc j + k} {y = j + suc k} (omega arith)

length-tuple_from : (value : ℕ → Bytes) (n j : ℕ) → length (tuple_from value n j) ≡ n
unfolding tuple_from
length-tuple_from value zero j = refl
length-tuple_from value (suc n) j = ap suc (length-tuple_from value n (suc j))

pub get_elem?-table_from :
    (value : ℕ → ℕ → Bytes) (ncols n i k : ℕ)
    → k < n
    → get_elem? (table_from value ncols n i) k ≡ some (tuple_from (value (i + k)) ncols 0)
unfolding table_from
get_elem?-table_from value ncols zero i k h = absurd (omega arith)
get_elem?-table_from value ncols (suc n) i zero h =
    ap (λ (x : ℕ). some (tuple_from (value x) ncols 0)) {x = i} {y = i + 0} (omega arith)
get_elem?-table_from value ncols (suc n) i (suc k) h =
    get_elem?-table_from value ncols n (suc i) k (omega arith)
    ∙ ap (λ (x : ℕ). some (tuple_from (value x) ncols 0)) {x = suc i + k} {y = i + suc k}
        (omega arith)

length-table_from :
    (value : ℕ → ℕ → Bytes) (ncols n i : ℕ) → length (table_from value ncols n i) ≡ n
unfolding table_from
length-table_from value ncols zero i = refl
length-table_from value ncols (suc n) i = ap suc (length-table_from value ncols n (suc i))

-- A stored result has the rows and columns that libpq reports, and in each cell the text that
-- `PQgetvalue` gives for it.
pub query_result_cells :
    (res : PgResult) (i j : ℕ)
    → i < res.ntuples
    → j < res.nfields
    → let q = query_result res in
      (q.rows ≡ res.ntuples)
      × (q.cols ≡ res.nfields)
      × (length q.table ≡ res.ntuples)
      × (cell q.table i j ≡ some (res.value i j))
unfolding query_result
query_result_cells res i j hi hj = (
  refl,
  refl,
  length-table_from res.value res.nfields res.ntuples 0,
  rw (get_elem?-table_from res.value res.nfields res.ntuples 0 i hi, cell)
      (get_elem?-tuple_from (res.value (0 + i)) res.nfields 0 j hj
        ∙ ap₂ (λ (x y : ℕ). some (res.value x y)) {x = 0 + i} {y = i} (omega arith) (omega arith)),
)

abbrev pub AllGood : List PgResult → Type 0
AllGood [] = Unit {0}
AllGood (res ∷ more) = (is_bad res.status ≡ false) × AllGood more

cleared-discard : (more : List PgResult) → cleared (discard more) ≡ length more
unfolding discard
cleared-discard [] = refl
cleared-discard (res ∷ more) = ap suc (cleared-discard more)

callbacks-discard : (more : List PgResult) → callbacks (discard more) ≡ 1
unfolding discard
callbacks-discard [] = refl
callbacks-discard (res ∷ more) = callbacks-discard more

-- A query whose results are all good stores every one of them in order, frees every one, and then
-- runs the callback once.
pub store_results_good :
    (rs : List PgResult) (conn : DbConnection)
    → AllGood rs
    → let r = store_results rs conn in
      (r.0.results ≡ conn.results ++ map query_result rs)
      × (r.0.is_error ≡ conn.is_error)
      × (cleared r.1 ≡ length rs)
      × (callbacks r.1 ≡ 1)
unfolding store_results
store_results_good [] conn h = (sym (append-nil conn.results), refl, refl, refl)
store_results_good (res ∷ more) conn h =
    let later =
      store_results_good more (record conn { results = conn.results ++ query_result res ∷ [] })
        h.1 in
    rw h.0 (
      later.0 ∙ append_assoc conn.results (query_result res ∷ []) (map query_result more),
      later.1,
      ap suc later.2,
      later.3,
    )

-- A bad result sets the error, keeps the results before it, runs the callback once, and frees every
-- result but the bad one itself, which stays allocated.
pub store_results_leaks_bad :
    (good more : List PgResult) (res : PgResult) (conn : DbConnection)
    → AllGood good
    → is_bad res.status ≡ true
    → let r = store_results (good ++ res ∷ more) conn in
      (r.0.is_error ≡ true)
      × (r.0.results ≡ conn.results ++ map query_result good)
      × (callbacks r.1 ≡ 1)
      × (cleared r.1 + 1 ≡ length (good ++ res ∷ more))
unfolding store_results
store_results_leaks_bad [] more res conn h bad = rw bad (
  refl,
  sym (append-nil conn.results),
  callbacks-discard more,
  omega (arith, cleared-discard more),
)
store_results_leaks_bad (g ∷ good) more res conn h bad =
    let later =
      store_results_leaks_bad good more res
        (record conn { results = conn.results ++ query_result g ∷ [] }) h.1 bad in
    rw h.0 (
      later.0,
      later.1 ∙ append_assoc conn.results (query_result g ∷ []) (map query_result good),
      later.2,
      omega (arith, later.3),
    )
