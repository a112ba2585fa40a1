-- ===== src/Tests/DbTests.antt =====
-- `Dbconnection` on concrete inputs.
use mathlib.Core.List.{map}
use asynchronous_http_web_se.Base.{◌+◌, ◌≡◌, refl, ◌⊎◌, true, [], ◌∷◌, ◌++◌, pos, text, length}
use asynchronous_http_web_se.Epoll.{EpollEvent, epollin}
use asynchronous_http_web_se.Calls.{callbacks, cleared}
use asynchronous_http_web_se.Calls.Chain.{ChainEffect}
use asynchronous_http_web_se.Db.{DbConnection, new_db, reading_response}
use asynchronous_http_web_se.Db.Results.{
  PgResult, tuples_ok, other_status, query_result, store_results,
}
use asynchronous_http_web_se.Db.Results.Storing.{store_results_good, store_results_leaks_bad}
use asynchronous_http_web_se.Db.Handler.{PqAnswers, polling_active, handle_event}
use asynchronous_http_web_se.Db.Handler.Turns.{Waits, Ends, handle_event_turns}
use asynchronous_http_web_se.Tests.Kernel.{
  kernel, kernel_laws, socket5, watching, watching-IsTracked,
}

abbrev two_by_two : PgResult
two_by_two = record { status = tuples_ok; ntuples = 2; nfields = 2; value = λ i j. i ∷ j ∷ [] }

abbrev refused : PgResult
refused = record two_by_two { status = other_status }

abbrev reading : DbConnection
reading = record (new_db (text "7") socket5) { connection_state = reading_response }

abbrev answers : PqAnswers
answers = record {
  polled = polling_active;
  flush_out = pos 0;
  consumed = pos 1;
  flush_in = pos 0;
  is_busy = pos 0;
  fetched = two_by_two ∷ two_by_two ∷ [];
}

abbrev readable : EpollEvent
readable = record { events = epollin; fd = socket5 }

handle_event_turns_example :
    let r = handle_event readable answers reading in
    (((callbacks r.1 ≡ 0) × Waits reading.connection_state r.0.connection_state)
      ⊎ ((callbacks r.1 ≡ 1) × Ends reading.connection_state r.0.connection_state r.0.is_error))
    × ChainEffect kernel 7 reading.socket r.1 watching
handle_event_turns_example =
    handle_event_turns kernel 7 watching readable answers reading kernel_laws watching-IsTracked

store_results_good_example :
    let r = store_results (two_by_two ∷ two_by_two ∷ []) reading in
    (r.0.results ≡ reading.results ++ map query_result (two_by_two ∷ two_by_two ∷ []))
    × (r.0.is_error ≡ reading.is_error)
    × (cleared r.1 ≡ length (two_by_two ∷ two_by_two ∷ []))
    × (callbacks r.1 ≡ 1)
store_results_good_example =
    store_results_good (two_by_two ∷ two_by_two ∷ []) reading (refl, (refl, tt))

store_results_leaks_bad_example :
    let r = store_results ((two_by_two ∷ []) ++ refused ∷ two_by_two ∷ []) reading in
    (r.0.is_error ≡ true)
    × (r.0.results ≡ reading.results ++ map query_result (two_by_two ∷ []))
    × (callbacks r.1 ≡ 1)
    × (cleared r.1 + 1 ≡ length ((two_by_two ∷ []) ++ refused ∷ two_by_two ∷ []))
store_results_leaks_bad_example =
    store_results_leaks_bad (two_by_two ∷ []) (two_by_two ∷ []) refused reading (refl, tt) refl
