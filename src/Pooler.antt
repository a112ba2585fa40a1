-- ===== src/Pooler.antt =====
-- include/db_pooler.h: `DBpooler`. `sendQuery` and the callback that it gives to a connection call
-- each other, since `Dbconnection::sendQuery` runs the callback at once when it fails and the
-- application's callback may send further queries. The model keeps what is left of the running
-- calls in a stack of frames, the innermost first, and makes one step for the innermost frame.
pub mod Sending
pub mod Order
pub mod Ending
pub mod Places
pub mod Connecting
pub mod Events
pub mod Deleting
pub mod Homes
pub mod Counting
pub mod Reusing
pub mod Conserving
use mathlib.Core.List.{map}
use asynchronous_http_web_se.Base.{
  ℕ, zero, suc, ◌-◌, List, [], ◌∷◌, ◌++◌, Option, none, some, Bool, true, false, ltb, ◌==◌, ℤ, pos,
  Bytes, get_elem?, nat_key, ◌=?◌, text, if◌then◌else◌,
}
use asynchronous_http_web_se.StdMap.{find, erase}
use asynchronous_http_web_se.Epoll.{EpollEvent}
use asynchronous_http_web_se.Calls.{Call, callbacks}
use asynchronous_http_web_se.Db.{
  DbConnection, Handled, new_db, connect_db, send_query, reset_connection,
}
use asynchronous_http_web_se.Db.Handler.{PqAnswers, handle_event}

-- `C` stands for the application's callbacks.
pub record PendingQuery (C : Type 0) : Type 0 where
  pub query : Bytes
  pub client : Bytes
  pub cb : C

-- The fields, but for `ioc` and `connection_info`; a connection is named by a number, its address.
-- `heap` has the objects at the addresses, and `in_use` the callbacks that the reactor holds for
-- the connections that are at work on a query. `answered` counts the calls of `PQsendQuery`.
pub record DbPooler (C : Type 0) : Type 0 where
  pub pool_size : ℕ
  pub connected_count : ℕ
  pub idle_count : ℕ
  pub connected_conns : List ℕ
  pub available_conns : List ℕ
  pub is_ready : Bool
  pub pending_queries : List (PendingQuery C)
  pub heap : ℕ → DbConnection
  pub in_use : List (ℕ × C)
  pub answered : ℕ

-- A call of the pool's `sendQuery`, the rest of the pool's callback after `cb(dbconn)`, and the
-- `while` loop at its end.
pub data Frame (C : Type 0) : Type 0 where
  sends : PendingQuery C → Frame C
  gives_back : ℕ → Frame C
  drains : Frame C

-- What a run does: `sendQuery` is called, a query goes to a connection, a method of a connection
-- makes its calls, and a callback of the application runs on a connection.
pub data Entry (C : Type 0) : Type 0 where
  asks : PendingQuery C → Entry C
  hands : PendingQuery C → ℕ → Entry C
  does : ℕ → List Call → Entry C
  runs : C → DbConnection → Entry C

-- The pool after a step, the calls that the step has still to make, and its log.
pub record Stepped (C : Type 0) : Type 0 where
  pub pool : DbPooler C
  pub frames : List (Frame C)
  pub log : List (Entry C)

unfoldable pub at_address : ℕ → DbConnection → (ℕ → DbConnection) → ℕ → DbConnection
at_address c conn heap i = if c =? i then conn else heap i

-- `answer` gives what `PQsendQuery` and `PQflush` return in the n-th `Dbconnection::sendQuery`, and
-- `react` the queries that a callback of the application sends, in order, for a connection.
module _ {C : Type 0} (answer : ℕ → ℤ × ℤ) (react : C → DbConnection → List (PendingQuery C)) where
  -- The pool's callback from its start: `cb(dbconn)`, and then the rest.
  unfoldable pub run_callback : ℕ → C → DbConnection → List (Frame C)
  run_callback c cb conn = map sends (react cb conn) ++ gives_back c ∷ []

  -- `sendQuery` with `c` at the front of the queue, and `rest` behind it.
  unfoldable pub hand_over : PendingQuery C → ℕ → List ℕ → DbPooler C → Stepped C
  unfolding run_callback at_address
  hand_over q c rest pool =
      let (sent, status) = answer pool.answered in
      let (conn, calls) = send_query sent status (record (pool.heap c) { parent = q.client }) in
      let pool' = record pool {
        available_conns = rest;
        idle_count = pool.idle_count - 1;
        heap = at_address c conn pool.heap;
        answered = suc pool.answered;
      } in
      if callbacks calls == 0
      then record {
        pool = record pool' { in_use = (c, q.cb) ∷ pool'.in_use };
        frames = [];
        log = hands q c ∷ does c calls ∷ [];
      }
      else record {
        pool = pool';
        frames = run_callback c q.cb conn;
        log = hands q c ∷ does c calls ∷ runs q.cb conn ∷ [];
      }

  -- `front` of an empty queue is undefined; here the query is dropped then.
  unfoldable pub pool_send_query : PendingQuery C → DbPooler C → Stepped C
  unfolding hand_over
  pool_send_query q pool =
      if ltb 0 pool.idle_count
      then elim pool.available_conns [
        | [] ↦ record { pool = pool; frames = []; log = [] }
        | c ∷ rest ↦ hand_over q c rest pool
      ]
      else record {
        pool = record pool { pending_queries = pool.pending_queries ++ q ∷ [] };
        frames = [];
        log = [];
      }

  -- The rest of the test of the `while` loop, and its body: `front`, `pop` and `sendQuery`.
  unfoldable pub send_next : List (PendingQuery C) → DbPooler C → Stepped C
  unfolding pool_send_query
  send_next [] pool = record { pool = pool; frames = []; log = [] }
  send_next (q ∷ qs) pool =
      let r = pool_send_query q (record pool { pending_queries = qs }) in
      record { pool = r.pool; frames = r.frames ++ drains ∷ []; log = r.log }

  unfoldable pub step : Frame C → DbPooler C → Stepped C
  unfolding pool_send_query send_next at_address
  step (sends q) pool =
      let r = pool_send_query q pool in
      record { pool = r.pool; frames = r.frames; log = asks q ∷ r.log }
  step (gives_back c) pool = record {
    pool = record pool {
      heap = at_address c (reset_connection (pool.heap c)) pool.heap;
      idle_count = suc pool.idle_count;
      available_conns = pool.available_conns ++ c ∷ [];
    };
    frames = drains ∷ [];
    log = [];
  }
  step drains pool =
      if ltb 0 pool.idle_count
      then send_next pool.pending_queries pool
      else record { pool = pool; frames = []; log = [] }

  -- Up to `n` steps.
  unfoldable pub run : ℕ → List (Frame C) → DbPooler C → Stepped C
  unfolding step
  run zero fs pool = record { pool = pool; frames = fs; log = [] }
  run (suc n) [] pool = record { pool = pool; frames = []; log = [] }
  run (suc n) (f ∷ fs) pool =
      let r = step f pool in
      let s = run n (r.frames ++ fs) r.pool in
      record { pool = s.pool; frames = s.frames; log = r.log ++ s.log }

  -- An event on the connection `c`: `Dbconnection::handleEvent` with the pool's callback.
  unfoldable pub on_event : EpollEvent → PqAnswers → ℕ → DbPooler C → Stepped C
  unfolding handle_event run_callback at_address
  on_event ev pq c pool = elim (find c pool.in_use) [
    | none ↦ record { pool = pool; frames = []; log = [] }
    | some cb ↦
        let (conn, calls) = handle_event ev pq (pool.heap c) in
        let pool' = record pool { heap = at_address c conn pool.heap } in
        if callbacks calls == 0
        then record { pool = pool'; frames = []; log = does c calls ∷ [] }
        else record {
          pool = record pool' { in_use = erase c pool.in_use };
          frames = run_callback c cb conn;
          log = does c calls ∷ runs cb conn ∷ [];
        }
  ]

-- The callback that the constructor gives to `connectDb`, for the connection `c`.
unfoldable pub on_connected : {C : Type 0} → ℕ → DbPooler C → DbPooler C
on_connected c pool =
    let pool' = record pool {
      connected_conns = pool.connected_conns ++ c ∷ [];
      available_conns = pool.available_conns ++ c ∷ [];
      connected_count = suc pool.connected_count;
      idle_count = suc pool.idle_count;
    } in
    let pool'' =
      if pool'.connected_count == pool'.pool_size
      then record pool' { is_ready = true }
      else pool' in
    if (pool.heap c).is_error then pool else pool''

-- A round of the loop of the constructor: whether `PQconnectStart` gives a connection, and the socket
-- that it has then.
unfoldable pub start_one : {C : Type 0} → Bool → ℤ → ℕ → DbPooler C → DbPooler C
unfolding at_address on_connected connect_db
start_one started fd i pool =
    let (conn, calls) = connect_db started fd (new_db (text "") (pos 0)) in
    let pool' = record pool { heap = at_address i conn pool.heap } in
    if callbacks calls == 0 then pool' else on_connected i pool'

-- `n` rounds are left, from `i` on.
unfoldable pub start_from : {C : Type 0} → (ℕ → Bool) → (ℕ → ℤ) → ℕ → ℕ → DbPooler C → DbPooler C
unfolding start_one
start_from started fd zero i pool = pool
start_from started fd (suc n) i pool =
    start_from started fd n (suc i) (start_one (started i) (fd i) i pool)

-- The constructor's object before the loop.
unfoldable pub empty_pool : {C : Type 0} → ℕ → DbPooler C
empty_pool pool_size = record {
  pool_size = pool_size;
  connected_count = 0;
  idle_count = 0;
  connected_conns = [];
  available_conns = [];
  is_ready = false;
  pending_queries = [];
  heap = λ _. new_db (text "") (pos 0);
  in_use = [];
  answered = 0;
}

-- The constructor.
unfoldable pub new_pool : {C : Type 0} → (ℕ → Bool) → (ℕ → ℤ) → ℕ → DbPooler C
unfolding start_from empty_pool
new_pool started fd pool_size = start_from started fd pool_size 0 (empty_pool pool_size)

-- The loop of the destructor, `n` rounds before its end: the connections that it deletes. An index
-- past the end of `connected_conns` is undefined behaviour, and gives `none`.
unfoldable pub delete_from : List ℕ → ℕ → ℕ → Option (List ℕ)
delete_from connected_conns zero i = some []
delete_from connected_conns (suc n) i =
    let rest = delete_from connected_conns n (suc i) in
    elim (get_elem? connected_conns i) [
      | none ↦ none
      | some conn ↦ elim rest [ none ↦ none | some deleted ↦ some (conn ∷ deleted) ]
    ]

-- The destructor.
unfoldable pub delete_pool : {C : Type 0} → DbPooler C → Option (List ℕ)
unfolding delete_from
delete_pool pool = delete_from pool.connected_conns pool.pool_size 0
