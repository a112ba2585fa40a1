-- ===== src/Db.antt =====
-- include/db_connection_type.h: `Dbconnection`, one connection to PostgreSQL through libpq. What
-- libpq's functions give is an argument of the methods.
pub mod Results
pub mod Handler
use Prim.Native.Nat.{bit_or}
use asynchronous_http_web_se.Base.{
  ℕ, Bool, true, false, List, [], ◌∷◌, ℤ, pos, int_key, ◌=?◌, minus_one, Bytes, text, if◌then◌else◌,
}
use asynchronous_http_web_se.Epoll.{epollin, read_mask, write_mask}
use asynchronous_http_web_se.Reactor.{helper_sock}
use asynchronous_http_web_se.Calls.{Call, tracks, untracks, calls_back}
use asynchronous_http_web_se.Api.{parent_or_none}

pub data DbConnectionState : Type 0 where
  idle not_connected connecting connected sending_query reading_response : DbConnectionState

pub record QueryResult : Type 0 where
  pub rows : ℕ
  pub cols : ℕ
  pub table : List (List Bytes)

-- The fields, but for `ioc`; of `conn` only whether it is NULL. Nothing sets `connectionId`.
pub record DbConnection : Type 0 where
  pub socket : ℤ
  pub connection_state : DbConnectionState
  pub parent : Bytes
  pub is_error : Bool
  pub has_conn : Bool
  pub results : List QueryResult

abbrev pub Handled : Type 0
Handled = DbConnection × List Call

-- The constructor. It leaves `socket` unset: `garbage` is what stands there.
unfoldable pub new_db : Bytes → ℤ → DbConnection
new_db parent garbage = record {
  socket = garbage;
  connection_state = not_connected;
  parent = parent_or_none parent;
  is_error = false;
  has_conn = false;
  results = [];
}

-- `connectDb`: `started` says that `PQconnectStart` gave a connection, whose `PQsocket` is `fd`.
unfoldable pub connect_db : Bool → ℤ → DbConnection → Handled
connect_db started fd conn =
    if started
    then (
      record conn { has_conn = true; socket = fd; connection_state = connecting },
      tracks fd write_mask helper_sock ∷ [],
    )
    else (record conn { has_conn = false; is_error = true }, calls_back ∷ [])

-- `EPOLLIN | EPOLLOUT | EPOLLET | EPOLLERR | EPOLLHUP`
abbrev pub read_write_mask : ℕ
read_write_mask = bit_or epollin write_mask

-- `sendQuery`: what `PQsendQuery` and then `PQflush` give.
unfoldable pub send_query : ℤ → ℤ → DbConnection → Handled
send_query sent status conn =
    let sending = record conn { connection_state = sending_query } in
    if sent =? pos 0
    then (record conn { is_error = true }, calls_back ∷ [])
    else if status =? minus_one
    then (record sending { is_error = true; connection_state = idle }, calls_back ∷ [])
    else if status =? pos 0
    then (
      record sending { connection_state = reading_response },
      tracks conn.socket read_mask helper_sock ∷ [],
    )
    else if status =? pos 1
    then (sending, tracks conn.socket read_write_mask helper_sock ∷ [])
    else (sending, [])

unfoldable pub reset_connection : DbConnection → DbConnection
reset_connection conn = record conn { parent = text "#"; results = []; is_error = false }

-- The destructor; `PQfinish` ends the connection in libpq.
unfoldable pub delete_db : DbConnection → List Call
delete_db conn = untracks conn.socket ∷ []
