-- ===== src/Books.antt =====
-- example/server.cpp: the program that stores books over HTTP, with all its callbacks. The reactor's
-- callbacks and the pool's callbacks are values, and each runs as a function on the program's state.
pub mod Text
pub mod Handlers
pub mod Serving
pub mod Answering
pub mod Failing
pub mod Rows
pub mod Safety
pub mod Sharing
pub mod Visiting
use asynchronous_http_web_se.Base.{ℕ, Bool, List, Option, ℤ, Bytes, nat_key, ◌=?◌, if◌then◌else◌}
use asynchronous_http_web_se.SocketIo.{Inbound, Outbound}
use asynchronous_http_web_se.Reactor.{Tracker}
use asynchronous_http_web_se.Client.{ClientConnection}
use asynchronous_http_web_se.Db.Handler.{PqAnswers}
use asynchronous_http_web_se.Pooler.{DbPooler}
use asynchronous_http_web_se.Registry.{World}
use asynchronous_http_web_se.Sockets.{System, AcceptAnswers}

-- The callbacks that the program gives to `pooler->sendQuery`: for the INSERT, and for the SELECT.
pub data Reply : Type 0 where
  inserted selected : Reply

-- The closures that the reactor holds: the accept handler; `[this, cb]` of a client that is read or
-- written, by its address; `[this, cb]` of a connection of the pool that is being established or at
-- work on a query, by its number.
pub data Closure : Type 0 where
  accepts : Closure
  reads writes connects queries : ℕ → Closure

-- nlohmann/json as the program uses it. `none` of `parse` is a discarded value, and of the others an
-- exception. `dump_rows` is `dump` of the array of `{"id": …, "title": …}`.
pub record JsonLib (J : Type 0) : Type 0 where
  pub parse : Bytes → Option J
  pub int_value : J → Bytes → Option ℤ
  pub text_value : J → Bytes → Option Bytes
  pub dump : J → Option Bytes
  pub dump_rows : List (Bytes × Bytes) → Option Bytes

-- What the system calls and libpq answer in one event.
pub record Env : Type 0 where
  pub accepting : AcceptAnswers
  pub uuid : Bytes
  pub inbound : Inbound
  pub outbound : Outbound
  pub pq : PqAnswers

-- The program's state but for the reactor: the registry, the objects of the clients, of which those
-- at the addresses that `world` has are alive, the pool, the descriptors, and how many callbacks of
-- the reactor have run. A crash is an exception that nobody catches, or an index out of range;
-- `misused` says that an object was used after its end, or deleted twice.
pub record App (P : Type 0) : Type 0 where
  pub world : World
  pub clients : ℕ → ClientConnection P
  pub pool : DbPooler Reply
  pub system : System
  pub served : ℕ
  pub crashed : Bool
  pub misused : Bool

-- The arguments of a callback: the reactor, and the rest.
abbrev pub State : Type 0 → Type 0 → Type 0
State K P = Tracker K Closure × App P

unfoldable pub set_client :
    {P : Type 0} → ℕ → ClientConnection P → (ℕ → ClientConnection P) → ℕ → ClientConnection P
set_client a conn clients i = if a =? i then conn else clients i
