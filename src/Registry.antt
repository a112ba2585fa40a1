-- ===== src/Registry.antt =====
-- The registry `isAlive` of the client connections that are not yet deleted: the constructor and the
-- destructor of `Clientconnection` in include/http_server_type.h, and `getParent` of the other two
-- connections. An object stands at an address, which `new` has chosen.
pub mod Parents
pub mod Orphans
use asynchronous_http_web_se.Base.{
  ℕ, List, [], ◌∷◌, Option, none, some, ℤ, Bytes, bytes_key, nat_key, ◌=?◌, if◌then◌else◌,
}
use asynchronous_http_web_se.StdMap.{StdMap, assign, find, erase}
use asynchronous_http_web_se.Api.{ApiConnection}
use asynchronous_http_web_se.Db.{DbConnection}

-- The registry: the address of the client for an id.
abbrev pub IsAlive : Type 0
IsAlive = StdMap Bytes ℕ

-- What the registry and the destructor read of a `Clientconnection`.
pub record ClientObject : Type 0 where
  pub connection_id : Bytes
  pub socket : ℤ

-- `isAlive`, the objects that are not deleted, and the sockets that were closed, the last one first.
pub record World : Type 0 where
  pub is_alive : IsAlive
  pub objects : ℕ → Option ClientObject
  pub closed : List ℤ

unfoldable pub start : World
start = record { is_alive = []; objects = λ _. none; closed = [] }

unfoldable pub put : ℕ → Option ClientObject → (ℕ → Option ClientObject) → ℕ → Option ClientObject
put address o objects i = if address =? i then o else objects i

-- The constructor: `isAlive[this->connectionId] = this`.
unfoldable pub create : ℕ → ClientObject → World → World
unfolding put
create address o w = record w {
  is_alive = assign o.connection_id address w.is_alive;
  objects = put address (some o) w.objects;
}

-- `isAlive.find(this->connectionId)`, and `erase` of what it found.
unfoldable pub unregister : Bytes → IsAlive → IsAlive
unregister id is_alive = elim (find id is_alive) [
  | some address ↦ erase id is_alive
  | none ↦ is_alive
]

-- `delete` of the object at an address: the destructor, and the end of the object. Where there is
-- no object, the behaviour is undefined; here nothing happens then.
unfoldable pub destroy : ℕ → World → World
unfolding unregister put
destroy address w = elim (w.objects address) [
  | none ↦ w
  | some o ↦ record {
    is_alive = unregister o.connection_id w.is_alive;
    objects = put address none w.objects;
    closed = o.socket ∷ w.closed;
  }
]

-- `isAlive.find(parent)`: `none` is the null pointer.
unfoldable pub get_parent : Bytes → World → Option ℕ
get_parent parent w = find parent w.is_alive

-- `APIconnection::getParent` and `Dbconnection::getParent`
unfoldable pub api_parent : {P : Type 0} → ApiConnection P → World → Option ℕ
unfolding get_parent
api_parent conn w = get_parent conn.parent w

unfoldable pub db_parent : DbConnection → World → Option ℕ
unfolding get_parent
db_parent conn w = get_parent conn.parent w

-- The destructor of `APIconnection`.
unfoldable pub delete_api : {P : Type 0} → ApiConnection P → World → World
delete_api conn w = record w { closed = conn.socket ∷ w.closed }
