-- ===== src/StdMap.antt =====
-- `std::unordered_map` as the code uses it: `m[key] = val`, `find`, `erase` of a found entry and
-- `size`. The iteration order is left open by the library, and nothing here rests on it.
pub mod Laws
use asynchronous_http_web_se.Base.{List, [], ◌∷◌, Option, none, some, Key, ◌=?◌, if◌then◌else◌}

abbrev pub StdMap : Type 0 → Type 0 → Type 0
StdMap K V = List (K × V)

module _ {K V : Type 0} ⦃k : Key K⦄ where
  unfoldable pub assign : K → V → StdMap K V → StdMap K V
  assign key val [] = (key, val) ∷ []
  assign key val ((j, w) ∷ m) = if key =? j then (j, val) ∷ m else (j, w) ∷ assign key val m

  unfoldable pub find : K → StdMap K V → Option V
  find key [] = none
  find key ((j, w) ∷ m) = if key =? j then some w else find key m

  unfoldable pub erase : K → StdMap K V → StdMap K V
  erase key [] = []
  erase key ((j, w) ∷ m) = if key =? j then m else (j, w) ∷ erase key m
