-- ===== src/SafeMap.antt =====
-- include/thread_safe_map.h: `ThreadSafeMap<KeyType, ValType>`. Each method holds the mutex from its
-- first line to its return, so a method is one step of the map here; SafeMap/Threads has the mutex, with
-- each line a step.
pub mod Laws
pub mod Refinement
pub mod Threads
use asynchronous_http_web_se.Base.{
  ℕ, Bool, true, false, List, [], ◌∷◌, Option, none, some, Key, ◌=?◌, length, if◌then◌else◌,
}
use asynchronous_http_web_se.StdMap.{StdMap, assign, find, erase}

pub record ThreadSafeMap (K V : Type 0) : Type 0 where
  pub entries : StdMap K V

unfoldable pub empty : {K V : Type 0} → ThreadSafeMap K V
empty = record { entries = [] }

module _ {K V : Type 0} ⦃k : Key K⦄ where
  unfoldable pub insert : K → V → ThreadSafeMap K V → ThreadSafeMap K V
  unfolding assign
  insert key val t = record { entries = assign key val t.entries }

  unfoldable pub get : K → ThreadSafeMap K V → Option V
  unfolding find
  get key t = find key t.entries

  unfoldable pub remove : K → ThreadSafeMap K V → ThreadSafeMap K V × Bool
  unfolding find erase
  remove key t = elim (find key t.entries) [
    | some w ↦ (record { entries = erase key t.entries }, true)
    | none ↦ (t, false)
  ]

  unfoldable pub get_size : ThreadSafeMap K V → ℕ
  get_size t = length t.entries
