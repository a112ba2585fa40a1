-- ===== src/SafeMap/Laws.antt =====
-- The methods of `ThreadSafeMap` against a partial function on keys.
use asynchronous_http_web_se.Base.{◌+◌, ◌≡◌, refl, ◌↔◌, none, some, arith, Key, ◌=?◌, if◌then◌else◌}
use asynchronous_http_web_se.SafeMap.{ThreadSafeMap, empty, insert, get, remove, get_size}
use asynchronous_http_web_se.StdMap.{find}
use asynchronous_http_web_se.StdMap.Laws.{
  IsKeyed, find-assign, find-erase, assign-IsKeyed, erase-IsKeyed, length-assign, length-erase,
  size_zero_of, empty_of,
}

module _ {K V : Type 0} ⦃k : Key K⦄ where
  pub get-empty : (j : K) → get {V = V} j empty ≡ none
  unfolding get empty find
  get-empty j = refl

  -- After an `insert`, `get` finds the value at its key, and at another key what it found before.
  pub get-insert :
      (key j : K) (val : V) (t : ThreadSafeMap K V)
      → get j (insert key val t) ≡ (if key =? j then some val else get j t)
  unfolding get insert
  get-insert key j val t = find-assign key j val t.entries

  pub IsMap : ThreadSafeMap K V → Type 0
  IsMap t = IsKeyed t.entries

  pub insert-IsMap :
      (key : K) (val : V) (t : ThreadSafeMap K V) → IsMap t → IsMap (insert key val t)
  unfolding IsMap insert
  insert-IsMap key val t h = assign-IsKeyed key val t.entries h

  pub remove-IsMap : (key : K) (t : ThreadSafeMap K V) → IsMap t → IsMap (remove key t).0
  unfolding IsMap remove
  remove-IsMap key t h = ground (arith, erase-IsKeyed key t.entries h)

  -- After a `remove`, `get` finds nothing at its key, and at another key what it found before; here
  -- no key has two entries, as in a map that the methods built.
  pub get-remove :
      (key j : K) (t : ThreadSafeMap K V)
      → IsMap t
      → get j (remove key t).0 ≡ (if key =? j then none else get j t)
  unfolding IsMap get remove
  get-remove key j t h = ground (arith, k.same_iff key j, find-erase key j t.entries h)

  -- `getSize() == 0` says that no key has a value.
  pub get_size_zero : (t : ThreadSafeMap K V) → (get_size t ≡ 0) ↔ ((j : K) → get j t ≡ none)
  unfolding get get_size
  get_size_zero t = (size_zero_of t.entries, empty_of t.entries)

  pub get_size-insert :
      (key : K) (val : V) (t : ThreadSafeMap K V)
      → get_size (insert key val t) ≡ get_size t + elim (get key t) [ some _ ↦ 0 | none ↦ 1 ]
  unfolding get get_size insert
  get_size-insert key val t = length-assign key val t.entries

  pub get_size-remove :
      (key : K) (t : ThreadSafeMap K V)
      → get_size t ≡ get_size (remove key t).0 + elim (get key t) [ some _ ↦ 1 | none ↦ 0 ]
  unfolding get get_size remove
  get_size-remove key t = ground (arith, length-erase key t.entries)

module _ (K V : Type 0) ⦃k : Key K⦄ where
  pub empty-IsMap : IsMap {K = K} {V = V} empty
  unfolding IsMap empty
  empty-IsMap = tt

pub ruleset map_laws = (get-empty, get-insert, get-remove)
