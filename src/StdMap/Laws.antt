-- ===== src/StdMap/Laws.antt =====
-- The map operations against a partial function on keys.
use asynchronous_http_web_se.Base.{
  false, ◌+◌, ◌≡◌, refl, List, [], ◌∷◌, none, some, arith, Key, ◌=?◌, length, if◌then◌else◌,
}
use asynchronous_http_web_se.StdMap.{assign, find, erase}

module _ {K V : Type 0} ⦃k : Key K⦄ where
  pub find-assign :
      (key j : K) (val : V) (m : List (K × V))
      → find j (assign key val m) ≡ (if key =? j then some val else find j m)
  unfolding find assign
  find-assign key j val [] = ground (arith, k.same_iff key j, k.same_iff j key)
  find-assign key j val ((i, w) ∷ m) = ground (
    arith,
    k.same_iff key j,
    k.same_iff j key,
    k.same_iff key i,
    k.same_iff j i,
    find-assign key j val m,
  )

  -- No key has two entries.
  abbrev pub IsKeyed : List (K × V) → Type 0
  IsKeyed [] = Unit {0}
  IsKeyed ((j, w) ∷ m) = (find j m ≡ none) × IsKeyed m

  pub find-erase :
      (key j : K) (m : List (K × V))
      → IsKeyed m
      → find j (erase key m) ≡ (if key =? j then none else find j m)
  unfolding find erase
  find-erase key j [] h = ground arith
  find-erase key j ((i, w) ∷ m) h = ground (
    arith,
    k.same_iff key j,
    k.same_iff j key,
    k.same_iff key i,
    k.same_iff j i,
    find-erase key j m h.1,
  )

  pub find-erase_other :
      (key j : K) (m : List (K × V)) → (key =? j) ≡ false → find j (erase key m) ≡ find j m
  unfolding find erase
  find-erase_other key j [] h = refl
  find-erase_other key j ((i, w) ∷ m) h =
      ground (arith, k.same_iff j i, k.same_iff key i, k.same_iff key j, find-erase_other key j m h)

  pub assign-IsKeyed :
      (key : K) (val : V) (m : List (K × V)) → IsKeyed m → IsKeyed (assign key val m)
  unfolding find assign
  assign-IsKeyed key val [] h = ground arith
  assign-IsKeyed key val ((i, w) ∷ m) h =
      ground (arith, k.same_iff key i, find-assign key i val m, assign-IsKeyed key val m h.1)

  pub erase-IsKeyed : (key : K) (m : List (K × V)) → IsKeyed m → IsKeyed (erase key m)
  unfolding find erase
  erase-IsKeyed key [] h = h
  erase-IsKeyed key ((i, w) ∷ m) h =
      ground (arith, k.same_iff key i, find-erase key i m h.1, erase-IsKeyed key m h.1)

  pub length-assign :
      (key : K) (val : V) (m : List (K × V))
      → length (assign key val m) ≡ length m + elim (find key m) [ some _ ↦ 0 | none ↦ 1 ]
  unfolding find assign
  length-assign key val [] = omega arith
  length-assign key val ((i, w) ∷ m) = ground (arith, length-assign key val m)

  pub length-erase :
      (key : K) (m : List (K × V))
      → length m ≡ length (erase key m) + elim (find key m) [ some _ ↦ 1 | none ↦ 0 ]
  unfolding find erase
  length-erase key [] = omega arith
  length-erase key ((i, w) ∷ m) = ground (arith, length-erase key m)

  pub size_zero_of : (m : List (K × V)) → length m ≡ 0 → (j : K) → find j m ≡ none
  unfolding find
  size_zero_of [] h j = refl
  size_zero_of ((i, w) ∷ m) h j = absurd (omega arith)

  pub empty_of : (m : List (K × V)) → ((j : K) → find j m ≡ none) → length m ≡ 0
  unfolding find
  empty_of [] h = refl
  empty_of ((i, w) ∷ m) h = ground (arith, h i, k.same_iff i i)
