-- ===== src/SafeMap/Refinement.antt =====
-- `ThreadSafeMap` against an abstract map: a partial function on keys, and the number of its keys.
-- Since each method holds the mutex to its end, calls from several threads are one sequence of calls.
use asynchronous_http_web_se.Base.{
  ℕ, ◌+◌, ◌-◌, ◌≡◌, refl, ap, ◌∙◌, Bool, List, [], ◌∷◌, Option, none, some, is_some, arith, Key,
  ◌=?◌, if◌then◌else◌,
}
use asynchronous_http_web_se.SafeMap.{ThreadSafeMap, empty, insert, get, remove, get_size}
use asynchronous_http_web_se.SafeMap.Laws.{
  IsMap, get-empty, get-insert, get-remove, insert-IsMap, remove-IsMap, empty-IsMap,
  get_size-insert, get_size-remove, get_size_zero,
}

pub data Operation (K V : Type 0) : Type 0 where
  inserts : K → V → Operation K V
  removes gets : K → Operation K V
  sizes : Operation K V

-- What a call returns.
pub data Answer (V : Type 0) : Type 0 where
  done : Answer V
  removed : Bool → Answer V
  found : Option V → Answer V
  counted : ℕ → Answer V

-- The abstract map.
pub record Spec (K V : Type 0) : Type 0 where
  pub value : K → Option V
  pub size : ℕ

module _ {K V : Type 0} ⦃k : Key K⦄ where
  unfoldable pub perform : Operation K V → ThreadSafeMap K V → ThreadSafeMap K V × Answer V
  unfolding insert remove get get_size
  perform (inserts key val) t = (insert key val t, done)
  perform (removes key) t = let (t', b) = remove key t in (t', removed b)
  perform (gets key) t = (t, found (get key t))
  perform sizes t = (t, counted (get_size t))

  -- The answers to a sequence of calls, in order.
  unfoldable pub answers : List (Operation K V) → ThreadSafeMap K V → List (Answer V)
  unfolding perform
  answers [] t = []
  answers (op ∷ ops) t = let (t', a) = perform op t in a ∷ answers ops t'

  -- What the abstract map does for each call.
  unfoldable pub promise : Operation K V → Spec K V → Spec K V × Answer V
  promise (inserts key val) s = (
    record {
      value = λ j. if key =? j then some val else s.value j;
      size = if is_some (s.value key) then s.size else s.size + 1;
    },
    done,
  )
  promise (removes key) s = (
    record {
      value = λ j. if key =? j then none else s.value j;
      size = if is_some (s.value key) then s.size - 1 else s.size;
    },
    removed (is_some (s.value key)),
  )
  promise (gets key) s = (s, found (s.value key))
  promise sizes s = (s, counted s.size)

  unfoldable pub promises : List (Operation K V) → Spec K V → List (Answer V)
  unfolding promise
  promises [] s = []
  promises (op ∷ ops) s = let (s', a) = promise op s in a ∷ promises ops s'

  record Represents (t : ThreadSafeMap K V) (s : Spec K V) : Type 0 where
    keyed : IsMap t
    values : (j : K) → get j t ≡ s.value j
    sized : get_size t ≡ s.size

  remove_answer : (key : K) (t : ThreadSafeMap K V) → (remove key t).1 ≡ is_some (get key t)
  unfolding remove get
  remove_answer key t = ground arith

  -- One call keeps the representation, and gives the answer of the abstract map.
  perform-Represents :
      (op : Operation K V) (t : ThreadSafeMap K V) (s : Spec K V)
      → Represents t s
      → Represents (perform op t).0 (promise op s).0 × ((perform op t).1 ≡ (promise op s).1)
  unfolding perform promise
  perform-Represents (inserts key val) t s h = (
    record {
      keyed = insert-IsMap key val t h.keyed;
      values = λ j. ground (arith, get-insert key j val t, h.values j);
      sized = ground (arith, get_size-insert key val t, h.values key, h.sized);
    },
    refl,
  )
  perform-Represents (removes key) t s h = (
    record {
      keyed = remove-IsMap key t h.keyed;
      values = λ j. ground (arith, get-remove key j t h.keyed, h.values j);
      sized = ground (arith, get_size-remove key t, h.values key, h.sized);
    },
    ap removed (remove_answer key t ∙ ap is_some (h.values key)),
  )
  perform-Represents (gets key) t s h = (h, ap found (h.values key))
  perform-Represents sizes t s h = (h, ap counted h.sized)

  answers-promises :
      (ops : List (Operation K V)) (t : ThreadSafeMap K V) (s : Spec K V)
      → Represents t s
      → answers ops t ≡ promises ops s
  unfolding answers promises
  answers-promises [] t s h = refl
  answers-promises (op ∷ ops) t s h =
      let next = perform-Represents op t s h in
      ap (λ (a : Answer V). a ∷ answers ops (perform op t).0) next.1
      ∙ ap (λ (rest : List (Answer V)). (promise op s).1 ∷ rest)
          (answers-promises ops (perform op t).0 (promise op s).0 next.0)

  -- From an empty map on, every sequence of calls of the four methods gets the answers that a
  -- partial function on keys with a count of its keys gives: `get` the last value inserted and not
  -- removed, `remove` whether there was one, and `getSize` the number of keys with a value.
  pub answers_refine :
      (ops : List (Operation K V))
      → answers ops empty ≡ promises ops (record { value = λ _. none; size = 0 })
  answers_refine ops =
      answers-promises ops empty (record { value = λ _. none; size = 0 })
        (record {
          keyed = empty-IsMap K V;
          values = get-empty;
          sized = (get_size_zero empty).1 get-empty;
        })
