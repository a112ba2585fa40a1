-- ===== src/SafeMap/Threads/Locking.antt =====
-- The mutex of include/thread_safe_map.h, and what a line of a method does while the thread holds it.
use asynchronous_http_web_se.Base.{
  ℕ, ◌≡◌, ◌≢◌, refl, sym, ap, ◌∙◌, ◌⊎◌, inl, inr, [], Key, nat_key, ◌=?◌, Bool-cases,
}
use asynchronous_http_web_se.StdMap.{StdMap, find}
use asynchronous_http_web_se.SafeMap.{insert, remove, get, get_size}
use asynchronous_http_web_se.SafeMap.Refinement.{
  Operation, inserts, removes, gets, sizes, Answer, perform,
}
use asynchronous_http_web_se.SafeMap.Threads.{
  free, exclusive, lock_of, Phase, outside, waiting, entered, looked, leaving, holds, update,
  Grants, Move, assigns, finds, erases, misses, looks, copies, counts, ended,
}

module _ {A : Type 0} (t : ℕ) (a : A) (f : ℕ → A) where
  pub update_cases : (u : ℕ) → ((t ≡ u) × (update t a f u ≡ a)) ⊎ ((t ≢ u) × (update t a f u ≡ f u))
  unfolding update
  update_cases u = elim (Bool-cases (t =? u)) [
    | inl same ↦ inl ((nat_key.same_iff t u).0 same, rw same refl)
    | inr other ↦ inr ((λ e. let same = (nat_key.same_iff t u).1 e in cc), rw other refl)
  ]

-- A thread that holds the mutex alone is alone.
abbrev pub IsAlone : {K V : Type 0} → (ℕ → Phase K V) → Type 0
IsAlone phase = (t u : ℕ) → t ≢ u → holds (phase t) ≡ exclusive → holds (phase u) ≡ free

module _ {K V : Type 0} where
  -- A thread takes a phase that fits to those of the others.
  pub update-IsAlone :
      (t : ℕ) (q : Phase K V) (phase : ℕ → Phase K V)
      → IsAlone phase
      → ((u : ℕ) → t ≢ u → holds q ≡ exclusive → holds (phase u) ≡ free)
      → ((u : ℕ) → t ≢ u → holds (phase u) ≡ exclusive → holds q ≡ free)
      → IsAlone (update t q phase)
  update-IsAlone t q phase alone over under x y apart h = elim (update_cases t q phase x) [
    | inl (at_x, new) ↦ elim (update_cases t q phase y) [
      | inl (at_y, _) ↦ absurd (apart (sym at_x ∙ at_y))
      | inr (other, same) ↦ ap holds same ∙ over y other (sym (ap holds new) ∙ h)
    ]
    | inr (other, same) ↦ elim (update_cases t q phase y) [
      | inl (at_y, new) ↦ ap holds new ∙ under x other (sym (ap holds same) ∙ h)
      | inr (_, same') ↦ ap holds same' ∙ alone x y apart (sym (ap holds same) ∙ h)
    ]
  ]

  pub Grants-alone :
      (op : Operation K V) (phase : ℕ → Phase K V)
      → Grants (lock_of op) phase
      → ((u : ℕ) → lock_of op ≡ exclusive → holds (phase u) ≡ free)
        × ((u : ℕ) → holds (phase u) ≡ exclusive → lock_of op ≡ free)
  unfolding lock_of
  Grants-alone (inserts key val) phase h = ((λ u e. h u), (λ u e. let f = h u in cc))
  Grants-alone (removes key) phase h = ((λ u e. h u), (λ u e. let f = h u in cc))
  Grants-alone (gets key) phase h = ((λ u e. cc), (λ u e. absurd (h u e)))
  Grants-alone sizes phase h = ((λ u e. cc), (λ u e. absurd (h u e)))

module _ {K V : Type 0} ⦃k : Key K⦄ where
  -- What a thread has read still stands in the map.
  abbrev pub Sees : Phase K V → StdMap K V → Type 0
  Sees (looked (removes key) r) m = r ≡ find key m
  Sees (looked (gets key) r) m = r ≡ find key m
  Sees _ m = Unit {0}

  pub Sees-of_free : (p : Phase K V) (m : StdMap K V) → holds p ≡ free → Sees p m
  unfolding holds lock_of
  Sees-of_free outside m h = tt
  Sees-of_free (waiting op) m h = tt
  Sees-of_free (entered op) m h = tt
  Sees-of_free (looked (inserts key val) r) m h = tt
  Sees-of_free (looked (removes key) r) m h = cc
  Sees-of_free (looked (gets key) r) m h = cc
  Sees-of_free (looked sizes r) m h = tt
  Sees-of_free (leaving op a) m h = tt

  -- A line keeps the lock, and without the lock alone it leaves the map as it is.
  pub Move-lock :
      {m m' : StdMap K V} {p p' : Phase K V}
      → Move m p m' p'
      → (holds p' ≡ holds p) × ((m' ≡ m) ⊎ (holds p ≡ exclusive))
  unfolding holds lock_of
  Move-lock (assigns key val) = (refl, inr refl)
  Move-lock (finds key) = (refl, inl refl)
  Move-lock (erases key w) = (refl, inr refl)
  Move-lock (misses key) = (refl, inl refl)
  Move-lock (looks key) = (refl, inl refl)
  Move-lock (copies key r) = (refl, inl refl)
  Move-lock counts = (refl, inl refl)

  pub Move-Sees : {m m' : StdMap K V} {p p' : Phase K V} → Move m p m' p' → Sees p' m'
  Move-Sees (assigns key val) = tt
  Move-Sees (finds key) = refl
  Move-Sees (erases key w) = tt
  Move-Sees (misses key) = tt
  Move-Sees (looks key) = refl
  Move-Sees (copies key r) = tt
  Move-Sees counts = tt

  -- The last line of a method has done all that the method does.
  pub Move-performs :
      {m m' : StdMap K V} {p p' : Phase K V}
      → Move m p m' p'
      → Sees p m
      → (((t : ℕ) → ended t p' ≡ []) × (m' ≡ m))
        ⊎ ((op : Operation K V) × (a : Answer V) × (p' ≡ leaving op a)
            × (perform op (record { entries = m }) ≡ (record { entries = m' }, a)))
  unfolding perform insert remove get get_size
  Move-performs (assigns key val) seen = inr (_, _, refl, refl)
  Move-performs (finds key) seen = inl ((λ t. refl), refl)
  Move-performs (erases key w) seen = inr (_, _, refl, rw (sym seen, perform, remove) refl)
  Move-performs (misses key) seen = inr (_, _, refl, rw (sym seen, perform, remove) refl)
  Move-performs (looks key) seen = inl ((λ t. refl), refl)
  Move-performs (copies key r) seen = inr (_, _, refl, rw seen refl)
  Move-performs counts seen = inr (_, _, refl, refl)
