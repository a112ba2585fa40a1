-- ===== src/Pooler/Connecting.antt =====
-- The pool while its connections are established.
use asynchronous_http_web_se.Base.{
  ℕ, zero, suc, ◌≡◌, refl, ◌∙◌, sym, inl, inr, Bool, true, false, ◌||◌, ◌==◌, List, [], ◌∷◌, ◌++◌,
  arith, ℤ, nat_key, ◌=?◌, length, length-append, if_cases, if◌then◌else◌,
}
use asynchronous_http_web_se.Db.{connect_db}
use asynchronous_http_web_se.Pooler.{
  PendingQuery, DbPooler, on_connected, start_one, start_from, empty_pool, new_pool, at_address,
}
use asynchronous_http_web_se.Pooler.Sending.{IsCounted, IsSettled}

module _ {C : Type 0} where
  -- The counters are the sizes of the queue and of the vector.
  abbrev pub IsTallied : DbPooler C → Type 0
  IsTallied pool = IsCounted pool × (pool.connected_count ≡ length pool.connected_conns)

  -- The callback of `connectDb` keeps both counters, and it makes the pool ready where the last of
  -- `pool_size` connections is established.
  pub on_connected_tallies :
      (c : ℕ) (pool : DbPooler C)
      → IsTallied pool
      → IsTallied (on_connected c pool)
        × ((on_connected c pool).is_ready ≡ (
            if (pool.heap c).is_error
            then pool.is_ready
            else pool.is_ready || suc pool.connected_count == pool.pool_size))
  unfolding on_connected
  on_connected_tallies c pool h =
      let both : IsTallied (record pool {
        connected_conns = pool.connected_conns ++ c ∷ [];
        available_conns = pool.available_conns ++ c ∷ [];
        connected_count = suc pool.connected_count;
        idle_count = suc pool.idle_count;
      }) =
        (
          omega (arith, h.0, length-append pool.available_conns (c ∷ [])),
          omega (arith, h.1, length-append pool.connected_conns (c ∷ [])),
        ) in
      (
        if_cases IsTallied (pool.heap c).is_error _ _ (λ _. h)
            (λ _.
              if_cases IsTallied (suc pool.connected_count == pool.pool_size) _ _ (λ _. both)
                (λ _. both)),
        ground arith,
      )

  on_connected_fine :
      (c : ℕ) (pool : DbPooler C)
      → (pool.heap c).is_error ≡ false
      → let r = on_connected c pool in
        (r.pending_queries ≡ pool.pending_queries) × (r.idle_count ≡ suc pool.idle_count)
  unfolding on_connected
  on_connected_fine c pool fine = rw fine (
      if_cases
        (λ (r : DbPooler C).
          (r.pending_queries ≡ pool.pending_queries) × (r.idle_count ≡ suc pool.idle_count))
        (suc pool.connected_count == pool.pool_size) _ _ (λ _. (refl, refl)) (λ _. (refl, refl)))

  -- A query that waits when a connection is established goes on waiting, beside an idle connection:
  -- the callback of `connectDb` does not look at the pending queries.
  pub on_connected_strands :
      (c : ℕ) (pool : DbPooler C) (q : PendingQuery C) (qs : List (PendingQuery C))
      → pool.pending_queries ≡ q ∷ qs
      → (pool.heap c).is_error ≡ false
      → ¬ IsSettled (on_connected c pool)
  on_connected_strands c pool q qs e fine = λ settled. elim settled [
    | inl none_waits ↦
        let clash : (q ∷ qs) ≡ [] = sym ((on_connected_fine c pool fine).0 ∙ e) ∙ none_waits in cc
    | inr busy ↦ absurd (omega (arith, busy, (on_connected_fine c pool fine).1))
  ]

  -- No connection is established, and no query waits.
  abbrev pub IsUntouched : DbPooler C → Type 0
  IsUntouched pool =
      IsTallied pool
      × (pool.connected_count ≡ 0)
      × (pool.idle_count ≡ 0)
      × (pool.pending_queries ≡ [])

  start_one-IsUntouched :
      (started : Bool) (fd : ℤ) (i : ℕ) (pool : DbPooler C)
      → IsUntouched pool
      → IsUntouched (start_one started fd i pool)
  unfolding start_one connect_db at_address on_connected
  start_one-IsUntouched true fd i pool h = h
  start_one-IsUntouched false fd i pool h =
      let same : (i =? i) ≡ true = (nat_key.same_iff i i).1 refl in rw same h

  start_from-IsUntouched :
      (started : ℕ → Bool) (fd : ℕ → ℤ) (n i : ℕ) (pool : DbPooler C)
      → IsUntouched pool
      → IsUntouched (start_from started fd n i pool)
  unfolding start_from
  start_from-IsUntouched started fd zero i pool h = h
  start_from-IsUntouched started fd (suc n) i pool h =
      start_from-IsUntouched started fd n (suc i) (start_one (started i) (fd i) i pool)
        (start_one-IsUntouched (started i) (fd i) i pool h)

  -- After the constructor no connection is established and none is idle, the counters are right, and
  -- no query waits, whichever calls of `PQconnectStart` fail.
  pub new_pool-IsUntouched :
      (started : ℕ → Bool) (fd : ℕ → ℤ) (size : ℕ) → IsUntouched (new_pool {C = C} started fd size)
  unfolding new_pool empty_pool
  new_pool-IsUntouched started fd size =
      start_from-IsUntouched started fd size 0 (empty_pool size) ((refl, refl), refl, refl, refl)
