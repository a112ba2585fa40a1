-- ===== src/Pooler/Deleting.antt =====
-- The destructor of the pool.
use asynchronous_http_web_se.Base.{
  ℕ, zero, suc, ◌≡◌, refl, subst, leb, List, [], ◌∷◌, ◌++◌, append_assoc, none, some, get_elem?,
  length, length-append, take, arith, if◌then◌else◌,
}
use asynchronous_http_web_se.Pooler.{DbPooler, delete_from, delete_pool}

get_elem?-append-nil : (pre : List ℕ) → get_elem? (pre ++ []) (length pre) ≡ none
get_elem?-append-nil [] = refl
get_elem?-append-nil (y ∷ pre) = get_elem?-append-nil pre

get_elem?-append :
    (pre : List ℕ) (x : ℕ) (xs : List ℕ) → get_elem? (pre ++ (x ∷ xs)) (length pre) ≡ some x
get_elem?-append [] x xs = refl
get_elem?-append (y ∷ pre) x xs = get_elem?-append pre x xs

delete_from_split :
    (n : ℕ) (pre xs : List ℕ)
    → delete_from (pre ++ xs) n (length pre)
      ≡ (if leb n (length xs) then some (take n xs) else none)
unfolding delete_from
delete_from_split zero pre xs = ground arith
delete_from_split (suc n) pre [] = rw (get_elem?-append-nil pre, delete_from) (ground arith)
delete_from_split (suc n) pre (x ∷ xs) =
    let later : delete_from (pre ++ (x ∷ xs)) n (suc (length pre))
        ≡ (if leb n (length xs) then some (take n xs) else none) =
      subst
        (λ (k : ℕ).
          delete_from (pre ++ (x ∷ xs)) n k
          ≡ (if leb n (length xs) then some (take n xs) else none))
        {x = length (pre ++ (x ∷ []))} {y = suc (length pre)}
        (omega (arith, length-append pre (x ∷ [])))
        (subst
          (λ (all : List ℕ).
            delete_from all n (length (pre ++ (x ∷ [])))
            ≡ (if leb n (length xs) then some (take n xs) else none))
          (append_assoc pre (x ∷ []) xs) (delete_from_split n (pre ++ (x ∷ [])) xs)) in
    rw (get_elem?-append pre x xs, delete_from) (ground (arith, later))

-- The destructor reads past the end of `connected_conns` exactly where fewer than `pool_size`
-- connections were established; otherwise it deletes the first `pool_size` of them.
pub delete_pool_bounds :
    {C : Type 0} (pool : DbPooler C)
    → delete_pool pool ≡ (
        if leb pool.pool_size (length pool.connected_conns)
        then some (take pool.pool_size pool.connected_conns)
        else none)
unfolding delete_pool
delete_pool_bounds pool = delete_from_split pool.pool_size [] pool.connected_conns
