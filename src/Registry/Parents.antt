-- ===== src/Registry/Parents.antt =====
-- `getParent` against the clients that are not deleted.
use asynchronous_http_web_se.Base.{
  ℕ, List, ◌≡◌, ◌≢◌, ◌↔◌, sym, ap, subst, ◌∙◌, none, some, Option-cases, inl, inr, Bool-cases,
  arith, Bytes, bytes_eq_iff, bytes_key, nat_key, ◌=?◌, if◌then◌else◌,
}
use asynchronous_http_web_se.StdMap.{find}
use asynchronous_http_web_se.StdMap.Laws.{
  IsKeyed, find-assign, find-erase, assign-IsKeyed, erase-IsKeyed,
}
use asynchronous_http_web_se.Registry.{
  ClientObject, World, start, put, create, unregister, destroy, get_parent,
}

-- The worlds that constructors and destructors lead to. `new` gives an address where no object
-- stands, and `Fresh` is what is asked of the id of a new object.
pub data Reached (Fresh : World → Bytes → Type 0) : World → Type 0 where
  starts : Reached Fresh start
  creates :
      {w : World} (address : ℕ) (o : ClientObject)
      → Reached Fresh w
      → w.objects address ≡ none
      → Fresh w o.connection_id
      → Reached Fresh (create address o w)
  destroys : {w : World} (address : ℕ) → Reached Fresh w → Reached Fresh (destroy address w)

-- An object that is not deleted, with this id.
abbrev pub LivesAt : World → Bytes → ℕ → Type 0
LivesAt w id address = (o : ClientObject) × (w.objects address ≡ some o) × (o.connection_id ≡ id)

-- No object that is not deleted has this id.
abbrev pub IsUnused : World → Bytes → Type 0
IsUnused w id = (address : ℕ) (o : ClientObject) → w.objects address ≡ some o → o.connection_id ≢ id

find-unregister :
    (id j : Bytes) (m : List (Bytes × ℕ))
    → IsKeyed m
    → find j (unregister id m) ≡ (if id =? j then none else find j m)
unfolding unregister
find-unregister id j m h = elim (Option-cases (find id m)) [
  | inl e ↦ rw (e, unregister) (ground (arith, e, bytes_eq_iff id j))
  | inr (a, e) ↦ rw (e, unregister) (find-erase id j m h)
]

unregister-IsKeyed : (id : Bytes) (m : List (Bytes × ℕ)) → IsKeyed m → IsKeyed (unregister id m)
unfolding unregister
unregister-IsKeyed id m h = ground (arith, erase-IsKeyed id m h)

pub record IsSound (w : World) : Type 0 where
  pub keyed : IsKeyed w.is_alive
  pub lives : (id : Bytes) (a : ℕ) → find id w.is_alive ≡ some a → LivesAt w id a

pub start-IsSound : IsSound start
unfolding start find
start-IsSound = record { keyed = tt; lives = λ id a e. cc }

pub create-IsSound :
    (address : ℕ) (o : ClientObject) (w : World)
    → w.objects address ≡ none
    → IsSound w
    → IsSound (create address o w)
unfolding create put
create-IsSound address o w free h = record {
  keyed = assign-IsKeyed o.connection_id address w.is_alive h.keyed;
  lives = λ id a e.
      let found = sym (find-assign o.connection_id id address w.is_alive) ∙ e in
      elim (Bool-cases (o.connection_id =? id)) [
        | inl same ↦
            let here : address ≡ a = ground (arith, found, same) in
            (o, ground (arith, here), (bytes_eq_iff o.connection_id id).0 same)
        | inr other ↦
            let (o', at_a, is_id) = h.lives id a (ground (arith, found, other)) in
            (o', ground (arith, at_a, free), is_id)
      ];
}

pub destroy-IsSound : (address : ℕ) (w : World) → IsSound w → IsSound (destroy address w)
unfolding destroy put
destroy-IsSound address w h = elim (Option-cases (w.objects address)) [
  | inl e ↦ rw (e, destroy) h
  | inr (o, e) ↦
      rw (e, destroy)
        (record {
          keyed = unregister-IsKeyed o.connection_id w.is_alive h.keyed;
          lives = λ id a found.
              let still = sym (find-unregister o.connection_id id w.is_alive h.keyed) ∙ found in
              let (o', at_a, is_id) = h.lives id a (ground (arith, still)) in
              (o', ground (arith, at_a, e, still, bytes_eq_iff o.connection_id id, is_id), is_id);
        })
]

Reached-IsSound : {Fresh : World → Bytes → Type 0} {w : World} → Reached Fresh w → IsSound w
Reached-IsSound starts = start-IsSound
Reached-IsSound (creates {w} address o r free fresh) =
    create-IsSound address o w free (Reached-IsSound r)
Reached-IsSound (destroys {w} address r) = destroy-IsSound address w (Reached-IsSound r)

pub Reached-lives :
    {Fresh : World → Bytes → Type 0} (w : World) (id : Bytes) (a : ℕ)
    → Reached Fresh w
    → get_parent id w ≡ some a
    → LivesAt w id a
unfolding get_parent
Reached-lives w id a r e = (Reached-IsSound r).lives id a e

-- Whatever constructors and destructors have run, in any order, and even where two clients got the
-- same id: the client that `getParent` gives is not deleted, and it has the id that was asked for.
pub get_parent_lives :
    (w : World) (parent : Bytes) (address : ℕ)
    → Reached (λ _ _. Unit {0}) w
    → get_parent parent w ≡ some address
    → LivesAt w parent address
get_parent_lives w parent address r e = Reached-lives w parent address r e

IsComplete : World → Type 0
IsComplete w =
    (a : ℕ) (o : ClientObject) → w.objects a ≡ some o → find o.connection_id w.is_alive ≡ some a

create-IsComplete :
    (address : ℕ) (o : ClientObject) (w : World)
    → IsUnused w o.connection_id
    → IsComplete w
    → IsComplete (create address o w)
unfolding create put IsComplete
create-IsComplete address o w unused h a o' e =
    find-assign o.connection_id o'.connection_id address w.is_alive
    ∙ elim (Bool-cases (address =? a)) [
      | inl here ↦
          let same : o ≡ o' = ground (arith, e, here) in
          ground (
            arith,
            here,
            ap (λ (c : ClientObject). c.connection_id) same,
            bytes_eq_iff o.connection_id o'.connection_id,
          )
      | inr there ↦
          let old : w.objects a ≡ some o' = ground (arith, e, there) in
          ground (arith, h a o' old, unused a o' old, bytes_eq_iff o.connection_id o'.connection_id)
    ]

destroy-IsComplete :
    (address : ℕ) (w : World) → IsSound w → IsComplete w → IsComplete (destroy address w)
unfolding destroy put IsComplete
destroy-IsComplete address w sound h = elim (Option-cases (w.objects address)) [
  | inl e ↦ rw (e, destroy) h
  | inr (o, e) ↦
      rw (e, destroy)
        (λ a o' at_a.
          find-unregister o.connection_id o'.connection_id w.is_alive sound.keyed
          ∙ ground (
            arith,
            at_a,
            h address o e,
            h a o' (ground (arith, at_a)),
            bytes_eq_iff o.connection_id o'.connection_id,
          ))
]

Reached-IsComplete : {w : World} → Reached IsUnused w → IsComplete w
unfolding IsComplete start
Reached-IsComplete starts = λ a o e. cc
Reached-IsComplete (creates {w} address o r free fresh) =
    create-IsComplete address o w fresh (Reached-IsComplete r)
Reached-IsComplete (destroys {w} address r) =
    destroy-IsComplete address w (Reached-IsSound r) (Reached-IsComplete r)

-- Where every new client gets an id that no other client has at the time, `getParent` gives the
-- client with the id that was asked for exactly when there is one that is not deleted.
pub get_parent_iff :
    (w : World) (parent : Bytes) (address : ℕ)
    → Reached IsUnused w
    → (get_parent parent w ≡ some address) ↔ LivesAt w parent address
unfolding get_parent IsComplete
get_parent_iff w parent address r = (
  (Reached-IsSound r).lives parent address,
  λ (o, at_a, is_id).
      subst (λ id. find id w.is_alive ≡ some address) is_id (Reached-IsComplete r address o at_a),
)
