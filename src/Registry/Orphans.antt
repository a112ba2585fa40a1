-- ===== src/Registry/Orphans.antt =====
-- `getParent` of a database connection that was reset, as it is when it goes back to the pool.
use asynchronous_http_web_se.Base.{
  ℕ, ◌≡◌, ap, none, some, Option-cases, inl, inr, arith, Bytes, text, length, nat_key,
}
use asynchronous_http_web_se.Db.{DbConnection, reset_connection}
use asynchronous_http_web_se.Registry.{
  ClientObject, World, start, put, create, destroy, db_parent, get_parent,
}
use asynchronous_http_web_se.Registry.Parents.{Reached, starts, creates, destroys, Reached-lives}

-- The ids are the 16 bytes of a UUID.
abbrev pub IsUuid : World → Bytes → Type 0
IsUuid w id = length id ≡ 16

Reached-IsUuid :
    {w : World} (a : ℕ) (o : ClientObject)
    → Reached IsUuid w
    → w.objects a ≡ some o
    → length o.connection_id ≡ 16
unfolding start create destroy put
Reached-IsUuid a o starts e = cc
Reached-IsUuid a o (creates {w} address o' r free fresh) e =
    ground (arith, e, fresh, Reached-IsUuid {w = w} a o r)
Reached-IsUuid a o (destroys {w} address r) e = elim (Option-cases (w.objects address)) [
  | inl f ↦ Reached-IsUuid {w = w} a o r (rw (f, destroy) at e)
  | inr (o', f) ↦ Reached-IsUuid {w = w} a o r (ground (arith, rw (f, destroy) at e))
]

-- After `resetConnection` a database connection has no parent, whichever clients there are, since
-- the id `#` is not one of a client.
pub reset_connection_has_no_parent :
    (conn : DbConnection) (w : World)
    → Reached IsUuid w
    → db_parent (reset_connection conn) w ≡ none
unfolding db_parent get_parent reset_connection
reset_connection_has_no_parent conn w r = elim (Option-cases (get_parent (text "#") w)) [
  | inl e ↦ e
  | inr (a, e) ↦
      let (o, at_a, is_id) = Reached-lives w (text "#") a r e in
      absurd (omega (arith, Reached-IsUuid a o r at_a, ap length is_id))
]
