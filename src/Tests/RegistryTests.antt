-- ===== src/Tests/RegistryTests.antt =====
-- The registry of clients on concrete inputs.
use asynchronous_http_web_se.Base.{◌≡◌, refl, ◌↔◌, some, [], ◌∷◌, pos, text}
use asynchronous_http_web_se.Registry.{
  ClientObject, World, start, put, create, destroy, get_parent, unregister,
}
use asynchronous_http_web_se.Registry.Parents.{
  starts, creates, destroys, LivesAt, IsUnused, get_parent_lives, get_parent_iff,
}
use asynchronous_http_web_se.Db.{DbConnection, new_db}
use asynchronous_http_web_se.StdMap.{find, assign, erase}

abbrev first_client : ClientObject
first_client = record { connection_id = 1 ∷ []; socket = pos 5 }

abbrev second_client : ClientObject
second_client = record { connection_id = 2 ∷ []; socket = pos 6 }

abbrev both : World
both = create 200 second_client (create 100 first_client start)

get_parent_lives_example : LivesAt (destroy 100 both) (2 ∷ []) 200
unfolding start put create destroy get_parent unregister find assign erase
get_parent_lives_example =
    get_parent_lives (destroy 100 both) (2 ∷ []) 200
      (destroys 100 (creates 200 second_client (creates 100 first_client starts refl tt) refl tt))
      refl

IsUnused-at_start : IsUnused start (1 ∷ [])
unfolding start
IsUnused-at_start = λ a o e. cc

get_parent_iff_example :
    (get_parent (1 ∷ []) (create 100 first_client start) ≡ some 100)
    ↔ LivesAt (create 100 first_client start) (1 ∷ []) 100
unfolding start
get_parent_iff_example =
    get_parent_iff (create 100 first_client start) (1 ∷ []) 100
      (creates 100 first_client starts refl IsUnused-at_start)

abbrev uuid_client : ClientObject
uuid_client = record { connection_id = text "0123456789abcdef"; socket = pos 7 }

abbrev queried : DbConnection
queried = new_db (text "0123456789abcdef") (pos 8)
