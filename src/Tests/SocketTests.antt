-- ===== src/Tests/SocketTests.antt =====
-- The functions that open sockets on concrete inputs.
use asynchronous_http_web_se.Base.{
  refl, Bool, true, [], ◌∷◌, List, Option, some, none, pos, ℕ, Bytes, text,
}
use asynchronous_http_web_se.Sockets.{
  System, AddrInfo, SocketAnswers, connect_pending, af_inet, choose_endpoint, create_connection,
}
use asynchronous_http_web_se.Sockets.Leaks.{Leaves, create_connection_leaks}

abbrev before : System
before = record { open_fds = pos 3 ∷ []; allocated = 7; listening = [] }

abbrev localhost : List AddrInfo
localhost = record { ai_family = af_inet; ai_addr = 127 ∷ 0 ∷ 0 ∷ 1 ∷ []; ai_canonname = none } ∷ []

abbrev resolves : ℕ → Bool → Option Bytes → Bytes → Option (List AddrInfo)
resolves family passive address port = some localhost

abbrev fd_five : SocketAnswers
fd_five = record { new_fd = some 5; reuse_set = true; nonblocking_set = true }

create_connection_leaks_example :
    Leaves fd_five connect_pending (choose_endpoint af_inet localhost) before (
      create_connection resolves fd_five connect_pending af_inet
        (text "localhost")
        (text "80")
        before)
create_connection_leaks_example =
    create_connection_leaks resolves fd_five connect_pending af_inet (text "localhost") (text "80")
      before localhost refl
