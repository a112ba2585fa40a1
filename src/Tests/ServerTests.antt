-- ===== src/Tests/ServerTests.antt =====
-- The listening server on concrete inputs.
use asynchronous_http_web_se.Base.{
  ℕ, ◌≡◌, Bool, true, false, List, Option, some, none, [], ◌∷◌, pos, Bytes, text,
}
use asynchronous_http_web_se.Sockets.{System, AddrInfo, SocketAnswers, BindAnswers, af_inet}
use asynchronous_http_web_se.Server.{new_server}
use asynchronous_http_web_se.Server.Accepting.{Constructed, new_server_unchecked}

abbrev one_open : System
one_open = record { open_fds = pos 3 ∷ []; allocated = 0; listening = [] }

-- An IPv6 address, and then the IPv4 address 0.0.0.0.
abbrev any_address : List AddrInfo
any_address =
    record { ai_family = 10; ai_addr = 0 ∷ 0 ∷ []; ai_canonname = none }
    ∷ record { ai_family = af_inet; ai_addr = 0 ∷ 0 ∷ 0 ∷ 0 ∷ []; ai_canonname = none }
    ∷ []

abbrev resolves : ℕ → Bool → Option Bytes → Bytes → Option (List AddrInfo)
resolves family passive address port = some any_address

abbrev socket_answers : SocketAnswers
socket_answers = record { new_fd = some 4; reuse_set = true; nonblocking_set = true }

abbrev all_succeed : BindAnswers
all_succeed = record { bound = true; listens = true }

abbrev port_in_use : BindAnswers
port_in_use = record { bound = false; listens = false }

new_server_unchecked_example :
    let made = new_server resolves socket_answers all_succeed (text "a") (text "x") one_open in
    (made ≡ new_server resolves socket_answers all_succeed (text "b") (text "x") one_open)
    × (made.0 ≡ (new_server resolves socket_answers port_in_use (text "a") (text "x") one_open).0)
    × Constructed socket_answers all_succeed (some any_address) one_open made
new_server_unchecked_example =
    new_server_unchecked resolves socket_answers all_succeed port_in_use (text "a") (text "b")
      (text "x") one_open
