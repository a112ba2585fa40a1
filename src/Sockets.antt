-- ===== src/Sockets.antt =====
-- The functions of include/socket_utilities.h that open sockets. What the system calls answer is an
-- argument; the state has the descriptors that are open, how many blocks are allocated, and the sockets
-- that listen.
pub mod Leaks
use asynchronous_http_web_se.Base.{
  ℕ, suc, nat_key, ◌&&◌, ◌+◌, ◌-◌, List, [], ◌∷◌, Bool, true, false, not, Option, none, some, ℤ,
  pos, int_key, ◌=?◌, minus_one, Bytes, take, if◌then◌else◌,
}
use asynchronous_http_web_se.StdMap.{erase}

-- A `listen` that succeeded, with the address that its socket was bound to.
pub record Listening : Type 0 where
  pub sockfd : ℤ
  pub ai_addr : Option Bytes
  pub backlog : ℕ

pub record System : Type 0 where
  pub open_fds : List ℤ
  pub allocated : ℕ
  pub listening : List Listening

-- `getEpollInstance`, given what `epoll_create1` answers; `none` is -1.
unfoldable pub get_epoll_instance : Option ℕ → System → ℤ × System
get_epoll_instance created s = elim created [
  | none ↦ (minus_one, s)
  | some n ↦ (pos n, record s { open_fds = pos n ∷ s.open_fds })
]

-- An entry of the list of `getaddrinfo`, of which `ai_socktype`, `ai_protocol` and `ai_flags` are
-- only handed on.
pub record AddrInfo : Type 0 where
  pub ai_family : ℕ
  pub ai_addr : Bytes
  pub ai_canonname : Option Bytes

-- `struct addrinfo *endpoint`: `ai_addr` and `ai_canonname` may be NULL.
pub record Endpoint : Type 0 where
  pub ai_family : ℕ
  pub ai_addr : Option Bytes
  pub ai_canonname : Option Bytes

-- `AF_INET`, and `sizeof(struct sockaddr)`
abbrev pub af_inet : ℕ
af_inet = 2

abbrev pub sockaddr_size : ℕ
sockaddr_size = 16

-- `new struct addrinfo()`
abbrev pub zero_endpoint : Endpoint
zero_endpoint = record { ai_family = 0; ai_addr = none; ai_canonname = none }

-- The `for` loop: the first entry of the family is copied, and of its address the first bytes.
unfoldable pub choose_endpoint : ℕ → List AddrInfo → Endpoint
choose_endpoint address_family [] = zero_endpoint
choose_endpoint address_family (server_info ∷ more) =
    if server_info.ai_family =? address_family
    then record {
      ai_family = server_info.ai_family;
      ai_addr = some (take sockaddr_size server_info.ai_addr);
      ai_canonname = server_info.ai_canonname;
    }
    else choose_endpoint address_family more

-- The blocks of an endpoint: itself, and what its pointers are set to.
unfoldable pub blocks : Endpoint → ℕ
blocks e =
    1 + elim e.ai_addr [ none ↦ 0 | some _ ↦ 1 ] + elim e.ai_canonname [ none ↦ 0 | some _ ↦ 1 ]

-- `resolve` is `getaddrinfo`: of the family, AI_PASSIVE, the address or NULL, and the port.
module _ (resolve : ℕ → Bool → Option Bytes → Bytes → Option (List AddrInfo)) where
  unfoldable pub get_endpoint : ℕ → Bool → Bytes → Bytes → System → Option Endpoint × System
  unfolding choose_endpoint blocks
  get_endpoint address_family will_listen address port s =
      let asked = if will_listen then none else some address in
      elim (resolve address_family will_listen asked port) [
        | none ↦ (none, s)
        | some servlist ↦
            let endpoint = choose_endpoint address_family servlist in
            (some endpoint, record s { allocated = s.allocated + blocks endpoint })
      ]

-- What `socket`, `setsockopt` and `fcntl` answer; `none` is -1.
pub record SocketAnswers : Type 0 where
  pub new_fd : Option ℕ
  pub reuse_set : Bool
  pub nonblocking_set : Bool

unfoldable pub get_socket : SocketAnswers → Bool → Bool → System → ℤ × System
get_socket a will_reuse will_block s = elim a.new_fd [
  | none ↦ (minus_one, s)
  | some n ↦
      let s' = record s { open_fds = pos n ∷ s.open_fds } in
      if will_reuse && not a.reuse_set
      then (minus_one, s')
      else if not will_block && not a.nonblocking_set
      then (minus_one, s')
      else (pos n, s')
]

-- Whether `bind` and `listen` succeed.
pub record BindAnswers : Type 0 where
  pub bound : Bool
  pub listens : Bool

unfoldable pub bind_and_listen : BindAnswers → ℤ → Endpoint → ℕ → System → ℤ × System
bind_and_listen b sockfd endpoint backlog s =
    if not b.bound then (minus_one, s) else if not b.listens then (minus_one, s) else (
      pos 0,
      record s {
        listening =
            record { sockfd = sockfd; ai_addr = endpoint.ai_addr; backlog = backlog } ∷ s.listening;
      },
    )

-- What `accept` gives, whether `fcntl` succeeds, and whether the family is a known one.
pub record AcceptAnswers : Type 0 where
  pub accepted : Option ℕ
  pub nonblocking_set : Bool
  pub known_family : Bool

-- `close`: the descriptor is not open any more.
unfoldable pub close_fd : ℤ → List ℤ → List ℤ
close_fd fd [] = []
close_fd fd (g ∷ fds) = if fd =? g then fds else g ∷ close_fd fd fds

unfoldable pub accept_connection : AcceptAnswers → System → ℤ × System
unfolding close_fd
accept_connection a s = elim a.accepted [
  | none ↦ (minus_one, s)
  | some n ↦
      let s' = record s { open_fds = pos n ∷ s.open_fds } in
      if not a.nonblocking_set
      then (minus_one, s')
      else if a.known_family
      then (pos n, s')
      else (pos n, record s' { open_fds = close_fd (pos n) s'.open_fds })
]

-- `connect`: it succeeds, or its error is EINPROGRESS or EAGAIN, or it is another one.
pub data Connect : Type 0 where
  connect_done connect_pending connect_failed : Connect

-- `deletes` of the three blocks.
unfoldable pub free_endpoint : Endpoint → System → System
unfolding blocks
free_endpoint e s = record s { allocated = s.allocated - blocks e }

-- The end of `createConnection`, from `connect` on.
unfoldable pub after_connect : Connect → Endpoint → ℤ → System → ℤ × System
unfolding free_endpoint
after_connect connect_done e sockfd s = (sockfd, free_endpoint e s)
after_connect connect_pending e sockfd s = (sockfd, s)
after_connect connect_failed e sockfd s = (minus_one, s)

-- The rest of `createConnection`, from `getSocket` on.
unfoldable pub connect_to : SocketAnswers → Connect → Endpoint → System → ℤ × System
unfolding get_socket after_connect
connect_to a connect endpoint s =
    let (sockfd, s') = get_socket a false false s in
    if sockfd =? minus_one then (minus_one, s') else after_connect connect endpoint sockfd s'

unfoldable pub create_connection :
    (ℕ → Bool → Option Bytes → Bytes → Option (List AddrInfo))
    → SocketAnswers
    → Connect
    → ℕ
    → Bytes
    → Bytes
    → System
    → ℤ × System
unfolding get_endpoint connect_to
create_connection resolve a connect address_family address port s =
    let r = get_endpoint resolve address_family false address port s in
    elim r.0 [ none ↦ (minus_one, r.1) | some endpoint ↦ connect_to a connect endpoint r.1 ]

-- `closeConnection`: whether `close` succeeds.
unfoldable pub close_connection : Bool → ℤ → System → ℤ × System
unfolding close_fd
close_connection closed socketfd s =
    if closed then (pos 0, record s { open_fds = close_fd socketfd s.open_fds }) else (minus_one, s)
