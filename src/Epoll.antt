-- ===== src/Epoll.antt =====
-- The epoll values of include/socket_utilities.h and include/reactor.h: event masks, events, the
-- three `epoll_ctl` wrappers, and the kernel's interest list as an interface.
use Prim.Native.Nat.{bit_and, bit_or}
use asynchronous_http_web_se.Base.{
  ℕ, ◌^◌, ◌≡◌, ◌≢◌, Bool, not, Option, none, some, ◌==◌, ◌=?◌, ℤ, pos, int_key, minus_one,
  if◌then◌else◌,
}

-- The bits of <sys/epoll.h>.
abbrev pub epollin : ℕ
epollin = 1

abbrev pub epollout : ℕ
epollout = 4

abbrev pub epollerr : ℕ
epollerr = 8

abbrev pub epollhup : ℕ
epollhup = 16

abbrev pub epollet : ℕ
epollet = 2 ^ 31

-- `EPOLLIN | EPOLLET | EPOLLERR | EPOLLHUP` and `EPOLLOUT | EPOLLET | EPOLLERR | EPOLLHUP`
abbrev pub read_mask : ℕ
read_mask = bit_or (bit_or (bit_or epollin epollet) epollerr) epollhup

abbrev pub write_mask : ℕ
write_mask = bit_or (bit_or (bit_or epollout epollet) epollerr) epollhup

-- `ev.events & flag` as a condition
unfoldable pub has : ℕ → ℕ → Bool
has events flag = not (bit_and events flag == 0)

-- `struct epoll_event`, whose `data` the code sets and reads as `data.fd` only.
pub record EpollEvent : Type 0 where
  pub events : ℕ
  pub fd : ℤ

-- `epoll_ctl` on one epoll instance, for its three operations. `none` is the result -1, which
-- leaves the interest list as it was.
pub record Epoll (K : Type 0) : Type 0 where
  pub ctl_add : K → EpollEvent → Option K
  pub ctl_mod : K → EpollEvent → Option K
  pub ctl_del : K → ℤ → Option K
  pub interest : K → ℤ → Option ℕ

-- epoll_ctl(2): what a successful call leaves in the interest list; MOD needs an entry, and DEL
-- fails only where there is none.
pub record EpollLaws {K : Type 0} (sys : Epoll K) : Type 0 where
  pub add_some :
      (s t : K) (ev : EpollEvent) (j : ℤ)
      → sys.ctl_add s ev ≡ some t
      → sys.interest t j ≡ (if ev.fd =? j then some ev.events else sys.interest s j)
  pub mod_some :
      (s t : K) (ev : EpollEvent) (j : ℤ)
      → sys.ctl_mod s ev ≡ some t
      → sys.interest t j ≡ (if ev.fd =? j then some ev.events else sys.interest s j)
  pub mod_present :
      (s t : K) (ev : EpollEvent) → sys.ctl_mod s ev ≡ some t → sys.interest s ev.fd ≢ none
  pub del_some :
      (s t : K) (fd j : ℤ)
      → sys.ctl_del s fd ≡ some t
      → sys.interest t j ≡ (if fd =? j then none else sys.interest s j)
  pub del_none : (s : K) (fd : ℤ) → sys.ctl_del s fd ≡ none → sys.interest s fd ≡ none

module _ {K : Type 0} (sys : Epoll K) where
  -- A wrapper fills `ev_hint` and turns the result into 0 or -1.
  unfoldable pub add_epoll_interest : K → ℤ → ℕ → K × ℤ
  add_epoll_interest epollfd fd event_mask =
      elim (sys.ctl_add epollfd (record { events = event_mask; fd = fd })) [
        | none ↦ (epollfd, minus_one)
        | some k ↦ (k, pos 0)
      ]

  unfoldable pub modify_epoll_interest : K → ℤ → ℕ → K × ℤ
  modify_epoll_interest epollfd fd event_mask =
      elim (sys.ctl_mod epollfd (record { events = event_mask; fd = fd })) [
        | none ↦ (epollfd, minus_one)
        | some k ↦ (k, pos 0)
      ]

  unfoldable pub remove_epoll_interest : K → ℤ → K × ℤ
  remove_epoll_interest epollfd fd = elim (sys.ctl_del epollfd fd) [
    | none ↦ (epollfd, minus_one)
    | some k ↦ (k, pos 0)
  ]
