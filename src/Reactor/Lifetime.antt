-- ===== src/Reactor/Lifetime.antt =====
-- The constructor and the destructor of `IOReactor` against the descriptors and the memory.
use asynchronous_http_web_se.Base.{ℕ, ◌+◌, ◌-◌, ◌≡◌, refl, Option, none, some, ℤ, arith}
use asynchronous_http_web_se.Sockets.{System, get_epoll_instance}
use asynchronous_http_web_se.Sockets.Leaks.{opened, fd_or_error}

-- The constructor: the descriptor `epollfd_`, and the block of `events_`.
unfoldable pub open_reactor : Option ℕ → System → ℤ × System
unfolding get_epoll_instance
open_reactor created s =
    let (epollfd, s') = get_epoll_instance created s in
    (epollfd, record s' { allocated = s'.allocated + 1 })

-- The destructor.
unfoldable pub close_reactor : System → System
close_reactor s = record s { allocated = s.allocated - 1 }

-- A reactor takes its epoll instance, or -1 where there is none, and the destructor frees what the
-- constructor allocated; but the descriptor of the epoll instance stays open for ever.
pub close_reactor_leaks_epoll :
    (created : Option ℕ) (s : System)
    → let r = open_reactor created s in
      (r.0 ≡ fd_or_error created)
      × ((close_reactor r.1).allocated ≡ s.allocated)
      × ((close_reactor r.1).open_fds ≡ opened created s.open_fds)
unfolding open_reactor close_reactor get_epoll_instance
close_reactor_leaks_epoll none s = (refl, omega arith, refl)
close_reactor_leaks_epoll (some n) s = (refl, omega arith, refl)
