-- ===== src/Tests/ReactorTests.antt =====
-- The reactor and its maps on concrete inputs.
use asynchronous_http_web_se.Base.{◌≡◌, refl, none, some, pos, ℕ, suc, List, [], ◌∷◌, int_key}
use asynchronous_http_web_se.Epoll.{EpollEvent, epollin, read_mask, write_mask}
use asynchronous_http_web_se.Reactor.{
  Tracker, new_reactor, async_accept, add_track, modify_track, listen_sock, new_sock, helper_sock,
  remove_track, reactor_run, Wait, ready, wait_failed, enqueue,
}
use asynchronous_http_web_se.Reactor.Tracking.{IsTracked, remove_track-IsTracked}
use asynchronous_http_web_se.Reactor.Running.{reactor_run_result, Answers}
use asynchronous_http_web_se.Reactor.Queue.{enqueue_serves_all_in_order, IsOrdered, ranked}
use asynchronous_http_web_se.Reactor.Steps.{Reached, starts, accepts, adds, modifies}
use asynchronous_http_web_se.Reactor.Registering.{last_priority}
use asynchronous_http_web_se.Tests.Kernel.{
  Watched, watch, kernel, kernel_laws, socket5, watching, watching-IsTracked,
}
use mathlib.Core.List.{Perm, map}

-- A callback that takes its own socket out of the reactor and counts.
abbrev close_and_count : ℕ → EpollEvent → Tracker Watched ℕ × ℕ → Tracker Watched ℕ × ℕ
close_and_count cb ev (t, n) = ((remove_track kernel t ev.fd).0, suc n)

abbrev on_socket5 : EpollEvent
on_socket5 = record { events = epollin; fd = socket5 }

abbrev one_batch : List Wait
one_batch = ready (on_socket5 ∷ on_socket5 ∷ []) ∷ wait_failed ∷ []

reactor_run_result_example :
    let r = reactor_run close_and_count one_batch [] (watching, 0) in
    IsTracked kernel r.0.0 × Answers kernel one_batch r.0.0.epoll r.1
reactor_run_result_example =
    reactor_run_result close_and_count kernel
      (λ cb ev s e h. remove_track-IsTracked kernel kernel_laws s.0 ev.fd h) one_batch []
      (watching, 0) watching-IsTracked

-- Socket 4 listens, socket 5 is a helper, then a new socket, and a refused registration leaves it so.
abbrev two_sockets : Tracker Watched ℕ
two_sockets =
    let t1 = (async_accept kernel (new_reactor (λ _. none)).tracker (pos 4) 1).0 in
    let t2 = (add_track kernel t1 socket5 write_mask helper_sock 2).0 in
    let t3 = (modify_track kernel t2 socket5 read_mask new_sock 3).0 in
    (add_track kernel t3 socket5 write_mask helper_sock 4).0

abbrev five_steps : Reached kernel (λ _. none) two_sockets
five_steps = adds socket5 write_mask helper_sock 4 (
    modifies socket5 read_mask new_sock 3
      (adds socket5 write_mask helper_sock 2 (accepts (pos 4) 1 starts)))

abbrev on_socket4 : EpollEvent
on_socket4 = record { events = epollin; fd = pos 4 }

enqueue_serves_all_in_order_example :
    let q = enqueue two_sockets (on_socket4 ∷ on_socket5 ∷ []) [] in
    IsOrdered q × Perm q (map (ranked five_steps) (on_socket4 ∷ on_socket5 ∷ []))
enqueue_serves_all_in_order_example =
    enqueue_serves_all_in_order kernel kernel_laws (λ _. none) (λ j. refl) five_steps
      (on_socket4 ∷ on_socket5 ∷ [])

-- The priorities are those of the calls.
priorities_of_five_steps :
    (last_priority five_steps (pos 4) ≡ some listen_sock)
    × (last_priority five_steps socket5 ≡ some new_sock)
unfolding last_priority async_accept add_track modify_track new_reactor watch
priorities_of_five_steps = (refl, refl)
