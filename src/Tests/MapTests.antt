-- ===== src/Tests/MapTests.antt =====
-- The map and the reactor's registrations over sequences of calls.
use asynchronous_http_web_se.Base.{
  ℕ, ◌≡◌, ◌↔◌, refl, List, [], ◌∷◌, none, some, true, false, ℤ, pos, int_key,
}
use asynchronous_http_web_se.SafeMap.{empty, insert, remove, get, get_size}
use asynchronous_http_web_se.StdMap.{assign, find, erase}
use asynchronous_http_web_se.SafeMap.Refinement.{
  Operation, inserts, removes, gets, sizes, done, removed, found, counted, answers, perform,
  promises, answers_refine,
}
use asynchronous_http_web_se.Epoll.{read_mask, write_mask}
use asynchronous_http_web_se.Reactor.{
  Tracker, new_reactor, add_track, modify_track, remove_track, helper_sock, new_sock,
}
use asynchronous_http_web_se.Reactor.Tracking.{IsTracked}
use asynchronous_http_web_se.Reactor.Steps.{starts, adds, modifies, removes, tracking_in_step}
use asynchronous_http_web_se.Tests.Kernel.{Watched, kernel, kernel_laws, socket5}

abbrev five_calls : List (Operation ℤ ℕ)
five_calls =
    inserts (pos 5) 1
    ∷ inserts (pos 5) 2
    ∷ gets (pos 5)
    ∷ removes (pos 6)
    ∷ removes (pos 5)
    ∷ sizes
    ∷ []

answers_refine_example :
    answers five_calls empty ≡ promises five_calls (record { value = λ _. none; size = 0 })
answers_refine_example = answers_refine five_calls

answers_to_five_calls :
    answers five_calls empty
    ≡ done ∷ done ∷ found (some 2) ∷ removed false ∷ removed true ∷ counted 0 ∷ []
unfolding answers perform insert remove get get_size empty assign find erase
answers_to_five_calls = refl

-- A socket that is registered twice, which the kernel refuses, then changed, then taken out.
abbrev registered_twice : Tracker Watched ℕ
registered_twice =
    let t = (new_reactor (λ _. none)).tracker in
    let t1 = (add_track kernel t socket5 write_mask helper_sock 7).0 in
    let t2 = (add_track kernel t1 socket5 read_mask new_sock 8).0 in
    let t3 = (modify_track kernel t2 socket5 read_mask new_sock 9).0 in
    (remove_track kernel t3 socket5).0

tracking_in_step_example :
    IsTracked kernel registered_twice
    × ((get_size registered_twice.event_callback ≡ 0)
        ↔ ((j : ℤ) → kernel.interest registered_twice.epoll j ≡ none))
tracking_in_step_example =
    tracking_in_step kernel kernel_laws (λ _. none) (λ j. refl) registered_twice
      (removes socket5 (
        modifies socket5 read_mask new_sock 9
          (adds socket5 read_mask new_sock 8 (adds socket5 write_mask helper_sock 7 starts))))
