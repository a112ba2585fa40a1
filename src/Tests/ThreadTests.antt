-- ===== src/Tests/ThreadTests.antt =====
-- Two threads on one map of include/thread_safe_map.h: one inserts, and one waits for the mutex to
-- look.
use asynchronous_http_web_se.Base.{
  arith, ℕ, ◌≡◌, ◌≢◌, refl, [], ◌∷◌, ◌++◌, some, none, ℤ, pos, int_key, nat_key,
}
use mathlib.Core.List.{map}
use asynchronous_http_web_se.StdMap.{assign, find}
use asynchronous_http_web_se.SafeMap.{empty}
use asynchronous_http_web_se.SafeMap.Refinement.{Operation, inserts, gets, done, found, promises}
use asynchronous_http_web_se.SafeMap.Threads.{
  free, exclusive, lock_of, Phase, outside, waiting, entered, leaving, holds, Threads, update,
  assigns, looks, copies, calls, locks, moves, returns, Scheduled, begins, goes_on,
}
use asynchronous_http_web_se.SafeMap.Threads.Locking.{IsAlone}
use asynchronous_http_web_se.SafeMap.Threads.History.{op_of, answer_of, own, owed, after}
use asynchronous_http_web_se.SafeMap.Threads.Sequence.{calls_are_one_sequence}

abbrev insert_one : Operation ℤ ℕ
insert_one = inserts (pos 5) 1

abbrev look : Operation ℤ ℕ
look = gets (pos 5)

abbrev both_wait : ℕ → Phase ℤ ℕ
both_wait = update 2 (waiting look) (update 1 (waiting insert_one) (λ _. outside))

nobody_holds : (u : ℕ) → holds (both_wait u) ≡ free
unfolding update holds
nobody_holds u = ground arith

abbrev one_waits : ℕ → Phase ℤ ℕ
one_waits =
    update 1 outside (update 1 (leaving insert_one done) (update 1 (entered insert_one) both_wait))

nobody_alone : (u : ℕ) → holds (one_waits u) ≢ exclusive
unfolding update holds
nobody_alone u = ground arith

-- The second thread has looked, and is about to return.
abbrev two_threads : (s : Threads ℤ ℕ) × Scheduled s
unfolding update lock_of
two_threads =
    let r1 = goes_on (goes_on begins (calls 1 insert_one refl)) (calls 2 look refl) in
    let r2 = goes_on r1 (locks 1 insert_one refl nobody_holds) in
    let r3 = goes_on r2 (moves 1 refl (assigns (pos 5) 1)) in
    let r4 = goes_on r3 (returns 1 insert_one done refl) in
    let r5 = goes_on r4 (locks 2 look refl nobody_alone) in
    let r6 = goes_on r5 (moves 2 refl (looks (pos 5))) in
    (_, goes_on r6 (moves 2 refl (copies (pos 5) _)))

calls_are_one_sequence_example :
    let s = two_threads.0 in
    (map answer_of s.history
      ≡ promises (map op_of s.history) (record { value = λ _. none; size = 0 }))
    × (after (map op_of s.history) empty ≡ record { entries = s.map_ })
    × ((t : ℕ) → own t s.history ≡ s.returned t ++ owed (s.phase t))
    × IsAlone s.phase
calls_are_one_sequence_example = calls_are_one_sequence two_threads.0 two_threads.1

two_answers : map answer_of two_threads.0.history ≡ done ∷ found (some 1) ∷ []
unfolding update lock_of assign find
two_answers = refl
