-- ===== src/SafeMap/Threads.antt =====
-- include/thread_safe_map.h: threads that call the methods of one `ThreadSafeMap`, line by line, with
-- its `std::shared_mutex`. A thread that waits for the mutex, and one that is suspended in a method,
-- is in a phase of its own, and the scheduler chooses which thread goes on.
pub mod Locking
pub mod History
pub mod Sequence
use asynchronous_http_web_se.Base.{
  ℕ, ◌≡◌, ◌≢◌, true, false, List, [], ◌∷◌, ◌++◌, Option, none, some, Key, nat_key, ◌=?◌, length,
  if◌then◌else◌,
}
use asynchronous_http_web_se.StdMap.{StdMap, assign, find, erase}
use asynchronous_http_web_se.SafeMap.Refinement.{
  Operation, inserts, removes, gets, sizes, Answer, done, removed, found, counted,
}

-- How a thread holds the mutex.
pub data Lock : Type 0 where
  free shared exclusive : Lock

-- `std::unique_lock` or `std::shared_lock`
unfoldable pub lock_of : {K V : Type 0} → Operation K V → Lock
lock_of (inserts key val) = exclusive
lock_of (removes key) = exclusive
lock_of (gets key) = shared
lock_of sizes = shared

-- Where a thread is: outside the map, before the lock, behind it, behind `map_.find`, or at a `return`
-- or the end of the method.
pub data Phase (K V : Type 0) : Type 0 where
  outside : Phase K V
  waiting entered : Operation K V → Phase K V
  looked : Operation K V → Option V → Phase K V
  leaving : Operation K V → Answer V → Phase K V

unfoldable pub holds : {K V : Type 0} → Phase K V → Lock
unfolding lock_of
holds outside = free
holds (waiting op) = free
holds (entered op) = lock_of op
holds (looked op r) = lock_of op
holds (leaving op a) = lock_of op

-- A call with its answer, by the thread that made it.
abbrev pub Event : Type 0 → Type 0 → Type 0
Event K V = ℕ × Operation K V × Answer V

-- The map, the phase of each thread, the calls in the order in which their methods came to their
-- ends, and what has returned to each thread.
pub record Threads (K V : Type 0) : Type 0 where
  pub map_ : StdMap K V
  pub phase : ℕ → Phase K V
  pub history : List (Event K V)
  pub returned : ℕ → List (Operation K V × Answer V)

abbrev pub start_threads : {K V : Type 0} → Threads K V
start_threads = record { map_ = []; phase = λ _. outside; history = []; returned = λ _. [] }

unfoldable pub update : {A : Type 0} → ℕ → A → (ℕ → A) → ℕ → A
update t a f u = if t =? u then a else f u

-- `lock` does not wait: nobody holds the mutex, or nobody holds it alone.
abbrev pub Grants : {K V : Type 0} → Lock → (ℕ → Phase K V) → Type 0
Grants free phase = Unit {0}
Grants shared phase = (u : ℕ) → holds (phase u) ≢ exclusive
Grants exclusive phase = (u : ℕ) → holds (phase u) ≡ free

module _ {K V : Type 0} ⦃k : Key K⦄ where
  -- A line of a method behind the lock, on `map_`.
  pub data Move (m : StdMap K V) : Phase K V → StdMap K V → Phase K V → Type 0 where
    assigns :
        (key : K) (val : V)
        → Move m (entered (inserts key val)) (assign key val m) (leaving (inserts key val) done)
    finds : (key : K) → Move m (entered (removes key)) m (looked (removes key) (find key m))
    erases :
        (key : K) (w : V)
        → Move m
            (looked (removes key) (some w))
            (erase key m)
            (leaving (removes key) (removed true))
    misses :
        (key : K) → Move m (looked (removes key) none) m (leaving (removes key) (removed false))
    looks : (key : K) → Move m (entered (gets key)) m (looked (gets key) (find key m))
    copies :
        (key : K) (r : Option V) → Move m (looked (gets key) r) m (leaving (gets key) (found r))
    counts : Move m (entered sizes) m (leaving sizes (counted (length m)))

-- The event of a thread that has come to the end of its method.
abbrev pub ended : {K V : Type 0} → ℕ → Phase K V → List (Event K V)
ended t (leaving op a) = (t, op, a) ∷ []
ended t _ = []

module _ {K V : Type 0} ⦃k : Key K⦄ where
  -- A thread calls a method, gets the mutex, does a line of the method, or returns, which gives the
  -- mutex back.
  pub data Step (s : Threads K V) : Threads K V → Type 0 where
    calls :
        (t : ℕ) (op : Operation K V)
        → s.phase t ≡ outside
        → Step s (record s { phase = update t (waiting op) s.phase })
    locks :
        (t : ℕ) (op : Operation K V)
        → s.phase t ≡ waiting op
        → Grants (lock_of op) s.phase
        → Step s (record s { phase = update t (entered op) s.phase })
    moves :
        (t : ℕ) {p p' : Phase K V} {m' : StdMap K V}
        → s.phase t ≡ p
        → Move s.map_ p m' p'
        → Step s
            (record s { map_ = m'; phase = update t p' s.phase; history = s.history ++ ended t p' })
    returns :
        (t : ℕ) (op : Operation K V) (a : Answer V)
        → s.phase t ≡ leaving op a
        → Step s (record s {
          phase = update t outside s.phase;
          returned = update t (s.returned t ++ (op, a) ∷ []) s.returned;
        })

  -- The states after some steps of some threads.
  pub data Scheduled : Threads K V → Type 0 where
    begins : Scheduled start_threads
    goes_on : {s s' : Threads K V} → Scheduled s → Step s s' → Scheduled s'
