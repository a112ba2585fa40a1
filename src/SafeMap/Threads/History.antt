-- ===== src/SafeMap/Threads/History.antt =====
-- The calls of several threads on one map of include/thread_safe_map.h are one sequence of calls.
use asynchronous_http_web_se.Base.{
  arith, ℕ, ◌≡◌, ◌≢◌, refl, sym, ap, ◌∙◌, List, [], ◌∷◌, ◌++◌, Key, nat_key, ◌=?◌, if◌then◌else◌,
}
use mathlib.Core.List.{map, map-append}
use asynchronous_http_web_se.StdMap.{StdMap}
use asynchronous_http_web_se.SafeMap.{ThreadSafeMap, empty}
use asynchronous_http_web_se.SafeMap.Refinement.{Operation, Answer, perform, answers}
use asynchronous_http_web_se.SafeMap.Threads.{
  Phase, outside, waiting, entered, looked, leaving, Event, Move, assigns, finds, erases, misses,
  looks, copies, counts, ended,
}

module _ {K V : Type 0} where
  abbrev pub op_of : Event K V → Operation K V
  op_of (t, op, a) = op

  abbrev pub answer_of : Event K V → Answer V
  answer_of (t, op, a) = a

  -- The calls of one thread, with their answers.
  abbrev pub own : ℕ → List (Event K V) → List (Operation K V × Answer V)
  own t [] = []
  own t ((u, op, a) ∷ h) = if t =? u then (op, a) ∷ own t h else own t h

  -- What a thread is about to return.
  abbrev pub owed : Phase K V → List (Operation K V × Answer V)
  owed (leaving op a) = (op, a) ∷ []
  owed _ = []

  pub own-append : (t : ℕ) (g h : List (Event K V)) → own t (g ++ h) ≡ own t g ++ own t h
  own-append t [] h = refl
  own-append t ((u, op, a) ∷ g) h = ground (arith, own-append t g h)

  pub own-ended_self : (t : ℕ) (p : Phase K V) → own t (ended t p) ≡ owed p
  own-ended_self t outside = refl
  own-ended_self t (waiting op) = refl
  own-ended_self t (entered op) = refl
  own-ended_self t (looked op r) = refl
  own-ended_self t (leaving op a) = let same = (nat_key.same_iff t t).1 refl in rw same refl

  pub own-ended_other : (t u : ℕ) (p : Phase K V) → t ≢ u → own u (ended t p) ≡ []
  own-ended_other t u outside h = refl
  own-ended_other t u (waiting op) h = refl
  own-ended_other t u (entered op) h = refl
  own-ended_other t u (looked op r) h = refl
  own-ended_other t u (leaving op a) h = ground (arith, nat_key.same_iff u t)

module _ {K V : Type 0} ⦃k : Key K⦄ where
  -- A thread that is still in a method is owed nothing.
  pub Move-owed : {m m' : StdMap K V} {p p' : Phase K V} → Move m p m' p' → owed p ≡ []
  Move-owed (assigns key val) = refl
  Move-owed (finds key) = refl
  Move-owed (erases key w) = refl
  Move-owed (misses key) = refl
  Move-owed (looks key) = refl
  Move-owed (copies key r) = refl
  Move-owed counts = refl

  -- The map after some calls.
  abbrev pub after : List (Operation K V) → ThreadSafeMap K V → ThreadSafeMap K V
  after [] m = m
  after (op ∷ ops) m = after ops (perform op m).0

  after-append :
      (ops : List (Operation K V)) (op : Operation K V) (m : ThreadSafeMap K V)
      → after (ops ++ op ∷ []) m ≡ (perform op (after ops m)).0
  after-append [] op m = refl
  after-append (o ∷ ops) op m = after-append ops op (perform o m).0

  answers-append :
      (ops : List (Operation K V)) (op : Operation K V) (m : ThreadSafeMap K V)
      → answers (ops ++ op ∷ []) m ≡ answers ops m ++ (perform op (after ops m)).1 ∷ []
  unfolding answers
  answers-append [] op m = refl
  answers-append (o ∷ ops) op m =
      ap (λ (as' : List (Answer V)). (perform o m).1 ∷ as') (answers-append ops op (perform o m).0)

  -- The history is a sequence of calls with their answers, and the map is the one after it.
  pub record IsSequence (h : List (Event K V)) (m : StdMap K V) : Type 0 where
    pub replays : after (map op_of h) empty ≡ record { entries = m }
    pub answered : answers (map op_of h) empty ≡ map answer_of h

  pub extend-IsSequence :
      (h : List (Event K V)) (m m' : StdMap K V) (t : ℕ) (op : Operation K V) (a : Answer V)
      → IsSequence h m
      → perform op (record { entries = m }) ≡ (record { entries = m' }, a)
      → IsSequence (h ++ (t, op, a) ∷ []) m'
  extend-IsSequence h m m' t op a s performs =
      let ops = map op_of h in
      let last : perform op (after ops empty) ≡ (record { entries = m' }, a) =
        ap (perform op) s.replays ∙ performs in
      let more : map op_of (h ++ (t, op, a) ∷ []) ≡ ops ++ op ∷ [] = map-append _ h _ in
      let more_answers : map answer_of (h ++ (t, op, a) ∷ []) ≡ map answer_of h ++ a ∷ [] =
        map-append _ h _ in
      record {
        replays =
            ap (λ (os : List (Operation K V)). after os empty) more
            ∙ after-append ops op empty
            ∙ ap (λ (r : ThreadSafeMap K V × Answer V). r.0) last;
        answered =
            ap (λ (os : List (Operation K V)). answers os empty) more
            ∙ answers-append ops op empty
            ∙ ap (λ (as' : List (Answer V)). as' ++ (perform op (after ops empty)).1 ∷ [])
                s.answered
            ∙ ap (λ (r : ThreadSafeMap K V × Answer V). map answer_of h ++ r.1 ∷ []) last
            ∙ sym more_answers;
      }
