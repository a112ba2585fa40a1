-- ===== src/Reactor/Queue.antt =====
-- The order in which the events of one `epoll_wait` are served.
use mathlib.Core.List.{Perm, map, perm_middle}
use mathlib.Core.List.Perm
use asynchronous_http_web_se.Base.{
  ℕ, ◌≤◌, List, [], ◌∷◌, ◌++◌, arith, Bool-cases, inl, inr, All, append-nil, ◌≡◌, refl, ap, subst,
  ℤ, Option, none, some,
}
use asynchronous_http_web_se.Epoll.{Epoll, EpollLaws, EpollEvent}
use asynchronous_http_web_se.Reactor.{
  Tracker, EventPriority, new_sock, rank, Queued, pq_comparator, push, priority_of, enqueue,
}
use asynchronous_http_web_se.Reactor.Steps.{Reached}
use asynchronous_http_web_se.Reactor.Registering.{last_priority, get-last_priority}
use mathlib.Core.Path.{ap₂}

-- No element stands behind one of a lower priority.
abbrev pub IsOrdered : List Queued → Type 0
IsOrdered [] = Unit {0}
IsOrdered (x ∷ q) = All (λ y. rank y.0 ≤ rank x.0) q × IsOrdered q

All-push :
    (n : ℕ) (x : Queued) (q : List Queued)
    → rank x.0 ≤ n
    → All (λ y. rank y.0 ≤ n) q
    → All (λ y. rank y.0 ≤ n) (push x q)
unfolding push
All-push n x [] h all = (h, tt)
All-push n x (y ∷ q) h all = ground (arith, All-push n x q h all.1)

All-le_trans :
    (m n : ℕ) (q : List Queued) → m ≤ n → All (λ y. rank y.0 ≤ m) q → All (λ y. rank y.0 ≤ n) q
All-le_trans m n [] h all = tt
All-le_trans m n (y ∷ q) h all = (omega arith, All-le_trans m n q h all.1)

push-IsOrdered : (x : Queued) (q : List Queued) → IsOrdered q → IsOrdered (push x q)
unfolding push
push-IsOrdered x [] h = (tt, tt)
push-IsOrdered x (y ∷ q) h =
    ground
      (arith, push-IsOrdered x q h.1, All-push (rank y.0) x q, All-le_trans (rank y.0) (rank x.0) q)

push-perm : (x : Queued) (q : List Queued) → Perm (push x q) (x ∷ q)
unfolding push
push-perm x [] = Perm.refl (x ∷ [])
push-perm x (y ∷ q) = elim (Bool-cases (pq_comparator y x)) [
  | inl e ↦ rw e (Perm.refl (x ∷ y ∷ q))
  | inr e ↦ rw e (Perm.trans (Perm.cons y (push-perm x q)) (Perm.swap x y q))
]

module _ {K C : Type 0} (t : Tracker K C) where
  -- An event beside the priority that its fd is registered with.
  abbrev tagged : EpollEvent → Queued
  tagged ev = (priority_of t ev, ev)

  enqueue-IsOrdered :
      (evs : List EpollEvent) (q : List Queued) → IsOrdered q → IsOrdered (enqueue t evs q)
  unfolding enqueue
  enqueue-IsOrdered [] q h = h
  enqueue-IsOrdered (ev ∷ evs) q h =
      enqueue-IsOrdered evs (push (tagged ev) q) (push-IsOrdered (tagged ev) q h)

  enqueue_perm :
      (evs : List EpollEvent) (q : List Queued) → Perm (enqueue t evs q) (map tagged evs ++ q)
  unfolding enqueue
  enqueue_perm [] q = Perm.refl q
  enqueue_perm (ev ∷ evs) q = Perm.trans (enqueue_perm evs (push (tagged ev) q)) (
      Perm.trans (Perm.append (Perm.refl (map tagged evs)) (push-perm (tagged ev) q))
        (perm_middle (map tagged evs) q))

-- An event beside the priority in the last accepted call for its fd, or that of a new socket where
-- there is none.
abbrev pub ranked :
    {K C : Type 0} {sys : Epoll K} {k : K} {t : Tracker K C} → Reached sys k t → EpollEvent → Queued
ranked r ev = (elim (last_priority r ev.fd) [ some p ↦ p | none ↦ new_sock ], ev)

module _ {K C : Type 0} (sys : Epoll K) (laws : EpollLaws sys) (k : K)
    (none_yet : (j : ℤ) → sys.interest k j ≡ none) where
  tagged-ranked :
      {t : Tracker K C} (r : Reached sys k t) (evs : List EpollEvent)
      → map (tagged t) evs ≡ map (ranked r) evs
  unfolding priority_of
  tagged-ranked r [] = refl
  tagged-ranked {t} r (ev ∷ evs) =
      ap₂ (◌∷◌)
        (ap
          (λ (o : Option EventPriority).
            (elim o as (λ _. EventPriority) [ some p ↦ p | none ↦ new_sock ], ev))
          (get-last_priority sys laws k none_yet r ev.fd))
        (tagged-ranked r evs)

  -- After any calls of the tracking methods, failed ones included, the loop over the events of an
  -- `epoll_wait` fills the empty queue with exactly these events, each at the priority in the last
  -- call for its fd that `epoll_ctl` accepted, or as a new socket where the fd is not registered; and
  -- the queue gives helper sockets before new sockets before listening sockets. Here a new epoll
  -- instance watches nothing.
  pub enqueue_serves_all_in_order :
      {t : Tracker K C} (r : Reached sys k t) (evs : List EpollEvent)
      → IsOrdered (enqueue t evs []) × Perm (enqueue t evs []) (map (ranked r) evs)
  enqueue_serves_all_in_order {t} r evs =
      let all : Perm (enqueue t evs []) (map (tagged t) evs) =
        rw (append-nil (map (tagged t) evs)) at (enqueue_perm t evs []) in
      (
        enqueue-IsOrdered t evs [] tt,
        subst (λ (q : List Queued). Perm (enqueue t evs []) q) (tagged-ranked r evs) all,
      )
