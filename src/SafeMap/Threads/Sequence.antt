-- ===== src/SafeMap/Threads/Sequence.antt =====
-- Every schedule of several threads on one map of include/thread_safe_map.h.
use asynchronous_http_web_se.Base.{
  ℕ, ◌≡◌, refl, sym, ap, subst, ◌∙◌, inl, inr, List, [], ◌∷◌, ◌++◌, none, append-nil, Key, nat_key,
}
use mathlib.Core.List.{map}
use asynchronous_http_web_se.StdMap.{StdMap}
use asynchronous_http_web_se.SafeMap.{empty}
use asynchronous_http_web_se.SafeMap.Refinement.{
  Operation, Answer, answers, promises, answers_refine,
}
use asynchronous_http_web_se.SafeMap.Threads.{
  exclusive, free, lock_of, Phase, outside, waiting, entered, leaving, holds, Event, Threads,
  update, Move, ended, Step, calls, locks, moves, returns, Scheduled, begins, goes_on,
}
use asynchronous_http_web_se.SafeMap.Threads.Locking.{
  update_cases, IsAlone, update-IsAlone, Grants-alone, Sees, Sees-of_free, Move-lock, Move-Sees,
  Move-performs,
}
use asynchronous_http_web_se.SafeMap.Threads.History.{
  op_of, answer_of, own, owed, own-append, own-ended_self, own-ended_other, Move-owed, after,
  IsSequence, extend-IsSequence,
}

module _ {K V : Type 0} ⦃k : Key K⦄ where
  pub record IsLinear (s : Threads K V) : Type 0 where
    pub alone : IsAlone s.phase
    pub sees : (t : ℕ) → Sees (s.phase t) s.map_
    pub sequence : IsSequence s.history s.map_
    pub owned : (t : ℕ) → own t s.history ≡ s.returned t ++ owed (s.phase t)

  -- A thread takes another phase, the map and the history stay, and what is owed to it stays.
  rephase :
      (s : Threads K V) (t : ℕ) (q : Phase K V)
      → IsLinear s
      → IsAlone (update t q s.phase)
      → Sees q s.map_
      → owed q ≡ owed (s.phase t)
      → IsLinear (record s { phase = update t q s.phase })
  rephase s t q h alone seen same = record {
    alone = alone;
    sees = λ u. elim (update_cases t q s.phase u) [
      | inl (_, e) ↦ subst (λ p. Sees p s.map_) (sym e) seen
      | inr (_, e) ↦ subst (λ p. Sees p s.map_) (sym e) (h.sees u)
    ];
    sequence = h.sequence;
    owned = λ u. elim (update_cases t q s.phase u) [
      | inl (at_u, e) ↦
          h.owned u
          ∙ ap (λ (os : List (Operation K V × Answer V)). s.returned u ++ os)
              (ap (λ v. owed (s.phase v)) (sym at_u) ∙ sym same ∙ sym (ap owed e))
      | inr (_, e) ↦
          h.owned u
          ∙ ap (λ (os : List (Operation K V × Answer V)). s.returned u ++ os) (sym (ap owed e))
    ];
  }

  calls-IsLinear :
      (s : Threads K V) (t : ℕ) (op : Operation K V)
      → s.phase t ≡ outside
      → IsLinear s
      → IsLinear (record s { phase = update t (waiting op) s.phase })
  unfolding holds
  calls-IsLinear s t op e h =
      rephase s t (waiting op) h
        (update-IsAlone t (waiting op) s.phase h.alone (λ u other f. cc) (λ u other f. refl)) tt
        (sym (ap owed e))

  locks-IsLinear :
      (s : Threads K V) (t : ℕ) (op : Operation K V)
      → s.phase t ≡ waiting op
      → ((u : ℕ) → lock_of op ≡ exclusive → holds (s.phase u) ≡ free)
        × ((u : ℕ) → holds (s.phase u) ≡ exclusive → lock_of op ≡ free)
      → IsLinear s
      → IsLinear (record s { phase = update t (entered op) s.phase })
  unfolding holds
  locks-IsLinear s t op e granted h =
      rephase s t (entered op) h
        (update-IsAlone t (entered op) s.phase h.alone (λ u other. granted.0 u)
          (λ u other. granted.1 u))
        tt (sym (ap owed e))

  returns-IsLinear :
      (s : Threads K V) (t : ℕ) (op : Operation K V) (a : Answer V)
      → s.phase t ≡ leaving op a
      → IsLinear s
      → IsLinear (record s {
        phase = update t outside s.phase;
        returned = update t (s.returned t ++ (op, a) ∷ []) s.returned;
      })
  unfolding holds
  returns-IsLinear s t op a e h =
      let back = s.returned t ++ (op, a) ∷ [] in
      record {
        alone = update-IsAlone t outside s.phase h.alone (λ u other f. cc) (λ u other f. refl);
        sees = λ u. elim (update_cases t outside s.phase u) [
          | inl (_, f) ↦ subst (λ p. Sees p s.map_) (sym f) tt
          | inr (_, f) ↦ subst (λ p. Sees p s.map_) (sym f) (h.sees u)
        ];
        sequence = h.sequence;
        owned = λ u. elim (update_cases t outside s.phase u) [
          | inl (at_u, f) ↦ elim (update_cases t back s.returned u) [
            | inl (_, g) ↦
                rw (f, g)
                  (subst (λ v. own v s.history ≡ back ++ []) at_u
                    (h.owned t ∙ ap (λ p. s.returned t ++ owed p) e ∙ sym (append-nil back)))
            | inr (other, _) ↦ absurd (other at_u)
          ]
          | inr (other, f) ↦ elim (update_cases t back s.returned u) [
            | inl (at_u, _) ↦ absurd (other at_u)
            | inr (_, g) ↦ rw (f, g) (h.owned u)
          ]
        ];
      }

  moves-IsLinear :
      (s : Threads K V) (t : ℕ) (p p' : Phase K V) (m' : StdMap K V)
      → s.phase t ≡ p
      → Move s.map_ p m' p'
      → IsLinear s
      → IsLinear
          (record s { map_ = m'; phase = update t p' s.phase; history = s.history ++ ended t p' })
  moves-IsLinear s t p p' m' e move h =
      let lock = Move-lock move in
      let held : holds (s.phase t) ≡ holds p = ap holds e in
      record {
        alone =
            update-IsAlone t p' s.phase h.alone
              (λ u other f. h.alone t u other (held ∙ sym lock.0 ∙ f))
              (λ u other f. lock.0 ∙ sym held ∙ h.alone u t (λ x. other (sym x)) f);
        sees = λ u. elim (update_cases t p' s.phase u) [
          | inl (_, f) ↦ subst (λ q. Sees q m') (sym f) (Move-Sees move)
          | inr (other, f) ↦
              subst (λ q. Sees q m') (sym f)
                (elim lock.1 [
                  | inl same ↦ subst (λ m. Sees (s.phase u) m) (sym same) (h.sees u)
                  | inr ex ↦ Sees-of_free (s.phase u) m' (h.alone t u other (held ∙ ex))
                ])
        ];
        sequence = elim (Move-performs move (subst (λ q. Sees q s.map_) e (h.sees t))) [
          | inl (nothing, same) ↦
              subst (λ (g : List (Event K V)). IsSequence g m')
                (sym (append-nil s.history)
                  ∙ ap (λ (g : List (Event K V)). s.history ++ g) (sym (nothing t)))
                (subst (λ m. IsSequence s.history m) (sym same) h.sequence)
          | inr (op, a, at_end, performs) ↦
              subst (λ (g : List (Event K V)). IsSequence (s.history ++ g) m')
                (sym (ap (ended t) at_end))
                (extend-IsSequence s.history s.map_ m' t op a h.sequence performs)
        ];
        owned = λ u. own-append u s.history (ended t p') ∙ elim (update_cases t p' s.phase u) [
          | inl (at_u, f) ↦
              let none_owed : own u s.history ≡ s.returned u =
                h.owned u
                ∙ ap (λ q. s.returned u ++ owed q) (ap s.phase (sym at_u) ∙ e)
                ∙ ap (λ (os : List (Operation K V × Answer V)). s.returned u ++ os) (Move-owed move)
                ∙ append-nil (s.returned u) in
              ap (λ (os : List (Operation K V × Answer V)). os ++ own u (ended t p')) none_owed
              ∙ ap (λ (os : List (Operation K V × Answer V)). s.returned u ++ os)
                  (ap (λ v. own u (ended v p')) at_u ∙ own-ended_self u p' ∙ ap owed (sym f))
          | inr (other, f) ↦
              ap (λ (os : List (Operation K V × Answer V)). own u s.history ++ os)
                (own-ended_other t u p' other)
              ∙ append-nil (own u s.history)
              ∙ h.owned u
              ∙ ap (λ q. s.returned u ++ owed q) (sym f)
        ];
      }

  Step-IsLinear : {s s' : Threads K V} → Step s s' → IsLinear s → IsLinear s'
  Step-IsLinear {s} (calls t op e) h = calls-IsLinear s t op e h
  Step-IsLinear {s} (locks t op e granted) h =
      locks-IsLinear s t op e (Grants-alone op s.phase granted) h
  Step-IsLinear {s} (moves t {p} {p'} {m'} e move) h = moves-IsLinear s t p p' m' e move h
  Step-IsLinear {s} (returns t op a e) h = returns-IsLinear s t op a e h

  Scheduled-IsLinear : {s : Threads K V} → Scheduled s → IsLinear s
  unfolding holds empty answers
  Scheduled-IsLinear begins = record {
    alone = λ t u other e. refl;
    sees = λ t. tt;
    sequence = record { replays = refl; answered = refl };
    owned = λ t. refl;
  }
  Scheduled-IsLinear (goes_on r step) = Step-IsLinear step (Scheduled-IsLinear r)

  -- Whatever threads call the four methods, and however their lines are interleaved: the calls whose
  -- methods have come to their ends are one sequence, in which every call has the answer that a
  -- partial function on keys with a count of its keys gives, and which leads to the present map; what
  -- has returned to a thread, in its order, is that thread's part of the sequence, up to the answer
  -- that it is about to return; and a thread that holds the mutex alone is the only one that holds it.
  pub calls_are_one_sequence :
      (s : Threads K V)
      → Scheduled s
      → (map answer_of s.history
          ≡ promises (map op_of s.history) (record { value = λ _. none; size = 0 }))
        × (after (map op_of s.history) empty ≡ record { entries = s.map_ })
        × ((t : ℕ) → own t s.history ≡ s.returned t ++ owed (s.phase t))
        × IsAlone s.phase
  calls_are_one_sequence s r =
      let h = Scheduled-IsLinear r in
      (
        sym h.sequence.answered ∙ answers_refine (map op_of s.history),
        h.sequence.replays,
        h.owned,
        h.alone,
      )
