-- ===== src/Master/Budget/Bound.antt =====
-- The bound on the interventions of a phase, over every stream that the engine can write.
use ralph_autopilot.Common.{
  ℕ, String, ◌≡◌, ◌⊎◌, ◌+◌, ◌<◌, refl, ap, ◌∙◌, subst, Bool, true, false, Option, none, some, List,
  [], ◌∷◌, ◌++◌, map, find, filter, foldl, length, is_some, arith, inl, inr, Bool-cases,
  if◌then◌else◌, ◌===◌, ===_iff,
}
use ralph_autopilot.Master.History.{
  RecordedStreamEvent, MasterInterventionRecord, MasterHistory, AwaitingHuman, empty_master_history,
  is_attempt, str_field, num_field, fold_master_event, fold_master_history, interventions_in_phase,
}
use ralph_autopilot.Master.History.Keys.{Key, keys, found_again, IsKeyed}
use ralph_autopilot.Master.History.Keyed.{fold_master_history-IsKeyed}
use ralph_autopilot.Master.History.Keyed.Growth.{KeepsKeys, keys-other, keys-started}
use ralph_autopilot.Master.Budget.{
  Allowance, allowed, allowance, first_of, phase_of, session_verdict, evaluate_master_budget,
  readopted_attempt_budget, session_budget, session_phase, open_attempt, resumed_attempt,
  opens_attempt,
}

-- A stream that grows by the events that the engine writes for a session, and by any others.
pub data Recorded : List RecordedStreamEvent → Type 0 where
  empty : Recorded []
  other :
      (events : List RecordedStreamEvent) (e : RecordedStreamEvent)
      → Recorded events
      → (e.event_type === "MasterInterventionStarted") ≡ false
      → Recorded (events ++ e ∷ [])
  session :
      (events : List RecordedStreamEvent) (e : RecordedStreamEvent)
      → Recorded events
      → (answered : Bool) (phase signature : String) (a : Allowance)
      → opens_attempt (fold_master_history events) answered ≡ true
      → session_budget (fold_master_history events) answered phase signature ≡ allowed a
      → e.event_type ≡ "MasterInterventionStarted"
      → num_field e.payload "attempt" ≡ a.attempt
      → str_field e.payload "phase" ≡ session_phase (fold_master_history events) answered phase
      → Recorded (events ++ e ∷ [])

-- The attempt numbers of a phase.
attempts_of : String → List Key → List ℕ
attempts_of p [] = []
attempts_of p (k ∷ ks) =
    let rest = attempts_of p ks in if k.phase === p then k.attempt ∷ rest else rest

attempts_of-append :
    (p : String) (ks : List Key) (k : Key)
    → attempts_of p (ks ++ k ∷ [])
      ≡ (if k.phase === p then attempts_of p ks ++ k.attempt ∷ [] else attempts_of p ks)
unfolding attempts_of
attempts_of-append p [] k = refl
attempts_of-append p (j ∷ ks) k = ground (arith, attempts_of-append p ks k)

attempts_of-keys :
    (p : String) (is : List MasterInterventionRecord)
    → map (λ i. i.attempt) (filter (λ i. i.phase === p) is) ≡ attempts_of p (keys is)
unfolding attempts_of
attempts_of-keys p [] = refl
attempts_of-keys p (i ∷ is) = ground (arith, attempts_of-keys p is)

length-attempts_of :
    (p : String) (is : List MasterInterventionRecord)
    → length (filter (λ i. i.phase === p) is) ≡ length (attempts_of p (keys is))
unfolding attempts_of
length-attempts_of p [] = refl
length-attempts_of p (i ∷ is) = ground (arith, length-attempts_of p is)

-- No attempt, the first, or the first and the second.
abbrev pub Numbered : List ℕ → Type 0
Numbered xs = (xs ≡ []) ⊎ ((xs ≡ 1 ∷ []) ⊎ (xs ≡ 1 ∷ 2 ∷ []))

abbrev IsNumbered : List Key → Type 0
IsNumbered ks = (p : String) → Numbered (attempts_of p ks)

next :
    (xs : List ℕ) (n : ℕ)
    → Numbered xs
    → length xs < 2
    → n ≡ length xs + 1
    → Numbered (xs ++ n ∷ [])
next xs n (inl e) room q = inr (inl (ground arith))
next xs n (inr (inl e)) room q = inr (inr (ground arith))
next xs n (inr (inr e)) room q = absurd (ground arith)

-- What a session adds where it takes the next number of a phase that has less than two.
add-IsNumbered :
    (ks : List Key) (k : Key)
    → IsNumbered ks
    → length (attempts_of k.phase ks) < 2
    → k.attempt ≡ length (attempts_of k.phase ks) + 1
    → IsNumbered (ks ++ k ∷ [])
add-IsNumbered ks k h room e p = elim (Bool-cases (k.phase === p)) [
  | inl q ↦
      let s : k.phase ≡ p = (===_iff k.phase p).0 q in
      let room' : length (attempts_of p ks) < 2 =
        subst (λ x. length (attempts_of x ks) < 2) s room in
      let e' : k.attempt ≡ length (attempts_of p ks) + 1 =
        e ∙ ap (λ x. length (attempts_of x ks) + 1) s in
      rw (attempts_of-append p ks k, q) (next (attempts_of p ks) k.attempt (h p) room' e')
  | inr q ↦ rw (attempts_of-append p ks k, q) (h p)
]

kept-IsNumbered :
    (h h' : MasterHistory)
    → KeepsKeys h h'
    → IsNumbered (keys h.interventions)
    → IsNumbered (keys h'.interventions)
unfolding attempts_of
kept-IsNumbered h h' (inl e) n = rw e n
kept-IsNumbered h h' (inr e) n = rw e (λ p. inl refl)

-- The attempt that a session re-adopts is in the list.
open_attempt-found :
    (h : MasterHistory) (answered : Bool) (i : MasterInterventionRecord)
    → IsKeyed h
    → open_attempt h answered ≡ some i
    → find (is_attempt i.attempt i.phase) h.interventions ≡ some i
unfolding open_attempt resumed_attempt first_of
open_attempt-found h answered i k e = go (resumed_attempt h answered) refl e
  where
    asked :
        (o : Option AwaitingHuman)
        → (elim o [ none ↦ none | some w ↦ find (is_attempt w.attempt w.phase) h.interventions ])
          ≡ some i
        → find (is_attempt i.attempt i.phase) h.interventions ≡ some i
    asked none q = absurd (ground arith)
    asked (some w) q = found_again w.attempt w.phase h.interventions i q

    go :
        (o : Option MasterInterventionRecord)
        → resumed_attempt h answered ≡ o
        → first_of o h.in_progress ≡ some i
        → find (is_attempt i.attempt i.phase) h.interventions ≡ some i
    go none r q = k.current i (unfold first_of in q)
    go (some j) r q = asked h.awaiting_human (ground arith)

fresh_allowance :
    (h : MasterHistory) (phase signature : String) (a : Allowance)
    → evaluate_master_budget h phase signature ≡ allowed a
    → (length (interventions_in_phase h phase) < 2)
      × (a.attempt ≡ length (interventions_in_phase h phase) + 1)
unfolding evaluate_master_budget allowance
fresh_allowance h phase signature a e = (ground arith, ground arith)

readopted_allowance :
    (h : MasterHistory) (i : MasterInterventionRecord) (resumed : Bool) (a : Allowance)
    → readopted_attempt_budget h i resumed ≡ allowed a
    → a.attempt ≡ i.attempt
unfolding readopted_attempt_budget
readopted_allowance h i resumed a e = ground arith

fold_master_history-snoc :
    (events : List RecordedStreamEvent) (e : RecordedStreamEvent)
    → fold_master_history (events ++ e ∷ []) ≡ fold_master_event (fold_master_history events) e
unfolding fold_master_history
fold_master_history-snoc events e = go events empty_master_history
  where
    go :
        (es : List RecordedStreamEvent) (h : MasterHistory)
        → foldl fold_master_event h (es ++ e ∷ [])
          ≡ fold_master_event (foldl fold_master_event h es) e
    go [] h = refl
    go (x ∷ es) h = go es (fold_master_event h x)

-- What a session's event does to the numbers.
session-IsNumbered :
    (h : MasterHistory) (e : RecordedStreamEvent) (answered : Bool) (phase signature : String)
    (a : Allowance)
    → IsKeyed h
    → IsNumbered (keys h.interventions)
    → session_budget h answered phase signature ≡ allowed a
    → e.event_type ≡ "MasterInterventionStarted"
    → num_field e.payload "attempt" ≡ a.attempt
    → str_field e.payload "phase" ≡ session_phase h answered phase
    → IsNumbered (keys (fold_master_event h e).interventions)
unfolding session_budget session_phase
session-IsNumbered h e answered phase signature a k n b t q r =
    go (open_attempt h answered) refl b r
  where
    added :
        IsNumbered (
          keys h.interventions
          ++ record { attempt = num_field e.payload "attempt"; phase = str_field e.payload "phase" }
            ∷ [])
        → IsNumbered (keys (fold_master_event h e).interventions)
    added m = elim ((keys-started h e t).1) [ inl s ↦ rw s n | inr s ↦ rw s m ]

    go :
        (o : Option MasterInterventionRecord)
        → open_attempt h answered ≡ o
        → session_verdict h o (is_some (resumed_attempt h answered)) phase signature ≡ allowed a
        → str_field e.payload "phase" ≡ phase_of o phase
        → IsNumbered (keys (fold_master_event h e).interventions)
    go none s b r = added (
        let f = fresh_allowance h phase signature a (unfold session_verdict in b) in
        let l = length-attempts_of phase h.interventions in
        let p : str_field e.payload "phase" ≡ phase = (unfold phase_of in r) in
        add-IsNumbered (keys h.interventions)
          (record { attempt = num_field e.payload "attempt"; phase = str_field e.payload "phase" })
          n (rw p (unfold interventions_in_phase in ground (arith, f.0, l)))
          (rw p (unfold interventions_in_phase in ground (arith, f.1, l, q))))
    go (some i) s b r =
        (let found = open_attempt-found h answered i k s in
          let m =
            readopted_allowance h i (is_some (resumed_attempt h answered)) a
              (unfold session_verdict in b) in
          let p : str_field e.payload "phase" ≡ i.phase = (unfold phase_of in r) in
          let same = (keys-started h e t).0 (rw (p, q ∙ m) (ap is_some found)) in rw same n)

-- In every stream that the engine can write, each phase of the run span in progress has no
-- intervention, or one numbered 1, or two numbered 1 and 2: a third is never started, whatever was
-- answered, re-adopted or recorded in between.
pub fold_master_history-Numbered :
    (events : List RecordedStreamEvent)
    → Recorded events
    → (phase : String)
    → Numbered (map (λ i. i.attempt) (interventions_in_phase (fold_master_history events) phase))
unfolding interventions_in_phase
fold_master_history-Numbered events r phase =
    rw (attempts_of-keys phase (fold_master_history events).interventions) (go events r phase)
  where
    go :
        (events : List RecordedStreamEvent)
        → Recorded events
        → IsNumbered (keys (fold_master_history events).interventions)
    go _ empty = unfold fold_master_history attempts_of in λ p. inl refl
    go _ (other events e r k) = rw (fold_master_history-snoc events e) (
        kept-IsNumbered (fold_master_history events)
          (fold_master_event (fold_master_history events) e)
          (keys-other (fold_master_history events) e k) (go events r))
    go _ (session events e r answered phase signature a o b t q s) =
        rw (fold_master_history-snoc events e) (
          session-IsNumbered (fold_master_history events) e answered phase signature a
            (fold_master_history-IsKeyed events) (go events r) b t q s)
