-- ===== src/Master/Budget/Forbidden.antt =====
-- Which resolutions a verdict forbids.
use ralph_autopilot.Common.{
  String, ◌≡◌, refl, ap, Bool, true, false, not, ◌&&◌, ◌||◌, none, some, List, [], ◌∷◌, ◌++◌,
  filter, find, any, any-append, includes, length, ltb, arith, inl, inr, Bool-cases, Option-cases,
  ◌===◌, ===_refl, ===_iff,
}
use ralph_autopilot.Master.History.{
  RecordedStreamEvent, MasterInterventionRecord, MasterHistory, AwaitingHuman, is_attempt,
  num_field, str_field, fold_master_event, interventions_in_phase,
}
use ralph_autopilot.Master.History.Keys.{key_of}
use ralph_autopilot.Master.History.Keyed.Growth.{fold_master_event-resumed}
use ralph_autopilot.Master.Budget.{
  Allowance, allowed, unique_after, decided, allowance, inherited, evaluate_master_budget,
  readopted_attempt_budget, resolution_allowed, without,
}

-- The record is of the phase, saw this failure, and chose this resolution.
abbrev pub was_tried : String → String → String → MasterInterventionRecord → Bool
was_tried phase signature resolution i =
    (i.phase === phase)
    && (i.signature === signature)
    && elim i.resolution [ none ↦ false | some r ↦ r === resolution ]

includes-unique_after :
    (seen xs : List String) (r : String)
    → includes (unique_after seen xs) r ≡ (includes xs r && not (includes seen r))
unfolding unique_after
includes-unique_after seen [] r = refl
includes-unique_after seen (x ∷ xs) r = elim (Bool-cases (x === r)) [
  | inl q ↦
      let same : includes seen x ≡ includes seen r = ap (includes seen) ((===_iff x r).0 q) in
      ground (arith, same, includes-unique_after seen xs r, includes-unique_after (x ∷ seen) xs r)
  | inr q ↦ ground (arith, includes-unique_after seen xs r, includes-unique_after (x ∷ seen) xs r)
]

tried_of :
    (phase signature r : String) (is : List MasterInterventionRecord)
    → includes
        (decided (filter (λ i. i.signature === signature) (filter (λ i. i.phase === phase) is)))
        r
      ≡ any (was_tried phase signature r) is
unfolding decided
tried_of phase signature r [] = refl
tried_of phase signature r (i ∷ is) = elim (Option-cases i.resolution) [
  | inl q ↦ ground (arith, tried_of phase signature r is)
  | inr q ↦ ground (arith, tried_of phase signature r is)
]

none_decided :
    (is : List MasterInterventionRecord) (r : String)
    → ltb 0 (length is) ≡ false
    → includes (decided is) r ≡ false
unfolding decided
none_decided [] r h = refl
none_decided (i ∷ is) r h = absurd (ground arith)

-- Where a fresh intervention is allowed, it may choose a resolution exactly if no earlier one of
-- its phase that saw the same failure signature chose it: a failure that comes back is never
-- answered twice in the same way, and nothing else is forbidden.
pub evaluate_master_budget-resolution_allowed :
    (h : MasterHistory) (phase signature resolution : String) (a : Allowance)
    → evaluate_master_budget h phase signature ≡ allowed a
    → resolution_allowed (evaluate_master_budget h phase signature) resolution
      ≡ not (any (was_tried phase signature resolution) h.interventions)
unfolding evaluate_master_budget resolution_allowed interventions_in_phase allowance
evaluate_master_budget-resolution_allowed h phase signature resolution a e =
    let same =
      filter (λ i. i.signature === signature) (filter (λ i. i.phase === phase) h.interventions) in
    ground (
      arith,
      includes-unique_after [] (decided same) resolution,
      tried_of phase signature resolution h.interventions,
      none_decided same resolution,
    )

-- The human answered, now or before.
abbrev was_answered : MasterInterventionRecord → Bool → Bool
was_answered i human_resumed = human_resumed || ltb 0 i.human_resumes

-- An attempt that a human's answer resumed may not ask again, and this is remembered when the
-- session that got the answer died.
pub readopted_attempt_budget-ask_human :
    (h : MasterHistory) (i : MasterInterventionRecord) (human_resumed : Bool)
    → was_answered i human_resumed ≡ true
    → resolution_allowed (readopted_attempt_budget h i human_resumed) "ask-human" ≡ false
unfolding readopted_attempt_budget resolution_allowed
readopted_attempt_budget-ask_human h i human_resumed e =
    let base = inherited (evaluate_master_budget (without h i) i.phase i.signature) in
    ground (
      arith,
      includes-unique_after [] (base ++ "ask-human" ∷ []) "ask-human",
      any-append (λ x. x === "ask-human") base ("ask-human" ∷ []),
      ===_refl "ask-human",
    )

-- An answered question goes back to the attempt that asked, under its old number, and however often
-- its session dies and is re-adopted with no answer in hand, it cannot ask again: asking and
-- answering never cycle.
pub answered-asks_once :
    (h : MasterHistory) (e : RecordedStreamEvent) (w : AwaitingHuman) (i : MasterInterventionRecord)
    → h.awaiting_human ≡ some w
    → find (is_attempt w.attempt w.phase) h.interventions ≡ some i
    → e.event_type ≡ "MasterInterventionStarted"
    → num_field e.payload "attempt" ≡ w.attempt
    → str_field e.payload "phase" ≡ w.phase
    → (cur : MasterInterventionRecord) × ((fold_master_event h e).in_progress ≡ some cur)
      × (key_of cur ≡ key_of i)
      × (resolution_allowed (readopted_attempt_budget (fold_master_event h e) cur false) "ask-human"
          ≡ false)
answered-asks_once h e w i a f t n p =
    let (cur, open_is, resumes, key) = fold_master_event-resumed h e w i a f t n p in
    (
      cur,
      open_is,
      key,
      readopted_attempt_budget-ask_human (fold_master_event h e) cur false (ground arith),
    )
