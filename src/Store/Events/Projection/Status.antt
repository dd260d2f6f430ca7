-- ===== src/Store/Events/Projection/Status.antt =====
-- Status, pull request, route and anomaly follow the last fact that speaks of them.
use ralph_autopilot.Common.{ℕ, ◌≡◌, refl, Option, none, some, List, [], ◌∷◌, arith, String, ◌∙◌, ap}
use ralph_autopilot.Store.Types.{
  RunStatus, running, awaiting_answer, agent_stuck, awaiting_ci, awaiting_merge, master_triage,
  PhaseRoute,
}
use ralph_autopilot.Store.Events.EventTypes.{
  IssueEvent, RunOutcome, run_started, pr_opened, escalated, resumed, review_passed, ci_awaited,
  route_resolved, run_stuck, run_ended, anomaly_detected, anomaly_cleared, master_triage_requested,
  master_intervention_started, master_stuck,
}
use ralph_autopilot.Store.Events.Decider.{IssueLifecycle, status, IssueState, evolve}
use ralph_autopilot.Store.Events.Projection.{fold_issue_state}

-- The status that a fact announces, by the table of ADR-0024: none for a fact of visibility.
abbrev announced : IssueEvent → Option RunStatus
announced (run_started _) = some running
announced (resumed _) = some running
announced (escalated _) = some awaiting_answer
announced (IssueEvent.review_maxed _) = some RunStatus.review_maxed
announced (ci_awaited _) = some awaiting_ci
announced (review_passed _) = some awaiting_merge
announced (master_triage_requested _) = some master_triage
announced (master_intervention_started _) = some master_triage
announced (run_stuck _) = some agent_stuck
announced (master_stuck _) = some agent_stuck
announced (IssueEvent.merged _) = some RunStatus.merged
announced (run_ended d) = elim d.outcome [ RunOutcome.closed ↦ some RunStatus.closed | _ ↦ none ]
announced _ = none

-- `write` is what an event says of a field: `some v` sets it.
abbrev pub last {ℓ κ} : {E : Type ℓ} {V : Type κ} → (E → Option V) → V → List E → V
last write v [] = v
last write v (e ∷ es) = last write (elim (write e) [ none ↦ v | some w ↦ w ]) es

abbrev lifecycle_write : IssueEvent → Option IssueLifecycle
lifecycle_write e = elim (announced e) [ none ↦ none | some r ↦ some (status r) ]

abbrev route_write : IssueEvent → Option (Option PhaseRoute)
route_write (run_started _) = some none
route_write (route_resolved d) = some (some d.route)
route_write _ = none

abbrev anomaly_write : IssueEvent → Option (Option String)
anomaly_write (anomaly_detected reason) = some (some reason)
anomaly_write anomaly_cleared = some none
anomaly_write _ = none

abbrev pr_write : IssueEvent → Option (Option ℕ)
pr_write (run_started _) = some none
pr_write (pr_opened d) = some (some d.pr_number)
pr_write (IssueEvent.merged d) = some (some d.pr_number)
pr_write _ = none

-- Each field of a folded state is the last write to it.
pub record LastWrites (es : List IssueEvent) (s t : IssueState) : Type 0 where
  pub lifecycle : t.lifecycle ≡ last lifecycle_write s.lifecycle es
  pub route : t.route ≡ last route_write s.route es
  pub anomaly : t.anomaly ≡ last anomaly_write s.anomaly es
  pub pr_number : t.pr_number ≡ last pr_write s.pr_number es

module _ {V : Type 0} (field : IssueState → V) (write : IssueEvent → Option V)
    (step : (s : IssueState) (e : IssueEvent)
      → field (evolve s e) ≡ last write (field s) (e ∷ [])) where
  field-fold :
      (es : List IssueEvent) (s : IssueState)
      → field (fold_issue_state es s) ≡ last write (field s) es
  unfolding fold_issue_state
  field-fold [] s = refl
  field-fold (e ∷ es) s = field-fold es (evolve s e) ∙ ap (λ (v : V). last write v es) (step s e)

lifecycle-evolve :
    (s : IssueState) (e : IssueEvent)
    → (evolve s e).lifecycle ≡ last lifecycle_write s.lifecycle (e ∷ [])
unfolding evolve
lifecycle-evolve s e = ground arith

route-evolve :
    (s : IssueState) (e : IssueEvent) → (evolve s e).route ≡ last route_write s.route (e ∷ [])
unfolding evolve
route-evolve s e = ground arith

anomaly-evolve :
    (s : IssueState) (e : IssueEvent) → (evolve s e).anomaly ≡ last anomaly_write s.anomaly (e ∷ [])
unfolding evolve
anomaly-evolve s e = ground arith

pr_number-evolve :
    (s : IssueState) (e : IssueEvent) → (evolve s e).pr_number ≡ last pr_write s.pr_number (e ∷ [])
unfolding evolve
pr_number-evolve s e = ground arith

-- From any state, the status after a batch of events is the one that its last lifecycle fact
-- announces, the route is the last one dispatched since the last run start, the anomaly is the
-- last one detected and not cleared, and the pull request is the last one opened or merged since
-- the last run start; where the batch writes a field not at all, the field is unchanged.
pub fold_issue_state-LastWrites :
    (es : List IssueEvent) (s : IssueState) → LastWrites es s (fold_issue_state es s)
fold_issue_state-LastWrites es s = record {
  lifecycle = field-fold (λ t. t.lifecycle) lifecycle_write lifecycle-evolve es s;
  route = field-fold (λ t. t.route) route_write route-evolve es s;
  anomaly = field-fold (λ t. t.anomaly) anomaly_write anomaly-evolve es s;
  pr_number = field-fold (λ t. t.pr_number) pr_write pr_number-evolve es s;
}
