-- ===== src/Daemon/Completeness.antt =====
-- daemon/completeness.ts: what the daemon says of one issue, and which anomalies it escalates.
pub mod Verdicts
use ralph_autopilot.Common.{
  ℕ, String, Bool, true, false, not, ◌&&◌, ◌||◌, Option, none, some, List, [], ◌∷◌, includes, any,
  if◌then◌else◌,
}
use ralph_autopilot.Store.Types.{
  RunStatus, running, awaiting_answer, agent_stuck, review_maxed, awaiting_ci, awaiting_merge,
  master_triage, merged, closed, unrecognised,
}
use ralph_autopilot.Core.Labels.{
  label_ready, label_awaiting_answer, label_review_maxed, label_agent_stuck,
}
use ralph_autopilot.Core.Admission.{re_admittable, span_closed}

pub data AnomalyReason : Type 0 where
  run_wedged_past_lifetime running_row_not_in_flight non_terminal_run_on_closed_issue :
      AnomalyReason
  paused_run_unresumable paused_run_label_missing answered_pause_stranded : AnomalyReason
  paused_label_missing_run master_route_unconfigured unclassified : AnomalyReason

-- `a === b` on reasons.
reason_eq : AnomalyReason → AnomalyReason → Bool
reason_eq run_wedged_past_lifetime run_wedged_past_lifetime = true
reason_eq running_row_not_in_flight running_row_not_in_flight = true
reason_eq non_terminal_run_on_closed_issue non_terminal_run_on_closed_issue = true
reason_eq paused_run_unresumable paused_run_unresumable = true
reason_eq paused_run_label_missing paused_run_label_missing = true
reason_eq answered_pause_stranded answered_pause_stranded = true
reason_eq paused_label_missing_run paused_label_missing_run = true
reason_eq master_route_unconfigured master_route_unconfigured = true
reason_eq unclassified unclassified = true
reason_eq _ _ = false

abbrev operator_owned_anomalies : List AnomalyReason
operator_owned_anomalies = master_route_unconfigured ∷ unclassified ∷ []

abbrev self_healing_anomalies : List AnomalyReason
self_healing_anomalies = answered_pause_stranded ∷ []

pub anomaly_enqueues_master : AnomalyReason → Bool → Bool
unfolding reason_eq
anomaly_enqueues_master reason has_context =
    has_context
    && not (any (λ r. reason_eq r reason) operator_owned_anomalies)
    && not (any (λ r. reason_eq r reason) self_healing_anomalies)

-- `IssueClass` and the anomalies.
pub data Classification : Type 0 where
  eligible in_flight awaiting_human terminal : Classification
  anomaly : AnomalyReason → Classification

-- `IssueState | "gone"`.
pub data SnapshotState : Type 0 where
  open_issue closed_issue gone : SnapshotState

pub record IssueSnapshot : Type 0 where
  pub issue_number : ℕ
  pub issue_state : SnapshotState
  pub labels : List String
  pub run_status : Option RunStatus
  pub in_flight : Bool
  pub wedged : Bool
  pub gate_eligible : Bool
  pub resumable : Bool
  pub answered : Bool
  pub master_unroutable : Bool

unfoldable pub is_non_terminal_status : RunStatus → Bool
unfolding re_admittable
is_non_terminal_status status = not (re_admittable status)

pub is_span_closed : RunStatus → Bool
unfolding span_closed
is_span_closed status = span_closed status

abbrev pub is_open : SnapshotState → Bool
is_open open_issue = true
is_open closed_issue = false
is_open gone = false

-- The two paused statuses; `label` is the one that matches the status.
classify_paused : IssueSnapshot → String → Classification
classify_paused s label =
    if not (is_open s.issue_state)
    then anomaly non_terminal_run_on_closed_issue
    else if s.resumable
    then in_flight
    else if includes s.labels label
    then if s.answered then anomaly answered_pause_stranded else awaiting_human
    else if includes s.labels label_ready
    then anomaly paused_run_unresumable
    else anomaly paused_run_label_missing

-- Step 3; `has_row` is `runStatus !== null`.
classify_by_labels : IssueSnapshot → Bool → Classification
classify_by_labels s has_row =
    if not (is_open s.issue_state)
    then terminal
    else if s.gate_eligible
    then eligible
    else if includes s.labels label_agent_stuck
    then awaiting_human
    else if includes s.labels label_awaiting_answer || includes s.labels label_review_maxed
    then if has_row then awaiting_human else anomaly paused_label_missing_run
    else awaiting_human

polled : IssueSnapshot → Classification
polled s = if is_open s.issue_state then in_flight else anomaly non_terminal_run_on_closed_issue

-- Step 2, and step 3 where it breaks.
classify_status : IssueSnapshot → Option RunStatus → Classification
unfolding classify_paused classify_by_labels polled
classify_status s (some running) =
    if is_open s.issue_state
    then anomaly running_row_not_in_flight
    else anomaly non_terminal_run_on_closed_issue
classify_status s (some awaiting_answer) = classify_paused s label_awaiting_answer
classify_status s (some review_maxed) = classify_paused s label_review_maxed
classify_status s (some awaiting_ci) = polled s
classify_status s (some master_triage) =
    if not (is_open s.issue_state)
    then anomaly non_terminal_run_on_closed_issue
    else if s.master_unroutable
    then anomaly master_route_unconfigured
    else in_flight
classify_status s (some awaiting_merge) = polled s
classify_status s (some agent_stuck) = classify_by_labels s true
classify_status s (some merged) = classify_by_labels s true
classify_status s (some closed) = classify_by_labels s true
classify_status s none = classify_by_labels s false
classify_status s (some (unrecognised text)) = anomaly unclassified

unfoldable pub classify_issue_state : IssueSnapshot → Classification
unfolding classify_status
classify_issue_state s =
    if s.in_flight
    then if s.wedged then anomaly run_wedged_past_lifetime else in_flight
    else classify_status s s.run_status
