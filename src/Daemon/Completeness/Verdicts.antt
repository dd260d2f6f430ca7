-- ===== src/Daemon/Completeness/Verdicts.antt =====
-- When the classifier gives which verdict.
use ralph_autopilot.Common.{
  ◌≡◌, ◌↔◌, ◌⊎◌, refl, true, false, not, Option, none, some, includes, arith, inl, inr,
}
use ralph_autopilot.Store.Types.{
  RunStatus, running, awaiting_answer, agent_stuck, review_maxed, awaiting_ci, awaiting_merge,
  master_triage, merged, closed, unrecognised,
}
use ralph_autopilot.Core.Labels.{label_awaiting_answer, label_review_maxed}
use ralph_autopilot.Daemon.Completeness.{
  IssueSnapshot, is_open, eligible, in_flight, awaiting_human, terminal, is_non_terminal_status,
  is_span_closed, classify_issue_state, classify_status, classify_paused, classify_by_labels,
  polled,
}

-- The row of a run that still holds its issue.
abbrev pub HoldsIssue : Option RunStatus → Type 0
HoldsIssue none = ⊥
HoldsIssue (some status) = is_non_terminal_status status ≡ true

status_terminal :
    (s : IssueSnapshot) (r : Option RunStatus)
    → (classify_status s r ≡ terminal) ↔ (¬ HoldsIssue r × (is_open s.issue_state ≡ false))
unfolding classify_status classify_paused classify_by_labels polled is_non_terminal_status
status_terminal s none = (λ h. ground arith, λ h. ground arith)
status_terminal s (some running) = (λ h. ground arith, λ h. ground arith)
status_terminal s (some awaiting_answer) = (λ h. ground arith, λ h. ground arith)
status_terminal s (some agent_stuck) = (λ h. ground arith, λ h. ground arith)
status_terminal s (some review_maxed) = (λ h. ground arith, λ h. ground arith)
status_terminal s (some awaiting_ci) = (λ h. ground arith, λ h. ground arith)
status_terminal s (some awaiting_merge) = (λ h. ground arith, λ h. ground arith)
status_terminal s (some master_triage) = (λ h. ground arith, λ h. ground arith)
status_terminal s (some merged) = (λ h. ground arith, λ h. ground arith)
status_terminal s (some closed) = (λ h. ground arith, λ h. ground arith)
status_terminal s (some (unrecognised t)) = (λ h. ground arith, λ h. ground arith)

-- An issue is called done exactly when it is not being executed, no run row holds it, and it is
-- closed or gone: no live run is ever written off.
pub classify_issue_state-terminal_iff :
    (s : IssueSnapshot)
    → (classify_issue_state s ≡ terminal)
      ↔ ((s.in_flight ≡ false) × (¬ HoldsIssue s.run_status) × (is_open s.issue_state ≡ false))
unfolding classify_issue_state
classify_issue_state-terminal_iff s = (
  λ h. ground (arith, status_terminal s s.run_status),
  λ h. ground (arith, status_terminal s s.run_status),
)

status_eligible :
    (s : IssueSnapshot) (r : Option RunStatus)
    → (classify_status s r ≡ eligible)
      ↔ ((¬ HoldsIssue r) × (is_open s.issue_state ≡ true) × (s.gate_eligible ≡ true))
unfolding classify_status classify_paused classify_by_labels polled is_non_terminal_status
status_eligible s none = (λ h. ground arith, λ h. ground arith)
status_eligible s (some running) = (λ h. ground arith, λ h. ground arith)
status_eligible s (some awaiting_answer) = (λ h. ground arith, λ h. ground arith)
status_eligible s (some agent_stuck) = (λ h. ground arith, λ h. ground arith)
status_eligible s (some review_maxed) = (λ h. ground arith, λ h. ground arith)
status_eligible s (some awaiting_ci) = (λ h. ground arith, λ h. ground arith)
status_eligible s (some awaiting_merge) = (λ h. ground arith, λ h. ground arith)
status_eligible s (some master_triage) = (λ h. ground arith, λ h. ground arith)
status_eligible s (some merged) = (λ h. ground arith, λ h. ground arith)
status_eligible s (some closed) = (λ h. ground arith, λ h. ground arith)
status_eligible s (some (unrecognised t)) = (λ h. ground arith, λ h. ground arith)

-- An issue is called eligible exactly when it is not being executed, no run row holds it, it is
-- open, and the gate passes it.
pub classify_issue_state-eligible_iff :
    (s : IssueSnapshot)
    → (classify_issue_state s ≡ eligible) ↔ (
        (s.in_flight ≡ false)
        × (¬ HoldsIssue s.run_status)
        × (is_open s.issue_state ≡ true)
        × (s.gate_eligible ≡ true))
unfolding classify_issue_state
classify_issue_state-eligible_iff s = (
  λ h. ground (arith, status_eligible s s.run_status),
  λ h. ground (arith, status_eligible s s.run_status),
)

-- The rows that a part of the daemon serves without a slot: an answered pause, a poller's row, a
-- routable escalation.
abbrev pub IsServed : IssueSnapshot → Option RunStatus → Type 0
IsServed s (some awaiting_answer) = s.resumable ≡ true
IsServed s (some review_maxed) = s.resumable ≡ true
IsServed s (some awaiting_ci) = Unit
IsServed s (some awaiting_merge) = Unit
IsServed s (some master_triage) = s.master_unroutable ≡ false
IsServed s _ = ⊥

status_in_flight :
    (s : IssueSnapshot) (r : Option RunStatus)
    → (classify_status s r ≡ in_flight) ↔ (IsServed s r × (is_open s.issue_state ≡ true))
unfolding classify_status classify_paused classify_by_labels polled
status_in_flight s none = (λ h. ground arith, λ h. ground arith)
status_in_flight s (some running) = (λ h. ground arith, λ h. ground arith)
status_in_flight s (some awaiting_answer) = (λ h. ground arith, λ h. ground arith)
status_in_flight s (some agent_stuck) = (λ h. ground arith, λ h. ground arith)
status_in_flight s (some review_maxed) = (λ h. ground arith, λ h. ground arith)
status_in_flight s (some awaiting_ci) = (λ h. ground arith, λ h. ground arith)
status_in_flight s (some awaiting_merge) = (λ h. ground arith, λ h. ground arith)
status_in_flight s (some master_triage) = (λ h. ground arith, λ h. ground arith)
status_in_flight s (some merged) = (λ h. ground arith, λ h. ground arith)
status_in_flight s (some closed) = (λ h. ground arith, λ h. ground arith)
status_in_flight s (some (unrecognised t)) = (λ h. ground arith, λ h. ground arith)

-- Work is called in flight exactly when an executor runs it within its lifetime, or the issue is
-- open and its row is one that a part of the daemon serves.
pub classify_issue_state-in_flight_iff :
    (s : IssueSnapshot)
    → (classify_issue_state s ≡ in_flight) ↔ (
        ((s.in_flight ≡ true) × (s.wedged ≡ false))
        ⊎ ((s.in_flight ≡ false) × IsServed s s.run_status × (is_open s.issue_state ≡ true)))
unfolding classify_issue_state
classify_issue_state-in_flight_iff s = (
  λ h. ground (arith, status_in_flight s s.run_status),
  λ h. ground (arith, status_in_flight s s.run_status),
)

-- The row is paused, its label is on the issue and no answer has come yet.
abbrev pub AwaitsAnswer : IssueSnapshot → Option RunStatus → Type 0
AwaitsAnswer s (some awaiting_answer) =
    (includes s.labels label_awaiting_answer ≡ true) × (s.answered ≡ false)
AwaitsAnswer s (some review_maxed) =
    (includes s.labels label_review_maxed ≡ true) × (s.answered ≡ false)
AwaitsAnswer s _ = ⊥

status_awaiting_human :
    (s : IssueSnapshot) (r : Option RunStatus)
    → HoldsIssue r
    → classify_status s r ≡ awaiting_human
    → AwaitsAnswer s r × (s.resumable ≡ false) × (is_open s.issue_state ≡ true)
unfolding classify_status classify_paused classify_by_labels polled is_non_terminal_status
status_awaiting_human s none k h = ground arith
status_awaiting_human s (some running) k h = ground arith
status_awaiting_human s (some awaiting_answer) k h = ground arith
status_awaiting_human s (some agent_stuck) k h = ground arith
status_awaiting_human s (some review_maxed) k h = ground arith
status_awaiting_human s (some awaiting_ci) k h = ground arith
status_awaiting_human s (some awaiting_merge) k h = ground arith
status_awaiting_human s (some master_triage) k h = ground arith
status_awaiting_human s (some merged) k h = ground arith
status_awaiting_human s (some closed) k h = ground arith
status_awaiting_human s (some (unrecognised t)) k h = ground arith

-- A run that holds its issue is left to a human only where the human can see and answer it: the
-- issue is open, it carries the label of the pause, and the question has no answer.
pub classify_issue_state-awaiting_human :
    (s : IssueSnapshot)
    → HoldsIssue s.run_status
    → classify_issue_state s ≡ awaiting_human
    → AwaitsAnswer s s.run_status × (s.resumable ≡ false) × (is_open s.issue_state ≡ true)
unfolding classify_issue_state
classify_issue_state-awaiting_human s k h = ground (arith, status_awaiting_human s s.run_status k)

-- A span is closed only for a status that no longer holds its issue; the two tests differ exactly
-- on `agent-stuck`.
pub is_span_closed-is_non_terminal_status :
    (status : RunStatus)
    → (is_span_closed status ≡ not (is_non_terminal_status status)) ⊎ (status ≡ agent_stuck)
unfolding is_span_closed is_non_terminal_status
is_span_closed-is_non_terminal_status running = inl refl
is_span_closed-is_non_terminal_status awaiting_answer = inl refl
is_span_closed-is_non_terminal_status agent_stuck = inr refl
is_span_closed-is_non_terminal_status review_maxed = inl refl
is_span_closed-is_non_terminal_status awaiting_ci = inl refl
is_span_closed-is_non_terminal_status awaiting_merge = inl refl
is_span_closed-is_non_terminal_status master_triage = inl refl
is_span_closed-is_non_terminal_status merged = inl refl
is_span_closed-is_non_terminal_status closed = inl refl
is_span_closed-is_non_terminal_status (unrecognised t) = inl refl
