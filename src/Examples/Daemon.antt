-- ===== src/Examples/Daemon.antt =====
-- Runs of daemon/completeness.ts.
use ralph_autopilot.Common.{◌≡◌, ◌↔◌, ◌⊎◌, refl, ◌===◌, not, true, false, some, [], ◌∷◌}
use ralph_autopilot.Store.Types.{agent_stuck, awaiting_answer, awaiting_merge, merged}
use ralph_autopilot.Daemon.Completeness.{
  IssueSnapshot, open_issue, gone, is_open, eligible, in_flight, terminal, classify_issue_state,
  is_span_closed, is_non_terminal_status,
}
use ralph_autopilot.Daemon.Completeness.Verdicts.{
  HoldsIssue, IsServed, AwaitsAnswer, classify_issue_state-terminal_iff,
  classify_issue_state-eligible_iff, classify_issue_state-in_flight_iff,
  classify_issue_state-awaiting_human, is_span_closed-is_non_terminal_status,
}

abbrev parked : IssueSnapshot
parked = record {
  issue_number = 7;
  issue_state = open_issue;
  labels = "awaiting-answer" ∷ [];
  run_status = some awaiting_answer;
  in_flight = false;
  wedged = false;
  gate_eligible = false;
  resumable = false;
  answered = false;
  master_unroutable = false;
}

abbrev vanished : IssueSnapshot
vanished = record parked { issue_state = gone; labels = []; run_status = some awaiting_merge }

abbrev done : IssueSnapshot
done = record vanished { run_status = some merged }

terminal_example : (classify_issue_state done ≡ terminal) ↔ (
    (done.in_flight ≡ false) × (¬ HoldsIssue done.run_status) × (is_open done.issue_state ≡ false))
terminal_example = classify_issue_state-terminal_iff done

eligible_example : (classify_issue_state done ≡ eligible) ↔ (
    (done.in_flight ≡ false)
    × (¬ HoldsIssue done.run_status)
    × (is_open done.issue_state ≡ true)
    × (done.gate_eligible ≡ true))
eligible_example = classify_issue_state-eligible_iff done

in_flight_example : (classify_issue_state parked ≡ in_flight) ↔ (
    ((parked.in_flight ≡ true) × (parked.wedged ≡ false))
    ⊎ ((parked.in_flight ≡ false)
        × IsServed parked parked.run_status
        × (is_open parked.issue_state ≡ true)))
in_flight_example = classify_issue_state-in_flight_iff parked

parked_example :
    AwaitsAnswer parked parked.run_status
    × (parked.resumable ≡ false)
    × (is_open parked.issue_state ≡ true)
unfolding classify_issue_state is_non_terminal_status ◌===◌
parked_example = classify_issue_state-awaiting_human parked refl refl

span_example :
    (is_span_closed merged ≡ not (is_non_terminal_status merged)) ⊎ (merged ≡ agent_stuck)
span_example = is_span_closed-is_non_terminal_status merged
