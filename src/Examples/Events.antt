-- ===== src/Examples/Events.antt =====
-- Runs of store/events: a log of one issue, its fold, its row and its stream.
use ralph_autopilot.Common.{
  ◌≡◌, ◌↔◌, refl, String, false, none, some, List, [], ◌∷◌, any, length, Text, codes, if◌then◌else◌,
  ◌+◌,
}
use ralph_autopilot.Store.Types.{Mode, ProviderName, phase1}
use ralph_autopilot.Store.Events.EventTypes.{
  IssueEvent, RunOutcome, run_started, pr_opened, fix_attempted, review_phase_entered,
  route_resolved, run_ended, anomaly_detected,
}
use ralph_autopilot.Store.Events.Streams.{IssueStreamRef, issue_stream_id, parse_issue_stream_id}
use ralph_autopilot.Store.Events.Streams.RoundTrip.{parse_issue_stream_id-issue_stream_id}
use ralph_autopilot.Store.Events.Decider.{
  IssueState, initial_issue_state, no_run, attempts_of, evolve, IssueCommand, start_run, open_pr,
  issue_command_error, decide,
}
use ralph_autopilot.Store.Events.Decider.Commands.{needs_no_run, decide-error_iff}
use ralph_autopilot.Store.Events.Projection.{
  fold_issue_state, projection_upsert_params, decode_projection_state, position_of,
}
use ralph_autopilot.Store.Events.Projection.Span.{
  resets, count_fixes, since, starts, ends, fix_attempts-fold_issue_state, ended-fold_issue_state,
}
use ralph_autopilot.Store.Events.Projection.Status.{LastWrites, fold_issue_state-LastWrites}
use ralph_autopilot.Store.Events.Projection.Columns.{decode-projection_upsert_params}
use ralph_autopilot.Store.Events.Projection.Lockstep.{
  Append, empty_table, materialise, log_of, materialise-fold_issue_state,
}

abbrev ref_seven : IssueStreamRef
ref_seven = record { repo = codes "o/r"; issue_number = 7 }

abbrev stream_seven : Text
stream_seven = codes "o/r#7"

abbrev start_of : String → IssueEvent
start_of run_id =
    run_started (record { run_id = run_id; mode = Mode.tdd; branch = none; worktree_path = none })

abbrev first_batch : List IssueEvent
first_batch =
    start_of "1"
    ∷ route_resolved (record {
      run_id = "1";
      phase = "impl";
      route = record { provider = ProviderName.zai; model = some "glm"; account = "main" };
    })
    ∷ pr_opened (record { run_id = "1"; pr_number = 31 })
    ∷ fix_attempted (record { run_id = "1"; phase = phase1 })
    ∷ []

abbrev second_batch : List IssueEvent
second_batch =
    fix_attempted (record { run_id = "1"; phase = phase1 })
    ∷ review_phase_entered (record { run_id = "1"; phase = phase1 })
    ∷ fix_attempted (record { run_id = "1"; phase = phase1 })
    ∷ anomaly_detected "lost"
    ∷ run_ended (record { run_id = "1"; outcome = RunOutcome.closed })
    ∷ []

abbrev appends : List Append
appends =
    record { stream = stream_seven; events = first_batch; now = "t0" }
    ∷ record { stream = codes "o/r#8"; events = start_of "2" ∷ []; now = "t1" }
    ∷ record { stream = codes "$daemon"; events = start_of "3" ∷ []; now = "t2" }
    ∷ record { stream = stream_seven; events = second_batch; now = "t3" }
    ∷ []

materialise_example :
    (decode_projection_state (materialise empty_table appends stream_seven)
      ≡ fold_issue_state (log_of stream_seven appends) initial_issue_state)
    × (position_of (materialise empty_table appends stream_seven)
        ≡ length (log_of stream_seven appends))
unfolding parse_issue_stream_id
materialise_example = materialise-fold_issue_state stream_seven ref_seven appends refl

abbrev after_first : IssueState
unfolding fold_issue_state evolve initial_issue_state
after_first = fold_issue_state first_batch initial_issue_state

fixes_since_entry :
    (fold_issue_state second_batch after_first).fix_attempts ≡ record { at0 = 0; at1 = 1; at2 = 0 }
unfolding fold_issue_state evolve initial_issue_state
fixes_since_entry = refl

columns_example :
    decode_projection_state
      (some (projection_upsert_params stream_seven ref_seven after_first 4 "t0"))
    ≡ after_first
columns_example = decode-projection_upsert_params stream_seven ref_seven after_first 4 "t0"

attempts_example : attempts_of (fold_issue_state second_batch after_first).fix_attempts phase1 ≡ (
    if any (resets phase1) second_batch
    then count_fixes phase1 (since (resets phase1) second_batch)
    else attempts_of after_first.fix_attempts phase1 + count_fixes phase1 second_batch)
attempts_example = fix_attempts-fold_issue_state phase1 second_batch after_first

ended_example :
    (fold_issue_state second_batch initial_issue_state).ended ≡ any ends (since starts second_batch)
ended_example = ended-fold_issue_state second_batch

writes_example : LastWrites second_batch after_first (fold_issue_state second_batch after_first)
writes_example = fold_issue_state-LastWrites second_batch after_first

abbrev start_command : IssueCommand
start_command =
    start_run
      (record { run_id = "1"; mode = Mode.ui; branch = some "ralph/7"; worktree_path = none })

refused_example :
    (decide (open_pr (record { run_id = "1"; pr_number = 31 })) initial_issue_state
      ≡ issue_command_error)
    ↔ ((initial_issue_state.lifecycle ≡ no_run)
        × (needs_no_run (open_pr (record { run_id = "1"; pr_number = 31 })) ≡ false))
refused_example =
    decide-error_iff (open_pr (record { run_id = "1"; pr_number = 31 })) initial_issue_state

stream_example :
    parse_issue_stream_id (issue_stream_id (codes "o/r") 7)
    ≡ some (record { repo = codes "o/r"; issue_number = 7 })
stream_example = parse_issue_stream_id-issue_stream_id 111 (codes "/r") 7 refl
