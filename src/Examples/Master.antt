-- ===== src/Examples/Master.antt =====
-- Runs of master/history.ts, budget.ts, queue.ts and lease.ts.
use ralph_autopilot.Common.{
  ◌≡◌, refl, ◌===◌, ◌==◌, not, true, false, none, some, List, [], ◌∷◌, String, ℕ, map, any, foldl,
}
use ralph_autopilot.Common.Json.{Json, obj, num, str, member, end, lookup}
use ralph_autopilot.Store.Types.{Run, RunStatus, Mode}
use ralph_autopilot.Master.History.{
  RecordedStreamEvent, MasterInterventionRecord, str_field, num_field, fold_master_event,
  fold_master_history, interventions_in_phase,
}
use ralph_autopilot.Master.History.Keys.{IsKeyed, key_of}
use ralph_autopilot.Master.History.Keyed.{fold_master_history-IsKeyed}
use ralph_autopilot.Master.Budget.{
  Allowance, evaluate_master_budget, readopted_attempt_budget, resolution_allowed, session_budget,
  session_phase, opens_attempt,
}
use ralph_autopilot.Master.Budget.Bound.{Recorded, Numbered, fold_master_history-Numbered}
use ralph_autopilot.Master.Budget.Forbidden.{
  was_tried, evaluate_master_budget-resolution_allowed, readopted_attempt_budget-ask_human,
  answered-asks_once,
}
use ralph_autopilot.Master.Queue.{MasterQueueWorld, select_master_task}
use ralph_autopilot.Master.Queue.First.{Justifies, select_master_task-Justifies}
use ralph_autopilot.Master.Lease.{MasterLease, new_lease, release}
use ralph_autopilot.Master.Lease.Exclusive.{
  acquires, releases, call, IsExclusive, calls-IsExclusive, release-frees,
}

abbrev payload_of : ℕ → String → Json
payload_of attempt phase = obj (
    member "attempt" (num attempt) (
      member "phase" (str phase)
        (member "signature" (str "ci|impl|x") (member "resolution" (str "ask-human") end))))

abbrev run_start : RecordedStreamEvent
run_start = record { event_type = "RunStarted"; payload = obj end }

abbrev session_one : RecordedStreamEvent
session_one = record { event_type = "MasterInterventionStarted"; payload = payload_of 1 "impl" }

abbrev asked : RecordedStreamEvent
asked = record { event_type = "MasterHumanQuestionRequested"; payload = payload_of 1 "impl" }

abbrev chosen : RecordedStreamEvent
chosen = record { event_type = "MasterResolutionSelected"; payload = payload_of 1 "impl" }

abbrev completed_one : RecordedStreamEvent
completed_one = record { event_type = "MasterInterventionCompleted"; payload = payload_of 1 "impl" }

abbrev events : List RecordedStreamEvent
events = run_start ∷ session_one ∷ chosen ∷ asked ∷ []

history_example : IsKeyed (fold_master_history events)
history_example = fold_master_history-IsKeyed events

abbrev first_allowance : Allowance
first_allowance = record {
  attempt = 1;
  spent = 0;
  remaining = 1;
  repeated_signature = false;
  forbidden_resolutions = [];
  final_attempt = false;
}

session_stream : Recorded (run_start ∷ session_one ∷ [])
unfolding fold_master_history session_budget session_phase opens_attempt str_field num_field lookup
    ◌===◌
session_stream =
    Recorded.session (run_start ∷ []) session_one (Recorded.other [] run_start Recorded.empty refl)
      false "impl" "ci|impl|x" first_allowance refl refl refl refl refl

bound_example : Numbered (
    map
      (λ i. i.attempt)
      (interventions_in_phase (fold_master_history (run_start ∷ session_one ∷ [])) "impl"))
bound_example = fold_master_history-Numbered (run_start ∷ session_one ∷ []) session_stream "impl"

abbrev closed_events : List RecordedStreamEvent
closed_events = run_start ∷ session_one ∷ chosen ∷ completed_one ∷ []

abbrev second_allowance : Allowance
second_allowance = record {
  attempt = 2;
  spent = 1;
  remaining = 0;
  repeated_signature = true;
  forbidden_resolutions = "ask-human" ∷ [];
  final_attempt = true;
}

repeat_example :
    resolution_allowed
      (evaluate_master_budget (fold_master_history closed_events) "impl" "ci|impl|x")
      "ask-human"
    ≡ not (
        any
          (was_tried "impl" "ci|impl|x" "ask-human")
          (fold_master_history closed_events).interventions)
unfolding fold_master_history evaluate_master_budget str_field num_field lookup ◌===◌
repeat_example =
    evaluate_master_budget-resolution_allowed (fold_master_history closed_events) "impl" "ci|impl|x"
      "ask-human" second_allowance refl

abbrev asking : MasterInterventionRecord
asking = record {
  run_id = "";
  attempt = 1;
  phase = "impl";
  signature = "ci|impl|x";
  source = none;
  lane = none;
  headline = none;
  resolution = some "ask-human";
  rationale = some "";
  conclusion = none;
  outcome = none;
  completed = false;
  human_resumes = 0;
}

ask_example :
    resolution_allowed
      (readopted_attempt_budget (fold_master_history events) asking true)
      "ask-human"
    ≡ false
ask_example = readopted_attempt_budget-ask_human (fold_master_history events) asking true refl

answered_example :
    (cur : MasterInterventionRecord) × ((fold_master_event
        (fold_master_history events)
        session_one).in_progress
      ≡ some cur)
    × (key_of cur ≡ key_of asking)
    × (resolution_allowed
          (readopted_attempt_budget
            (fold_master_event (fold_master_history events) session_one)
            cur
            false)
          "ask-human"
        ≡ false)
unfolding fold_master_history str_field num_field lookup ◌===◌
answered_example =
    answered-asks_once (fold_master_history events) session_one
      (record { attempt = 1; phase = "impl" }) asking refl refl refl refl refl

abbrev queued_run : Run
queued_run = record {
  id = 1;
  repo = "o/r";
  issue_number = 7;
  mode = Mode.tdd;
  tier = none;
  status = RunStatus.master_triage;
  branch = none;
  worktree_path = none;
  pr_number = none;
  issue_title = none;
  runner_pushed_sha = none;
  created_at = "2026-01-01";
  updated_at = "2026-01-01";
}

abbrev queue_world : MasterQueueWorld
queue_world = record {
  queued = queued_run ∷ record queued_run { issue_number = 8 } ∷ [];
  is_busy = λ n. n == 7;
  has_capacity = true;
  master_lease_held = false;
}

queue_example : Justifies queue_world (select_master_task queue_world)
queue_example = select_master_task-Justifies queue_world

lease_example : IsExclusive (
    foldl call new_lease
      (acquires "a" ∷ acquires "b" ∷ releases 0 ∷ acquires "a" ∷ releases 0 ∷ []))
lease_example =
    calls-IsExclusive (acquires "a" ∷ acquires "b" ∷ releases 0 ∷ acquires "a" ∷ releases 0 ∷ [])

abbrev held_lease : MasterLease
held_lease = record {
  holder = some "a";
  handles = record { key = "a"; released = true } ∷ record { key = "a"; released = false } ∷ [];
}

frees_example : (release held_lease 1).holder ≡ none
unfolding release
frees_example = release-frees held_lease 1 (record { key = "a"; released = false }) refl refl refl
