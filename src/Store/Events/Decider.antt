-- ===== src/Store/Events/Decider.antt =====
-- store/events/decider.ts: `initialIssueState`, `evolve`, the commands and `decide`, for one issue.
-- The child module is about what the two do together.
pub mod Commands
use ralph_autopilot.Common.{
  ℕ, suc, ◌+◌, String, Bool, true, false, Option, none, some, if◌then◌else◌,
}
use ralph_autopilot.Store.Types.{
  RunStatus, PhaseRoute, Phase, phase0, phase1, phase2, phase_eq, running, awaiting_answer,
  awaiting_ci, awaiting_merge, agent_stuck, master_triage,
}
use ralph_autopilot.Store.Events.EventTypes.{
  IssueEvent, RunOutcome, RunStarted, PrOpened, Escalated, QuestionAnswered, RunOnly, RunPhase,
  RouteResolved, RunStuck, RunEnded, MasterTriageRequested, ComplexityPromoted,
  MasterInterventionStarted, MasterResolutionSelected, MasterInterventionCompleted,
  DecisionPublished, MasterHumanQuestionRequested, MasterStuck, run_started, pr_opened, escalated,
  question_answered, resumed, fix_attempted, review_phase_entered, review_phase_passed,
  review_passed, ci_awaited, route_resolved, run_stuck, run_ended, anomaly_detected,
  anomaly_cleared, master_triage_requested, complexity_promoted, master_intervention_started,
  master_resolution_selected, master_intervention_completed, decision_published,
  master_human_question_requested, master_stuck,
}

-- A run's status, or `none` before any run.
pub data IssueLifecycle : Type 0 where
  no_run : IssueLifecycle
  status : RunStatus → IssueLifecycle

-- `Record<Phase, number>`.
pub record FixAttempts : Type 0 where
  pub at0 : ℕ
  pub at1 : ℕ
  pub at2 : ℕ

abbrev pub attempts_of : FixAttempts → Phase → ℕ
attempts_of f phase0 = f.at0
attempts_of f phase1 = f.at1
attempts_of f phase2 = f.at2

abbrev pub set_attempts : FixAttempts → Phase → ℕ → FixAttempts
set_attempts f phase0 n = record f { at0 = n }
set_attempts f phase1 n = record f { at1 = n }
set_attempts f phase2 n = record f { at2 = n }

abbrev pub no_attempts : FixAttempts
no_attempts = record { at0 = 0; at1 = 0; at2 = 0 }

pub record IssueState : Type 0 where
  pub lifecycle : IssueLifecycle
  pub run_id : Option String
  pub pr_number : Option ℕ
  pub fix_attempts : FixAttempts
  pub anomaly : Option String
  pub ended : Bool
  pub route : Option PhaseRoute

unfoldable pub initial_issue_state : IssueState
initial_issue_state = record {
  lifecycle = no_run;
  run_id = none;
  pr_number = none;
  fix_attempts = no_attempts;
  anomaly = none;
  ended = false;
  route = none;
}

abbrev is_closed : RunOutcome → Bool
is_closed RunOutcome.closed = true
is_closed _ = false

-- Fold one event. The last clause is both the visibility facts and the tolerant `default`.
unfoldable pub evolve : IssueState → IssueEvent → IssueState
evolve s (run_started d) = record {
  lifecycle = status running;
  run_id = some d.run_id;
  pr_number = none;
  fix_attempts = no_attempts;
  anomaly = s.anomaly;
  ended = false;
  route = none;
}
evolve s (pr_opened d) = record s { pr_number = some d.pr_number }
evolve s (escalated d) = record s { lifecycle = status awaiting_answer }
evolve s (resumed d) = record s { lifecycle = status running }
evolve s (fix_attempted d) = record s {
  fix_attempts = set_attempts s.fix_attempts d.phase (attempts_of s.fix_attempts d.phase + 1);
}
evolve s (review_phase_entered d) = record s {
  fix_attempts = set_attempts s.fix_attempts d.phase 0;
}
evolve s (review_passed d) = record s { lifecycle = status awaiting_merge }
evolve s (ci_awaited d) = record s { lifecycle = status awaiting_ci }
evolve s (route_resolved d) = record s { route = some d.route }
evolve s (IssueEvent.review_maxed d) = record s { lifecycle = status RunStatus.review_maxed }
evolve s (run_stuck d) = record s { lifecycle = status agent_stuck }
evolve s (IssueEvent.merged d) = record s {
  lifecycle = status RunStatus.merged;
  pr_number = some d.pr_number;
}
evolve s (run_ended d) =
    if is_closed d.outcome
    then record s { lifecycle = status RunStatus.closed; ended = true }
    else record s { ended = true }
evolve s (anomaly_detected reason) = record s { anomaly = some reason }
evolve s anomaly_cleared = record s { anomaly = none }
evolve s (master_triage_requested d) = record s { lifecycle = status master_triage }
evolve s (master_intervention_started d) = record s { lifecycle = status master_triage }
evolve s (master_stuck d) = record s { lifecycle = status agent_stuck }
evolve s _ = s

pub data IssueCommand : Type 0 where
  start_run : RunStarted → IssueCommand
  open_pr : PrOpened → IssueCommand
  escalate : Escalated → IssueCommand
  answer_question : QuestionAnswered → IssueCommand
  resume : RunOnly → IssueCommand
  record_fix_attempt : RunPhase → IssueCommand
  enter_review_phase : RunPhase → IssueCommand
  record_route : RouteResolved → IssueCommand
  pass_review_phase : RunPhase → IssueCommand
  max_review : RunPhase → IssueCommand
  mark_stuck : RunStuck → IssueCommand
  record_merge : PrOpened → IssueCommand
  end_run : RunEnded → IssueCommand
  detect_anomaly : String → IssueCommand
  clear_anomaly : IssueCommand
  request_master_triage : MasterTriageRequested → IssueCommand
  promote_complexity : ComplexityPromoted → IssueCommand
  start_master_intervention : MasterInterventionStarted → IssueCommand
  select_master_resolution : MasterResolutionSelected → IssueCommand
  complete_master_intervention : MasterInterventionCompleted → IssueCommand
  publish_decision : DecisionPublished → IssueCommand
  request_human_question : MasterHumanQuestionRequested → IssueCommand
  mark_master_stuck : MasterStuck → IssueCommand

-- `IssueCommandError` carries a message; that it was thrown is what the model keeps.
pub data Decision : Type 0 where
  emits : IssueEvent → Decision
  issue_command_error : Decision

-- `requireRun` and then the event.
require_run : IssueLifecycle → IssueEvent → Decision
require_run no_run e = issue_command_error
require_run (status _) e = emits e

unfoldable pub decide : IssueCommand → IssueState → Decision
unfolding require_run
decide (start_run d) s = emits (run_started d)
decide (open_pr d) s = require_run s.lifecycle (pr_opened d)
decide (escalate d) s = require_run s.lifecycle (escalated d)
decide (answer_question d) s = emits (question_answered d)
decide (resume d) s = require_run s.lifecycle (resumed d)
decide (record_fix_attempt d) s = require_run s.lifecycle (fix_attempted d)
decide (enter_review_phase d) s = require_run s.lifecycle (review_phase_entered d)
decide (record_route d) s = require_run s.lifecycle (route_resolved d)
decide (pass_review_phase d) s = require_run s.lifecycle (review_phase_passed d)
decide (max_review d) s = require_run s.lifecycle (IssueEvent.review_maxed d)
decide (mark_stuck d) s = require_run s.lifecycle (run_stuck d)
decide (record_merge d) s = require_run s.lifecycle (IssueEvent.merged d)
decide (end_run d) s = require_run s.lifecycle (run_ended d)
decide (detect_anomaly reason) s = emits (anomaly_detected reason)
decide clear_anomaly s = emits anomaly_cleared
decide (request_master_triage d) s = require_run s.lifecycle (master_triage_requested d)
decide (promote_complexity d) s = emits (complexity_promoted d)
decide (start_master_intervention d) s = require_run s.lifecycle (master_intervention_started d)
decide (select_master_resolution d) s = require_run s.lifecycle (master_resolution_selected d)
decide (complete_master_intervention d) s =
    require_run s.lifecycle (master_intervention_completed d)
decide (publish_decision d) s = require_run s.lifecycle (decision_published d)
decide (request_human_question d) s = require_run s.lifecycle (master_human_question_requested d)
decide (mark_master_stuck d) s = require_run s.lifecycle (master_stuck d)
