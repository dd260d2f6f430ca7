-- ===== src/Store/Events/EventTypes.antt =====
-- store/events/event-types.ts: the issue-stream events and what each carries.
use ralph_autopilot.Common.{ℕ, String, Option}
use ralph_autopilot.Common.Json.{Members}
use ralph_autopilot.Store.Types.{
  Mode, ComplexityTier, PhaseRoute, MasterRequestSource, MasterLane, MasterResolution, Phase,
  QuestionKind,
}

pub data RunOutcome : Type 0 where
  merged stuck abandoned closed : RunOutcome

-- A property that is optional and nullable is one `Option`.
pub record RunStarted : Type 0 where
  pub run_id : String
  pub mode : Mode
  pub branch : Option String
  pub worktree_path : Option String

pub record PrOpened : Type 0 where
  pub run_id : String
  pub pr_number : ℕ

pub record Escalated : Type 0 where
  pub run_id : String
  pub kind : QuestionKind
  pub comment_id : Option ℕ
  pub headline : Option String
  pub phase : Option Phase

pub record QuestionAnswered : Type 0 where
  pub run_id : String
  pub comment_id : Option ℕ

-- The payload of the events that carry the run alone: Resumed, ReviewPassed, CiAwaited.
pub record RunOnly : Type 0 where
  pub run_id : String

-- FixAttempted, ReviewPhaseEntered, ReviewPhasePassed, ReviewMaxed.
pub record RunPhase : Type 0 where
  pub run_id : String
  pub phase : Phase

pub record RouteResolved : Type 0 where
  pub run_id : String
  pub phase : String
  pub route : PhaseRoute

pub record RunStuck : Type 0 where
  pub run_id : String
  pub reason : String

pub record RunEnded : Type 0 where
  pub run_id : String
  pub outcome : RunOutcome

pub record MasterTriageRequested : Type 0 where
  pub run_id : String
  pub source : MasterRequestSource
  pub phase : String
  pub lane : MasterLane
  pub signature : String
  pub headline : String
  pub recommendation : Option String
  pub pr_number : Option ℕ

pub record ComplexityPromoted : Type 0 where
  pub tier : ComplexityTier
  pub from : Option ComplexityTier

pub record MasterInterventionStarted : Type 0 where
  pub run_id : String
  pub attempt : ℕ
  pub phase : String
  pub signature : String
  pub source : Option MasterRequestSource
  pub lane : Option MasterLane
  pub headline : Option String

pub record MasterResolutionSelected : Type 0 where
  pub run_id : String
  pub attempt : ℕ
  pub phase : String
  pub resolution : MasterResolution
  pub rationale : String
  pub conclusion : Option String
  pub outcome : Option Members

pub record MasterInterventionCompleted : Type 0 where
  pub run_id : String
  pub attempt : ℕ
  pub phase : String
  pub resolution : MasterResolution

pub record DecisionPublished : Type 0 where
  pub run_id : String
  pub decision_id : String
  pub key : String
  pub scope : String
  pub node : String
  pub comment_id : ℕ

pub record MasterHumanQuestionRequested : Type 0 where
  pub run_id : String
  pub attempt : ℕ
  pub phase : String
  pub headline : String

pub record MasterStuck : Type 0 where
  pub run_id : String
  pub attempt : ℕ
  pub reason : String

pub record HostedReviewThreadReplied : Type 0 where
  pub run_id : String
  pub thread_id : String
  pub comment_hash : String
  pub head_sha : String
  pub reply_id : String

pub data Disposition : Type 0 where
  fixed reasoned_invalid : Disposition

pub record HostedReviewThreadResolved : Type 0 where
  pub run_id : String
  pub thread_id : String
  pub comment_hash : String
  pub head_sha : String
  pub disposition : Disposition
  pub rationale : String

pub record HostedReviewObserved : Type 0 where
  pub run_id : String
  pub head_sha : String
  pub unresolved : ℕ
  pub human_threads : ℕ
  pub unknown_bots : ℕ

-- `unknown` is an event type that only a later version mints: the readers are tolerant of it.
pub data IssueEvent : Type 0 where
  run_started : RunStarted → IssueEvent
  pr_opened : PrOpened → IssueEvent
  escalated : Escalated → IssueEvent
  question_answered : QuestionAnswered → IssueEvent
  resumed : RunOnly → IssueEvent
  fix_attempted : RunPhase → IssueEvent
  review_phase_entered : RunPhase → IssueEvent
  review_phase_passed : RunPhase → IssueEvent
  review_passed : RunOnly → IssueEvent
  ci_awaited : RunOnly → IssueEvent
  route_resolved : RouteResolved → IssueEvent
  review_maxed : RunPhase → IssueEvent
  run_stuck : RunStuck → IssueEvent
  merged : PrOpened → IssueEvent
  run_ended : RunEnded → IssueEvent
  anomaly_detected : String → IssueEvent
  anomaly_cleared : IssueEvent
  master_triage_requested : MasterTriageRequested → IssueEvent
  complexity_promoted : ComplexityPromoted → IssueEvent
  master_intervention_started : MasterInterventionStarted → IssueEvent
  master_resolution_selected : MasterResolutionSelected → IssueEvent
  master_intervention_completed : MasterInterventionCompleted → IssueEvent
  decision_published : DecisionPublished → IssueEvent
  master_human_question_requested : MasterHumanQuestionRequested → IssueEvent
  master_stuck : MasterStuck → IssueEvent
  hosted_review_thread_replied : HostedReviewThreadReplied → IssueEvent
  hosted_review_thread_resolved : HostedReviewThreadResolved → IssueEvent
  hosted_review_observed : HostedReviewObserved → IssueEvent
  unknown : String → IssueEvent
