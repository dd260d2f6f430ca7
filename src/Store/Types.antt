-- ===== src/Store/Types.antt =====
-- store/types.ts: the vocabulary of runs, phases, routes and master escalation, and the row of a run.
use ralph_autopilot.Common.{ℕ, String, Bool, true, false, Option, List}

-- Implementation mode stamped on an issue at triage.
pub data Mode : Type 0 where
  tdd infra ui : Mode

-- Complexity tier, 1 the most demanding.
pub data ComplexityTier : Type 0 where
  tier1 tier2 tier3 : ComplexityTier

-- config/schema.ts `ProviderName`.
pub data ProviderName : Type 0 where
  claude openai zai : ProviderName

abbrev pub provider_name : ProviderName → String
provider_name claude = "claude"
provider_name openai = "openai"
provider_name zai = "zai"

-- The route that a phase's container was dispatched on.
pub record PhaseRoute : Type 0 where
  pub provider : ProviderName
  pub model : Option String
  pub account : String

-- Lifecycle status of a run. `unrecognised` is a string outside the union, which the casts at the
-- store's boundary let through (a corrupt store, a later version's status).
pub data RunStatus : Type 0 where
  running awaiting_answer agent_stuck review_maxed awaiting_ci awaiting_merge : RunStatus
  master_triage merged closed : RunStatus
  unrecognised : String → RunStatus

-- Which signal opened a master escalation.
pub data MasterRequestSource : Type 0 where
  escalate stuck review_maxed ci rebase merge hosted_review : MasterRequestSource
  run_wedged session_failed anomaly : MasterRequestSource

-- The lane that a master request came from.
pub data MasterLane : Type 0 where
  impl resume review fix master ci merge reconcile : MasterLane

-- The terminal outcomes of one master intervention.
pub data MasterResolution : Type 0 where
  resolved_and_continue redispatch_tier_1 retry_pipeline ask_human : MasterResolution
  terminal_stuck : MasterResolution

-- A pipeline phase: CI gate, normal review, behaviour-conserving review.
pub data Phase : Type 0 where
  phase0 phase1 phase2 : Phase

-- `p === q` on phases.
abbrev pub phase_eq : Phase → Phase → Bool
phase_eq phase0 phase0 = true
phase_eq phase1 phase1 = true
phase_eq phase2 phase2 = true
phase_eq _ _ = false

-- Kind of question surfaced to a human.
pub data QuestionKind : Type 0 where
  escalate heal_card : QuestionKind

-- One `## Blocked by` reference and whether it is satisfied: a number, or a cross-repo string.
pub data BlockerRef : Type 0 where
  local : ℕ → BlockerRef
  cross : List ℕ → BlockerRef

pub record BacklogBlockerRef : Type 0 where
  pub ref : BlockerRef
  pub satisfied : Bool

-- The row of a run.
pub record Run : Type 0 where
  pub id : ℕ
  pub repo : String
  pub issue_number : ℕ
  pub mode : Mode
  pub tier : Option ComplexityTier
  pub status : RunStatus
  pub branch : Option String
  pub worktree_path : Option String
  pub pr_number : Option ℕ
  pub issue_title : Option String
  pub runner_pushed_sha : Option String
  pub created_at : String
  pub updated_at : String
