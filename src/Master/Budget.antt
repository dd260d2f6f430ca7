-- ===== src/Master/Budget.antt =====
-- master/budget.ts and the part of master/engine.ts that applies it: how many interventions a phase
-- may have, which resolutions are forbidden, and which attempt the engine opens.
pub mod Bound
pub mod Forbidden
use ralph_autopilot.Common.{
  ℕ, suc, String, Bool, true, false, not, ◌+◌, ◌-◌, ◌&&◌, ◌||◌, ◌==◌, ◌===◌, ltb, leb, Option, none,
  some, List, [], ◌∷◌, ◌++◌, find, filter, length, includes, is_some, if◌then◌else◌,
}
use ralph_autopilot.Common.Int.{ℤ}
use ralph_autopilot.Master.History.{
  MasterInterventionRecord, MasterHistory, AwaitingHuman, is_attempt, interventions_in_phase,
}

abbrev max_master_interventions_per_phase : ℕ
max_master_interventions_per_phase = 2

abbrev final_adjudication_resolutions : List String
final_adjudication_resolutions = "ask-human" ∷ "terminal-stuck" ∷ []

abbrev autonomous_resolutions : List String
autonomous_resolutions = "resolved-and-continue" ∷ "redispatch-tier-1" ∷ "retry-pipeline" ∷ []

pub record Allowance : Type 0 where
  pub attempt : ℕ
  pub spent : ℕ
  pub remaining : ℕ
  pub repeated_signature : Bool
  pub forbidden_resolutions : List String
  pub final_attempt : Bool

pub data MasterBudgetVerdict : Type 0 where
  allowed : Allowance → MasterBudgetVerdict
  exhausted : ℕ → List MasterInterventionRecord → MasterBudgetVerdict

-- `[...new Set(xs)]`, with what is already in the set.
pub unique_after : List String → List String → List String
unique_after seen [] = []
unique_after seen (x ∷ xs) =
    let skip = unique_after seen xs in
    let keep = x ∷ unique_after (x ∷ seen) xs in if includes seen x then skip else keep

abbrev unique : List String → List String
unfolding unique_after
unique xs = unique_after [] xs

-- The resolutions that were decided.
pub decided : List MasterInterventionRecord → List String
decided [] = []
decided (i ∷ is) = elim i.resolution [ none ↦ decided is | some r ↦ r ∷ decided is ]

allowance : List MasterInterventionRecord → List MasterInterventionRecord → Allowance
unfolding unique_after decided
allowance in_phase same_signature = record {
  attempt = length in_phase + 1;
  spent = length in_phase;
  remaining = max_master_interventions_per_phase - (length in_phase + 1);
  repeated_signature = ltb 0 (length same_signature);
  forbidden_resolutions =
      if ltb 0 (length same_signature) then unique (decided same_signature) else [];
  final_attempt = leb max_master_interventions_per_phase (length in_phase + 1);
}

unfoldable pub evaluate_master_budget : MasterHistory → String → String → MasterBudgetVerdict
unfolding interventions_in_phase allowance
evaluate_master_budget h phase signature =
    let in_phase = interventions_in_phase h phase in
    if leb max_master_interventions_per_phase (length in_phase)
    then exhausted (length in_phase) in_phase
    else allowed (allowance in_phase (filter (λ i. i.signature === signature) in_phase))

inherited : MasterBudgetVerdict → List String
inherited (allowed a) = a.forbidden_resolutions
inherited (exhausted spent prior) = autonomous_resolutions

is_repeated : MasterBudgetVerdict → Bool
is_repeated (allowed a) = a.repeated_signature
is_repeated (exhausted spent prior) = true

-- `i !== open` is by identity; a record of the history has no other with its attempt and phase.
pub without : MasterHistory → MasterInterventionRecord → MasterHistory
without h current = record h {
  interventions = filter (λ i. not (is_attempt current.attempt current.phase i)) h.interventions;
}

-- Attempts count from 1, so `open.attempt - 1` is not negative.
pub readopted_attempt_budget : MasterHistory → MasterInterventionRecord → Bool → MasterBudgetVerdict
unfolding evaluate_master_budget without inherited is_repeated unique_after
readopted_attempt_budget h current human_resumed =
    let base = evaluate_master_budget (without h current) current.phase current.signature in
    allowed (record {
      attempt = current.attempt;
      spent = current.attempt - 1;
      remaining = max_master_interventions_per_phase - current.attempt;
      repeated_signature = is_repeated base;
      forbidden_resolutions =
          if human_resumed || ltb 0 current.human_resumes
          then unique (inherited base ++ "ask-human" ∷ [])
          else inherited base;
      final_attempt = leb max_master_interventions_per_phase current.attempt;
    })

pub resolution_allowed : MasterBudgetVerdict → String → Bool
resolution_allowed (exhausted spent prior) resolution =
    includes final_adjudication_resolutions resolution
resolution_allowed (allowed a) resolution = not (includes a.forbidden_resolutions resolution)

-- `resumedAttempt` of the engine.
pub resumed_attempt : MasterHistory → Bool → Option MasterInterventionRecord
resumed_attempt h answered =
    if answered
    then elim h.awaiting_human [
      | none ↦ none
      | some w ↦ find (is_attempt w.attempt w.phase) h.interventions
    ]
    else none

first_of :
    Option MasterInterventionRecord
    → Option MasterInterventionRecord
    → Option MasterInterventionRecord
first_of none other = other
first_of (some i) other = some i

-- `open`: `resumedAttempt ?? history.inProgress`
pub open_attempt : MasterHistory → Bool → Option MasterInterventionRecord
unfolding resumed_attempt first_of
open_attempt h answered = first_of (resumed_attempt h answered) h.in_progress

session_verdict :
    MasterHistory → Option MasterInterventionRecord → Bool → String → String → MasterBudgetVerdict
unfolding readopted_attempt_budget evaluate_master_budget
session_verdict h (some i) resumed phase signature = readopted_attempt_budget h i resumed
session_verdict h none resumed phase signature = evaluate_master_budget h phase signature

-- `budget` of the engine, for a request with this phase and signature.
unfoldable pub session_budget : MasterHistory → Bool → String → String → MasterBudgetVerdict
unfolding session_verdict open_attempt resumed_attempt
session_budget h answered phase signature =
    session_verdict h (open_attempt h answered) (is_some (resumed_attempt h answered)) phase
      signature

-- `open?.phase ?? request.phase`
phase_of : Option MasterInterventionRecord → String → String
phase_of none phase = phase
phase_of (some i) phase = i.phase

unfoldable pub session_phase : MasterHistory → Bool → String → String
unfolding phase_of open_attempt
session_phase h answered phase = phase_of (open_attempt h answered) phase

-- A session appends `MasterInterventionStarted` unless it re-adopts an attempt with no answer.
unfoldable pub opens_attempt : MasterHistory → Bool → Bool
unfolding open_attempt resumed_attempt
opens_attempt h answered =
    not (is_some (open_attempt h answered)) || is_some (resumed_attempt h answered)
