-- ===== src/Core/Admission.antt =====
-- core/admission.ts: the scheduling order and the launch plan, over the gate of the child module.
-- Only passes that run to their end are modelled: a lookup that throws ends the pass with no plan.
pub mod Gate
pub mod Order
pub mod Plan
pub mod Safety
use ralph_autopilot.Common.{
  ℕ, suc, String, Bool, true, false, not, ◌&&◌, Option, none, some, List, [], ◌∷◌, ◌++◌, map, any,
  take, length, includes, ◌==◌, ◌===◌, ltb, if◌then◌else◌, starts_with, Ordering, compare,
  text_compare, Text, is_some,
}
use ralph_autopilot.Common.Sort.{sort}
use ralph_autopilot.Common.Order.{then_by, not_after, rank_compare}
use ralph_autopilot.Common.Int.{ℤ, max_zero}
use ralph_autopilot.Store.Types.{
  Mode, RunStatus, agent_stuck, merged, closed, Run, BacklogBlockerRef, local, cross,
}
use ralph_autopilot.Github.Types.{Issue, IssueState, open_issue, closed_issue}
use ralph_autopilot.Github.Blocked.{parse_blocked_by}
use ralph_autopilot.Core.Labels.{
  label_ready, label_afk, label_hitl, log_label_prefix, is_paused_label, read_mode,
}
use ralph_autopilot.Core.Admission.Gate.{
  DepCache, GateReason, GateResult, Port, blocked, eligible, empty_cache, gate_one, ineligible,
}

-- RE_ADMITTABLE_STATUSES
unfoldable pub re_admittable : RunStatus → Bool
re_admittable agent_stuck = true
re_admittable merged = true
re_admittable closed = true
re_admittable _ = false

abbrev is_agent_stuck : RunStatus → Bool
is_agent_stuck agent_stuck = true
is_agent_stuck _ = false

-- SPAN_CLOSED_STATUSES: the re-admittable ones but `agent-stuck`.
unfoldable pub span_closed : RunStatus → Bool
unfolding re_admittable
span_closed s = re_admittable s && not (is_agent_stuck s)

pub data ExclusionReason : Type 0 where
  gate : GateReason → ExclusionReason
  blocked_by : List BacklogBlockerRef → ExclusionReason
  in_flight held no_provider no_memory : ExclusionReason

pub record ExcludedIssue : Type 0 where
  pub issue : Issue
  pub reason : ExclusionReason

pub record PickedIssue : Type 0 where
  pub issue : Issue
  pub mode : Mode

pub record LaunchPlan : Type 0 where
  pub picked : List PickedIssue
  pub eligible : List PickedIssue
  pub excluded : List ExcludedIssue

pub record World : Type 0 where
  pub is_in_flight : ℕ → Bool
  pub get_run : ℕ → Option Run
  pub is_dependency_satisfied : Port
  pub open_slots : ℤ
  pub priority_labels : List String
  pub has_impl_provider_headroom : Bool
  pub has_memory_headroom : Bool
  pub repo : Text

-- `priorityLabels.indexOf(label)`; none is -1.
index_of : List String → String → Option ℕ
index_of [] label = none
index_of (l ∷ ls) label =
    let later = index_of ls label in
    if l === label then some 0 else elim later [ none ↦ none | some i ↦ some (suc i) ]

-- `if (idx !== -1 && idx < best) best = idx`; a best of none is infinity.
better : Option ℕ → Option ℕ → Option ℕ
better none best = best
better (some idx) none = some idx
better (some idx) (some best) = if ltb idx best then some idx else some best

rank_from : List String → Option ℕ → List String → Option ℕ
unfolding better index_of
rank_from priorities best [] = best
rank_from priorities best (l ∷ ls) = rank_from priorities (better (index_of priorities l) best) ls

-- `priorityRankOf`, which is `priorityRank` with null for infinity.
pub priority_rank_of : List String → List String → Option ℕ
unfolding rank_from
priority_rank_of labels priorities = rank_from priorities none labels

pub compare_issues : List String → Issue → Issue → Ordering
unfolding priority_rank_of
compare_issues priorities a b = then_by (text_compare a.created_at b.created_at) (
    then_by
      (rank_compare (priority_rank_of a.labels priorities) (priority_rank_of b.labels priorities))
      (compare a.number b.number))

-- The loop's variables.
pub record AdmitState : Type 0 where
  pub eligible : List PickedIssue
  pub excluded : List ExcludedIssue
  pub deps : DepCache

exclude : AdmitState → Issue → ExclusionReason → AdmitState
exclude s issue reason = record s {
  excluded = s.excluded ++ record { issue = issue; reason = reason } ∷ [];
}

admit_verdict : AdmitState → Issue → GateResult → AdmitState
unfolding exclude
admit_verdict s issue (GateResult.eligible mode) = record s {
  eligible = s.eligible ++ record { issue = issue; mode = mode } ∷ [];
}
admit_verdict s issue (ineligible reason) = exclude s issue (gate reason)
admit_verdict s issue (blocked blockers) = exclude s issue (blocked_by blockers)

holds : Option Run → Bool
unfolding re_admittable
holds none = false
holds (some run) = not (re_admittable run.status)

pub admit_issue : World → AdmitState → Issue → AdmitState
unfolding admit_verdict holds gate_one
admit_issue world s issue =
    if world.is_in_flight issue.number
    then exclude s issue in_flight
    else if holds (world.get_run issue.number)
    then exclude s issue held
    else (let (verdict, deps) = gate_one world.is_dependency_satisfied world.repo issue s.deps in
        admit_verdict (record s { deps = deps }) issue verdict)

pub admit_loop : World → AdmitState → List Issue → AdmitState
unfolding admit_issue
admit_loop world s [] = s
admit_loop world s (issue ∷ issues) = admit_loop world (admit_issue world s issue) issues

wait_reason : World → Option ExclusionReason
wait_reason world =
    if not world.has_impl_provider_headroom
    then some no_provider
    else if not world.has_memory_headroom
    then some no_memory
    else none

pub ordered : World → List PickedIssue → List PickedIssue
unfolding compare_issues
ordered world picked =
    sort (λ a b. not_after (compare_issues world.priority_labels a.issue b.issue)) picked

-- With nothing eligible no wait gate is probed, and the plan is the same either way.
launch : World → List PickedIssue → List ExcludedIssue → Option ExclusionReason → LaunchPlan
launch world [] excluded wait = record { picked = []; eligible = []; excluded = excluded }
launch world (p ∷ ps) excluded (some reason) = record {
  picked = [];
  eligible = [];
  excluded = excluded ++ map (λ c. record { issue = c.issue; reason = reason }) (p ∷ ps);
}
launch world (p ∷ ps) excluded none = record {
  picked = take (max_zero world.open_slots) (p ∷ ps);
  eligible = p ∷ ps;
  excluded = excluded;
}

abbrev pub admit_start : AdmitState
admit_start = record { eligible = []; excluded = []; deps = empty_cache }

unfoldable pub admit : List Issue → World → LaunchPlan
unfolding admit_loop launch ordered wait_reason
admit issues world =
    let s = admit_loop world admit_start issues in
    launch world (ordered world s.eligible) s.excluded (wait_reason world)
