-- ===== src/Examples/Admission.antt =====
-- Runs of core/admission.ts.
use mathlib.Core.List.{Perm}
use ralph_autopilot.Common.{
  ◌≡◌, refl, true, false, ◌===◌, ◌==◌, none, some, List, [], ◌∷◌, ◌++◌, map, All, codes,
  text_compare, text_eq,
}
use ralph_autopilot.Common.Decimal.{decimal}
use ralph_autopilot.Common.Sort.{sort}
use ralph_autopilot.Common.Int.{ℤ}
use ralph_autopilot.Common.Distinct.{IsDistinct}
use ralph_autopilot.Common.Order.{IsOrder}
use ralph_autopilot.Store.Types.{tdd, RunStatus, Run}
use ralph_autopilot.Github.Types.{Issue, open_issue, closed_issue}
use ralph_autopilot.Github.Blocked.{parse_blocked_by}
use ralph_autopilot.Core.Labels.{is_paused_label, read_mode}
use ralph_autopilot.Core.Admission.Gate.{
  cached, gate_labels, gate_one, evaluate_gate, empty_cache, blocked_verdict, resolve_refs,
  with_cross_repo_blockers, resolve_dep,
}
use ralph_autopilot.Core.Admission.{World, compare_issues, admit_loop, admit_start, admit}
use ralph_autopilot.Core.Admission.Gate.Cache.{same_number}
use ralph_autopilot.Core.Admission.Gate.Verdicts.{
  LabelsPass, DependenciesPass, gate_one-eligible, gate_one-eq-evaluate_gate,
}
use ralph_autopilot.Core.Admission.Order.{compare_issues-IsOrder}
use ralph_autopilot.Core.Admission.Plan.{
  picked_issues, excluded_issues, PicksHead, admit-perm, admit-PicksHead,
}
use ralph_autopilot.Core.Admission.Safety.{
  IsLaunchable, empty_cache-IsFaithful, admit-IsLaunchable, admit_loop-calls, admit_waits,
}

abbrev ready_issue : Issue
ready_issue = record {
  number = 4;
  title = "A";
  body = codes "## Blocked by" ++ 10 ∷ codes "- #2";
  state = open_issue;
  labels = "ready-for-agent" ∷ "afk" ∷ "mode:tdd" ∷ [];
  created_at = codes "2026-01-02";
}

abbrev urgent_issue : Issue
urgent_issue = record ready_issue {
  number = 6;
  labels = "p0" ∷ "ready-for-agent" ∷ "afk" ∷ "mode:tdd" ∷ [];
}

abbrev waiting_issue : Issue
waiting_issue = record ready_issue {
  number = 5;
  body = codes "## Blocked by" ++ 10 ∷ codes "- #3 and #2";
}

abbrev parked_issue : Issue
parked_issue = record ready_issue { number = 7 }

abbrev issues : List Issue
issues =
    ready_issue
    ∷ waiting_issue
    ∷ urgent_issue
    ∷ parked_issue
    ∷ record ready_issue { number = 8; state = closed_issue }
    ∷ []

abbrev parked_run : Run
parked_run = record {
  id = 1;
  repo = "o/r";
  issue_number = 7;
  mode = tdd;
  tier = none;
  status = RunStatus.awaiting_answer;
  branch = none;
  worktree_path = none;
  pr_number = none;
  issue_title = none;
  runner_pushed_sha = none;
  created_at = "2026-01-01";
  updated_at = "2026-01-01";
}

abbrev world : World
world = record {
  is_in_flight = λ n. false;
  get_run = λ n. elim (n == 7) [ true ↦ some parked_run | false ↦ none ];
  is_dependency_satisfied = λ t n. n == 2;
  open_slots = ℤ.pos 1;
  priority_labels = "p0" ∷ [];
  has_impl_provider_headroom = true;
  has_memory_headroom = true;
  repo = codes "o/r";
}

abbrev short_world : World
short_world = record world { has_memory_headroom = false }

-- The more urgent of two issues of one age is picked first.
picks : map (λ (i : Issue). i.number) (picked_issues (admit issues world).picked) ≡ 6 ∷ []
unfolding admit parse_blocked_by decimal text_eq text_compare ◌===◌ gate_labels read_mode
    is_paused_label cached sort blocked_verdict resolve_refs with_cross_repo_blockers resolve_dep
picks = refl

launchable_example : All (IsLaunchable world) (admit issues world).picked
launchable_example = admit-IsLaunchable issues world

calls_example : IsDistinct same_number (admit_loop world admit_start issues).deps.calls
calls_example = admit_loop-calls issues world

placed_example :
    Perm
      (picked_issues (admit issues world).eligible ++ excluded_issues (admit issues world).excluded)
      issues
placed_example = admit-perm issues world

head_example : PicksHead world (admit issues world)
head_example = admit-PicksHead issues world

waits_example :
    ((admit issues short_world).picked ≡ []) × ((admit issues short_world).eligible ≡ [])
waits_example = admit_waits issues short_world refl

gate_example :
    LabelsPass ready_issue tdd × DependenciesPass (λ t n. n == 2) (codes "o/r") ready_issue
unfolding gate_one parse_blocked_by decimal text_eq ◌===◌ gate_labels read_mode is_paused_label
    cached blocked_verdict resolve_refs with_cross_repo_blockers resolve_dep
gate_example =
    gate_one-eligible (λ t n. n == 2) (codes "o/r") ready_issue empty_cache tdd
      (empty_cache-IsFaithful (λ t n. n == 2)) refl

finishers_example :
    (gate_one (λ t n. n == 2) (codes "o/r") waiting_issue empty_cache).0
    ≡ evaluate_gate waiting_issue (λ n. n == 2) (codes "o/r")
finishers_example =
    gate_one-eq-evaluate_gate (λ n. n == 2) (codes "o/r") waiting_issue empty_cache
      (empty_cache-IsFaithful (λ t n. n == 2))

comparator_example : IsOrder (compare_issues ("p0" ∷ "p1" ∷ []))
comparator_example = compare_issues-IsOrder ("p0" ∷ "p1" ∷ [])
