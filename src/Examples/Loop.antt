-- ===== src/Examples/Loop.antt =====
-- Runs of review/review-loop.ts: a world is a small tape of what is answered.
use ralph_autopilot.Common.{ℕ, zero, suc, ◌≡◌, refl, true, false, none, some, List, [], ◌∷◌, codes}
use ralph_autopilot.Common.Sort.{sort}
use ralph_autopilot.Review.Worklist.{
  WorklistItem, severity_p1, gating_items, is_clean, by_title, dedupe_worklist,
}
use ralph_autopilot.Review.Hosted.Block.{ChecksState, MergeStateStatus}
use ralph_autopilot.Review.Loop.{
  Result, ok, thrown, runner_infra, pure, of_parse_failure, PhaseOutcome, clean, maxed,
}
use ralph_autopilot.Review.Loop.Fix.{
  Assessment, assessed_clean, blocked, fixed, BoundedFixLoopSpec, degrade, fix_turn, fix_loop,
  bounded_fix_loop,
}
use ralph_autopilot.Review.Loop.Fix.Bound.{bounded_fix_loop-returns}
use ralph_autopilot.Review.Loop.Fix.Sound.{ClaimsOf, bounded_fix_loop-Claims}
use ralph_autopilot.Review.Loop.Phases.{
  LoopDeps, CheckState, rebase_clean, clear, ci_gate_spec, ci_gate, review_spec, run_phase,
  run_review_phases,
}
use ralph_autopilot.Review.Phase.{review1}
use ralph_autopilot.Review.Loop.Phases.Reviewed.{IsReviewed, run_review_phases-IsReviewed}
use ralph_autopilot.Review.Loop.Sync.{sync_rounds, sync_with_base}
use ralph_autopilot.Review.Loop.Merge.{
  poll_merge, await_mergeable, integration_loop, run_integration,
}
use ralph_autopilot.Review.Loop.Merge.Guarded.{IsMergedBehind, run_integration-IsMergedBehind}

-- The world counts the assessments; the first container gives no result, and then two reviews find
-- something.
abbrev assess_tape : ℕ → Result Assessment
assess_tape zero = thrown (runner_infra (codes "pipe"))
assess_tape (suc zero) = ok (blocked (of_parse_failure []))
assess_tape (suc (suc zero)) = ok (blocked (of_parse_failure []))
assess_tape _ = ok assessed_clean

abbrev spec : BoundedFixLoopSpec ℕ
spec = record {
  max_fix_attempts = 2;
  max_container_retries = 1;
  enter = pure tt;
  assess = λ n. (assess_tape n, suc n);
  reconfirm = none;
  record_fix_attempt = pure tt;
  fix = λ wl. pure fixed;
  parse_worklist = of_parse_failure;
}

-- One attempt less is not enough.
loop_run :
    (bounded_fix_loop spec 0 ≡ some (ok clean, 4))
    × (bounded_fix_loop (record spec { max_fix_attempts = 1 }) 0
        ≡ some (ok (maxed (of_parse_failure []) 1 false), 3))
unfolding bounded_fix_loop fix_loop fix_turn degrade
loop_run = (refl, refl)

returns_example : (r : Result PhaseOutcome × ℕ) × (bounded_fix_loop spec 0 ≡ some r)
returns_example = bounded_fix_loop-returns spec 0

claims_example : ClaimsOf spec (bounded_fix_loop spec 0)
claims_example = bounded_fix_loop-Claims spec 0

abbrev item : WorklistItem
item = record { severity = severity_p1; title = codes "a"; detail = none; source = none }

-- The world counts the reviews, and the first of them finds something.
abbrev review_tape : ℕ → List WorklistItem
review_tape zero = item ∷ []
review_tape _ = []

-- Every step succeeds and changes nothing.
abbrev pub quiet : {W : Type 0} → LoopDeps W
quiet = record {
  max_fix_attempts = 2;
  max_container_retries = 1;
  wait_for_checks = true;
  ci_timeout_minutes = 1;
  poll_interval_seconds = 30;
  behind_rebase_budget_minutes = 1;
  master_wired = true;
  hosted_gate_wired = true;
  normalise_title = λ t. t;
  record_review_phase_entered = λ phase. pure tt;
  record_fix_attempt = λ phase. pure tt;
  get_fix_attempts = λ phase. pure 0;
  await_checks = pure (record { state = CheckState.green; failures = [] });
  read_checks = pure (record { state = ChecksState.green; failures = [] });
  review = λ phase. pure [];
  publish_review_comment = λ phase items. pure tt;
  fix = λ phase wl. pure fixed;
  escalate_to_master = λ phase wl attempts. pure tt;
  record_escalation = λ phase question. pure tt;
  rebase_onto_base = pure (rebase_clean true);
  verify_branch_rebased = λ sha. pure true;
  adopt_origin_branch = pure tt;
  record_runner_pushed_head = pure tt;
  branch_diff_hash = pure none;
  now = pure 0;
  read_merge_status =
      pure (record { state = MergeStateStatus.clean; review_decision = none; head_sha = none });
  hosted_start = pure tt;
  hosted_observe = λ state. pure clear;
  hosted_classify = λ state. pure clear;
  hosted_attempts = pure 0;
  merge_pull_request = pure tt;
  record_merged = pure tt;
  record_run_ended = pure tt;
}

abbrev deps : LoopDeps ℕ
deps = record quiet { review = λ phase n. (ok (review_tape n), suc n) }

handed_example : IsReviewed deps review1 0 3
unfolding run_review_phases run_phase review_spec bounded_fix_loop fix_loop fix_turn dedupe_worklist
    by_title is_clean gating_items sort
handed_example = run_review_phases-IsReviewed deps review1 0 3 refl

-- The base moved the branch and the diff could not be read, so the phases ran again.
merged_example : IsMergedBehind deps 0 3
unfolding run_integration integration_loop sync_with_base sync_rounds await_mergeable poll_merge
    ci_gate ci_gate_spec run_review_phases run_phase review_spec bounded_fix_loop fix_loop fix_turn
    dedupe_worklist by_title is_clean gating_items sort
merged_example = run_integration-IsMergedBehind deps 1 0 3 refl
