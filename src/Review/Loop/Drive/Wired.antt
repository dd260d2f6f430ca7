-- ===== src/Review/Loop/Drive/Wired.antt =====
-- review/review-loop.ts: the review loop with its hosted gate in place. The attempts of the fix lane
-- are a variable of one wait for the merge.
use ralph_autopilot.Common.{ℕ}
use ralph_autopilot.Review.Hosted.Gate.{GateWorld}
use ralph_autopilot.Review.Loop.{ok, Act, beside}
use ralph_autopilot.Review.Loop.Phases.{LoopDeps}
use ralph_autopilot.Review.Loop.Drive.{HostedDeps}
use ralph_autopilot.Review.Loop.Drive.Consult.{hosted_observe_verdict, hosted_gate_verdict}

-- `const hostedFix = { attempts: 0 }`
abbrev start_attempts : {V : Type 0} → Act (ℕ × V) (Unit {0})
start_attempts (n, v) = (ok tt, (0, v))

abbrev read_attempts : {V : Type 0} → Act (ℕ × V) ℕ
read_attempts (n, v) = (ok n, (n, v))

abbrev pub wired :
    {W : Type 0} → LoopDeps (GateWorld × W) → HostedDeps W → LoopDeps (ℕ × (GateWorld × W))
wired deps ports = record {
  max_fix_attempts = deps.max_fix_attempts;
  max_container_retries = deps.max_container_retries;
  wait_for_checks = deps.wait_for_checks;
  ci_timeout_minutes = deps.ci_timeout_minutes;
  poll_interval_seconds = deps.poll_interval_seconds;
  behind_rebase_budget_minutes = deps.behind_rebase_budget_minutes;
  master_wired = deps.master_wired;
  hosted_gate_wired = deps.hosted_gate_wired;
  normalise_title = deps.normalise_title;
  record_review_phase_entered = λ phase. beside (deps.record_review_phase_entered phase);
  record_fix_attempt = λ phase. beside (deps.record_fix_attempt phase);
  get_fix_attempts = λ phase. beside (deps.get_fix_attempts phase);
  await_checks = beside deps.await_checks;
  read_checks = beside deps.read_checks;
  review = λ phase. beside (deps.review phase);
  publish_review_comment = λ phase items. beside (deps.publish_review_comment phase items);
  fix = λ phase wl. beside (deps.fix phase wl);
  escalate_to_master = λ phase wl attempts. beside (deps.escalate_to_master phase wl attempts);
  record_escalation = λ phase question. beside (deps.record_escalation phase question);
  rebase_onto_base = beside deps.rebase_onto_base;
  verify_branch_rebased = λ sha. beside (deps.verify_branch_rebased sha);
  adopt_origin_branch = beside deps.adopt_origin_branch;
  record_runner_pushed_head = beside deps.record_runner_pushed_head;
  branch_diff_hash = beside deps.branch_diff_hash;
  now = beside deps.now;
  read_merge_status = beside deps.read_merge_status;
  hosted_start = start_attempts;
  hosted_observe = hosted_observe_verdict deps ports;
  hosted_classify = hosted_gate_verdict deps ports;
  hosted_attempts = read_attempts;
  merge_pull_request = beside deps.merge_pull_request;
  record_merged = beside deps.record_merged;
  record_run_ended = beside deps.record_run_ended;
}
