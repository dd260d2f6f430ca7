-- ===== src/Examples/Drive.antt =====
-- Runs of review/review-loop.ts with its hosted gate in place.
use ralph_autopilot.Common.{
  ℕ, ◌+◌, ◌≡◌, refl, true, false, Bool, none, some, List, [], ◌∷◌, length, codes, Text, text_eq,
}
use ralph_autopilot.Review.Hosted.{
  classify_thread_author, normalize_comments, hash_finding_body, read_severity,
}
use ralph_autopilot.Review.Hosted.Threads.{
  HostedWorklist, admit_thread, normalize_thread, worklist_step, build_hosted_worklist,
}
use ralph_autopilot.Review.Hosted.Block.{
  MergeStateStatus, ChecksState, bucket_by_author, classify_merge_block,
}
use ralph_autopilot.Review.Hosted.Gate.{
  GateWorld, DispositionKind, written, fold_hosted_gate_state, gate_step, reply_to_finding,
  resolve_finding, dispose_finding,
}
use ralph_autopilot.Review.Hosted.Observe.{
  ReviewThreadsRead, threads, verdict, observe_loop, observe,
}
use ralph_autopilot.Review.Loop.{ok, pure}
use ralph_autopilot.Review.Loop.Phases.{LoopDeps, rebase_clean}
use ralph_autopilot.Review.Loop.Sync.{sync_rounds, sync_with_base}
use ralph_autopilot.Review.Loop.Merge.{
  poll_merge, await_mergeable, integration_loop, run_integration,
}
use ralph_autopilot.Review.Loop.Drive.{HostedDeps, answered, hosted_fix_left, run_hosted_fix}
use ralph_autopilot.Review.Loop.Drive.Consult.{
  dispose_all, drive_hosted_findings, hosted_observe_verdict,
}
use ralph_autopilot.Review.Loop.Drive.Wired.{wired}
use ralph_autopilot.Review.Loop.Drive.Clear.{IsMergedClean, run_integration-IsMergedClean}
use ralph_autopilot.Review.Loop.Drive.Repaired.{IsRepaired, drive_hosted_findings-IsRepaired}
use ralph_autopilot.Examples.Hosted.{platform, codex_thread, fresh}
use ralph_autopilot.Examples.Loop.{quiet}

-- The reviewer's conversation is open until it is resolved.
abbrev conversation : GateWorld → ReviewThreadsRead
conversation g = threads (record codex_thread { is_resolved = not_empty g.resolves } ∷ []) none
  where
    not_empty : List Text → Bool
    not_empty [] = false
    not_empty (r ∷ rs) = true

abbrev deps : LoopDeps (GateWorld × ℕ)
deps = record quiet {
  rebase_onto_base = pure (rebase_clean false);
  read_merge_status = pure (record {
    state = MergeStateStatus.clean;
    review_decision = none;
    head_sha = some (codes "abc");
  });
}

-- The fix agent claims a fix of the conversation and pushes it; it names another thread, too.
abbrev ports : HostedDeps ℕ
ports = record {
  platform = platform;
  observation_polls = 2;
  read_polls = λ v k. conversation v.0;
  runner_pushed_sha = λ v. none;
  read_checks = pure (record { state = ChecksState.green; failures = [] });
  gate_outcomes = λ g f. record { of_reply = written; of_resolve = written };
  remote_branch_head = pure (some (codes "def"));
  run_fix = λ fresh humans head v. (
    ok (
        answered (
          record {
            thread_id = codes "t1";
            disposition = DispositionKind.fixed;
            rationale = codes "guarded";
            verification = codes "tests";
          }
          ∷ record {
            thread_id = codes "t9";
            disposition = DispositionKind.fixed;
            rationale = [];
            verification = [];
          }
          ∷ [])),
    (v.0, v.1 + 1),
  );
  escalate_hosted_blocker = λ cause wl head n why. pure tt;
}

abbrev start : ℕ × (GateWorld × ℕ)
start = (0, (fresh, 0))

abbrev finish : ℕ × (GateWorld × ℕ)
finish = (run_integration (wired deps ports) 1 start).1

-- The first consultation repairs the conversation, and the second is clear: one reply and one
-- resolution were written, and one attempt was spent.
lane_run :
    (finish.0 ≡ 1) × (finish.1.0.resolves ≡ codes "t1" ∷ []) × (length finish.1.0.replies ≡ 1)
unfolding run_integration integration_loop sync_with_base sync_rounds await_mergeable poll_merge
    hosted_observe_verdict observe observe_loop verdict build_hosted_worklist worklist_step
    admit_thread normalize_thread normalize_comments hash_finding_body read_severity
    classify_thread_author classify_merge_block bucket_by_author drive_hosted_findings
    run_hosted_fix hosted_fix_left dispose_all dispose_finding reply_to_finding resolve_finding
    fold_hosted_gate_state gate_step text_eq
lane_run = (refl, refl, refl)

merged_clean_example : IsMergedClean deps ports finish
unfolding run_integration integration_loop sync_with_base sync_rounds await_mergeable poll_merge
    hosted_observe_verdict observe observe_loop verdict build_hosted_worklist worklist_step
    admit_thread normalize_thread normalize_comments hash_finding_body read_severity
    classify_thread_author classify_merge_block bucket_by_author drive_hosted_findings
    run_hosted_fix hosted_fix_left dispose_all dispose_finding reply_to_finding resolve_finding
    fold_hosted_gate_state gate_step text_eq
merged_clean_example = run_integration-IsMergedClean deps ports 1 start finish refl refl

abbrev seen : HostedWorklist
seen = build_hosted_worklist platform (codex_thread ∷ []) (some (codes "abc"))

repaired_example :
    IsRepaired deps ports
      (some (codes "abc"))
      seen
      seen.buckets.findings
      start
      (drive_hosted_findings deps ports (some (codes "abc")) seen seen.buckets.findings start).1
unfolding hosted_observe_verdict build_hosted_worklist worklist_step admit_thread normalize_thread
    normalize_comments hash_finding_body read_severity classify_thread_author drive_hosted_findings
    run_hosted_fix hosted_fix_left dispose_all dispose_finding reply_to_finding resolve_finding
    fold_hosted_gate_state gate_step text_eq
repaired_example =
    drive_hosted_findings-IsRepaired deps ports (some (codes "abc")) seen seen.buckets.findings
      start refl
