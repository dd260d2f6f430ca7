-- ===== src/Review/Loop/Phases.antt =====
-- review/review-loop.ts: the CI gate, the two review phases and the build flow. `LoopDeps` is what
-- the class is given: its settings, and its ports as steps.
pub mod Reviewed
use ralph_autopilot.Common.{
  ℕ, suc, ◌+◌, Bool, true, false, not, ◌&&◌, ◌||◌, Option, none, some, List, [], Text,
  if◌then◌else◌,
}
use ralph_autopilot.Store.Types.{Phase, phase0, phase1, phase2}
use ralph_autopilot.Review.Phase.{ReviewNumber, review1, review2}
use ralph_autopilot.Review.Worklist.{WorklistItem, dedupe_worklist, is_clean}
use ralph_autopilot.Review.Hosted.Block.{
  ChecksSnapshot, ChecksState, MergeStateStatus, MergeStatusSnapshot,
}
use ralph_autopilot.Review.Loop.{
  Fault, other_error, Result, ok, thrown, Act, ◌>>=◌, ◌>>◌, pure, beside, Worklist, found,
  of_checks, of_parse_failure, of_question, PhaseOutcome, clean, maxed, escalated, ParkedOutcome,
  ReviewLoopOutcome, parked, awaiting_ci, awaiting_merge, master_triage, handed_over,
}
use ralph_autopilot.Review.Loop.Fix.{
  Assessment, assessed_clean, hard_stop, blocked, FixResult, BoundedFixLoopSpec, bounded_fix_loop,
}

pub data CheckState : Type 0 where
  green red none_reported timeout : CheckState

pub record ChecksResult : Type 0 where
  pub state : CheckState
  pub failures : List Text

pub data RebaseResult : Type 0 where
  rebase_clean : Bool → RebaseResult
  rebase_conflict : List Text → Text → RebaseResult

-- One consultation of the hosted gate in the wait for a merge.
pub data HostedDecision : Type 0 where
  clear repaired : HostedDecision
  stuck_on : ParkedOutcome → HostedDecision
  resync_on : MergeStateStatus → HostedDecision
  defer_on : Text → HostedDecision

pub record LoopDeps (W : Type 0) : Type 0 where
  pub max_fix_attempts : ℕ
  pub max_container_retries : ℕ
  pub wait_for_checks : Bool
  pub ci_timeout_minutes : ℕ
  pub poll_interval_seconds : ℕ
  pub behind_rebase_budget_minutes : ℕ
  pub master_wired : Bool
  pub hosted_gate_wired : Bool
  pub normalise_title : Text → Text
  pub record_review_phase_entered : Phase → Act W (Unit {0})
  pub record_fix_attempt : Phase → Act W (Unit {0})
  pub get_fix_attempts : Phase → Act W ℕ
  pub await_checks : Act W ChecksResult
  pub read_checks : Act W ChecksSnapshot
  pub review : ReviewNumber → Act W (List WorklistItem)
  pub publish_review_comment : ReviewNumber → List WorklistItem → Act W (Unit {0})
  pub fix : Phase → Worklist → Act W FixResult
  pub escalate_to_master : Phase → Worklist → ℕ → Act W (Unit {0})
  pub record_escalation : Phase → Text → Act W (Unit {0})
  pub rebase_onto_base : Act W RebaseResult
  pub verify_branch_rebased : Text → Act W Bool
  pub adopt_origin_branch : Act W (Unit {0})
  pub record_runner_pushed_head : Act W (Unit {0})
  pub branch_diff_hash : Act W (Option Text)
  pub now : Act W ℕ
  pub read_merge_status : Act W MergeStatusSnapshot
  pub hosted_start : Act W (Unit {0})
  pub hosted_observe : MergeStatusSnapshot → Act W HostedDecision
  pub hosted_classify : MergeStatusSnapshot → Act W HostedDecision
  pub hosted_attempts : Act W ℕ
  pub merge_pull_request : Act W (Unit {0})
  pub record_merged : Act W (Unit {0})
  pub record_run_ended : Act W (Unit {0})

abbrev ci_clean : CheckState → Bool
ci_clean green = true
ci_clean none_reported = true
ci_clean _ = false

abbrev snapshot_clean : ChecksState → Bool
snapshot_clean ChecksState.green = true
snapshot_clean ChecksState.no_checks = true
snapshot_clean _ = false

-- `ciClean` first, then whether another attempt can cure it.
abbrev assess_checks : ChecksResult → Assessment
assess_checks checks = elim checks.state [
  | green ↦ assessed_clean
  | none_reported ↦ assessed_clean
  | timeout ↦ hard_stop (of_checks checks.failures)
  | red ↦ blocked (of_checks checks.failures)
]

abbrev pub or_out_of_fuel :
    {W : Type 0} → W → Option (Result PhaseOutcome × W) → Result PhaseOutcome × W
or_out_of_fuel w none = (thrown (other_error []), w)
or_out_of_fuel w (some r) = r

-- A loop of fixes as a step. Its fuel covers every turn that the budgets allow.
abbrev pub run_fix_loop : {W : Type 0} → BoundedFixLoopSpec W → Act W PhaseOutcome
run_fix_loop spec w = or_out_of_fuel w (bounded_fix_loop spec w)

module _ {W : Type 0} where
  -- The variable `pending` of the CI gate stands before the world.
  abbrev await_or_seed : Act W ChecksResult → Act (Option ChecksResult × W) ChecksResult
  await_or_seed await (none, w) = beside await (none, w)
  await_or_seed await (some checks, w) = (ok checks, (none, w))

module _ {W : Type 0} (deps : LoopDeps W) where
  unfoldable pub ci_gate_spec : BoundedFixLoopSpec (Option ChecksResult × W)
  ci_gate_spec = record {
    max_fix_attempts = deps.max_fix_attempts;
    max_container_retries = deps.max_container_retries;
    enter = beside (deps.record_review_phase_entered phase0);
    assess = await_or_seed deps.await_checks >>= λ checks. pure (assess_checks checks);
    reconfirm =
        some (beside (deps.read_checks >>= λ (s : ChecksSnapshot). pure (snapshot_clean s.state)));
    record_fix_attempt = beside (deps.record_fix_attempt phase0);
    fix = λ wl. beside (deps.fix phase0 wl);
    parse_worklist = of_parse_failure;
  }

  unfoldable pub ci_gate : Option ChecksResult → Act W PhaseOutcome
  unfolding ci_gate_spec
  ci_gate seed w =
      if deps.wait_for_checks
      then (let (r, (_, w')) = run_fix_loop ci_gate_spec (seed, w) in (r, w'))
      else (ok clean, w)

  abbrev pub phase_of : ReviewNumber → Phase
  phase_of review1 = phase1
  phase_of review2 = phase2

  abbrev assess_items : List WorklistItem → Assessment
  assess_items items = if is_clean items then assessed_clean else blocked (found items)

  -- Review, consolidate, and post the worklist that decides.
  unfoldable pub review_spec : ReviewNumber → BoundedFixLoopSpec W
  review_spec phase = record {
    max_fix_attempts = deps.max_fix_attempts;
    max_container_retries = deps.max_container_retries;
    enter = deps.record_review_phase_entered (phase_of phase);
    assess = deps.review phase >>= λ items.
        let worklist = dedupe_worklist deps.normalise_title items in
        deps.publish_review_comment phase worklist >> pure (assess_items worklist);
    reconfirm = none;
    record_fix_attempt = deps.record_fix_attempt (phase_of phase);
    fix = deps.fix (phase_of phase);
    parse_worklist = of_parse_failure;
  }

  unfoldable pub run_phase : ReviewNumber → Act W PhaseOutcome
  unfolding review_spec
  run_phase phase = run_fix_loop (review_spec phase)

  -- `settle`, with `reviewMaxed` and `escalate`; none is to carry on.
  abbrev pub settle : Phase → PhaseOutcome → Act W (Option ParkedOutcome)
  settle phase clean = pure none
  settle phase (maxed wl attempts infra) =
      deps.escalate_to_master phase wl attempts >> pure (some (master_triage phase))
  settle phase (escalated question) =
      if deps.master_wired
      then (deps.get_fix_attempts phase >>= λ attempts.
          deps.escalate_to_master phase (of_question question) attempts
          >> pure (some (master_triage phase)))
      else (deps.record_escalation phase question >> pure (some (handed_over phase)))

  abbrev pub or_carry_on : Option ParkedOutcome → Act W ReviewLoopOutcome → Act W ReviewLoopOutcome
  or_carry_on none next = next
  or_carry_on (some outcome) next = pure (parked outcome)

  abbrev pub settled :
      Phase → Act W PhaseOutcome → Act W ReviewLoopOutcome → Act W ReviewLoopOutcome
  settled phase m next = do outcome ← m; done ← settle phase outcome; or_carry_on done next

  unfoldable pub run_review_phases : ReviewNumber → Act W ReviewLoopOutcome
  unfolding run_phase
  run_review_phases review1 =
      settled phase1 (run_phase review1) (settled phase2 (run_phase review2) (pure awaiting_merge))
  run_review_phases review2 = settled phase2 (run_phase review2) (pure awaiting_merge)

  -- The gate that is seeded by the poller's verdict, and the phases behind it.
  pub resume_after_ci : ChecksResult → Act W ReviewLoopOutcome
  unfolding ci_gate run_review_phases
  resume_after_ci checks = settled phase0 (ci_gate (some checks)) (run_review_phases review1)
