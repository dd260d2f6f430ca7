-- ===== src/Review/Loop/Merge.antt =====
-- review/review-loop.ts `awaitMergeable`, `runIntegration` and `merge`: the integration flow under
-- the merge lease. A kill of the run is an exception and is left out.
pub mod Guarded
pub mod Ready
use ralph_autopilot.Common.{
  ℕ, zero, suc, ◌+◌, ◌-◌, ◌*◌, ◌/◌, ltb, leb, Bool, true, false, not, ◌&&◌, ◌||◌, Option, none,
  some, List, [], ◌∷◌, Text, text_eq, if◌then◌else◌,
}
use ralph_autopilot.Store.Types.{Phase, phase0}
use ralph_autopilot.Review.Phase.{review1}
use ralph_autopilot.Review.Hosted.Block.{MergeStateStatus, MergeStatusSnapshot, is_mergeable_state}
use ralph_autopilot.Review.Loop.{
  Fault, hosted_rate_limited, Result, ok, thrown, Act, ◌>>=◌, ◌>>◌, pure, Worklist,
  of_merge_blocked, of_merge_behind, PhaseOutcome, ParkedOutcome, ReviewLoopOutcome, parked, merged,
  awaiting_ci, awaiting_merge, master_triage, handed_over,
}
use ralph_autopilot.Review.Loop.Phases.{
  LoopDeps, ChecksResult, HostedDecision, clear, repaired, stuck_on, resync_on, defer_on, ci_gate,
  settle, settled, or_carry_on, run_review_phases, resume_after_ci,
}
use ralph_autopilot.Review.Loop.Sync.{SyncResult, terminal, synced, sync_with_base, run_review}

pub data MergeReadiness : Type 0 where
  ready : MergeReadiness
  resync : MergeStateStatus → MergeReadiness
  stuck : ParkedOutcome → MergeReadiness

abbrev max : ℕ → ℕ → ℕ
max a b = if ltb a b then b else a

abbrev pub is_moved_state : MergeStateStatus → Bool
is_moved_state MergeStateStatus.behind = true
is_moved_state MergeStateStatus.dirty = true
is_moved_state _ = false

abbrev pub is_blocked_state : MergeStateStatus → Bool
is_blocked_state MergeStateStatus.blocked = true
is_blocked_state _ = false

module _ {W : Type 0} (deps : LoopDeps W) where
  abbrev pub give_up_merge : Worklist → ℕ → Act W MergeReadiness
  give_up_merge wl attempts =
      deps.escalate_to_master phase0 wl attempts >> pure (stuck (master_triage phase0))

  -- A consultation that decides, or else what follows a repair, a deferral and a clear gate.
  abbrev pub on_decision :
      HostedDecision
      → Act W MergeReadiness
      → (Text → Act W MergeReadiness)
      → Act W MergeReadiness
      → Act W MergeReadiness
  on_decision clear on_clear on_defer on_repair = on_clear
  on_decision repaired on_clear on_defer on_repair = on_repair
  on_decision (stuck_on outcome) on_clear on_defer on_repair = pure (stuck outcome)
  on_decision (resync_on state) on_clear on_defer on_repair = pure (resync state)
  on_decision (defer_on detail) on_clear on_defer on_repair = on_defer detail

  -- Behind the polls: a wait that is still rate-limited is thrown, any other goes to the master.
  abbrev pub after_polls : MergeStateStatus → Option Text → ℕ → Act W MergeReadiness
  after_polls last (some (c ∷ detail)) polls w = (thrown (hosted_rate_limited (c ∷ detail)), w)
  after_polls last _ polls w = give_up_merge (of_merge_blocked last) polls w

  -- One poll, given the rest of the wait by its last state and deferral.
  abbrev pub poll_state :
      MergeStatusSnapshot → (Option Text → Act W MergeReadiness) → Act W MergeReadiness
  poll_state s next =
      if is_mergeable_state s.state
      then (deps.hosted_observe s >>= λ d.
          on_decision d (pure ready) (λ detail. next (some detail)) (next none))
      else if is_moved_state s.state
      then pure (resync s.state)
      else if is_blocked_state s.state
      then (deps.hosted_classify s >>= λ d.
          on_decision d (next none) (λ detail. next (some detail)) (next none))
      else next none

  -- The polls that are left, and all of them.
  unfoldable pub poll_merge : ℕ → ℕ → MergeStateStatus → Option Text → Act W MergeReadiness
  poll_merge zero polls last deferred = after_polls last deferred polls
  poll_merge (suc left) polls last deferred =
      deps.read_merge_status >>= λ s. poll_state s (poll_merge left polls s.state)

  -- A round of the gate alone, given the rounds behind it.
  abbrev pub hosted_round : Act W MergeReadiness → MergeStatusSnapshot → Act W MergeReadiness
  hosted_round next s =
      if is_moved_state s.state
      then pure (resync s.state)
      else (deps.hosted_observe s >>= λ d.
          on_decision d (pure ready) (λ detail w. (thrown (hosted_rate_limited detail), w)) next)

  -- Without checks the rounds of the hosted gate are bounded by the attempts of the fix lane.
  pub hosted_only_rounds : ℕ → Act W MergeReadiness
  hosted_only_rounds zero =
      deps.hosted_attempts >>= give_up_merge (of_merge_blocked MergeStateStatus.unknown)
  hosted_only_rounds (suc left) = deps.read_merge_status >>= hosted_round (hosted_only_rounds left)

  abbrev pub max_polls : ℕ
  max_polls =
      let seconds = max 1 deps.poll_interval_seconds in
      max 1 ((deps.ci_timeout_minutes * 60 + seconds - 1) / seconds)

  abbrev pub wait_by : Bool → Bool → Act W MergeReadiness
  wait_by checks gate =
      if checks
      then poll_merge max_polls max_polls MergeStateStatus.unknown none
      else if gate
      then hosted_only_rounds (suc deps.max_fix_attempts)
      else pure ready

  unfoldable pub await_mergeable : Act W MergeReadiness
  await_mergeable = deps.hosted_start >> wait_by deps.wait_for_checks deps.hosted_gate_wired

  abbrev pub merge : Act W ReviewLoopOutcome
  merge = do deps.merge_pull_request; deps.record_merged; deps.record_run_ended; pure merged

  -- A diff that could not be read counts as changed.
  abbrev pub same_diff : Option Text → Option Text → Bool
  same_diff (some a) (some b) = text_eq a b
  same_diff _ _ = false

  abbrev pub is_handed_to_merge : ReviewLoopOutcome → Bool
  is_handed_to_merge awaiting_merge = true
  is_handed_to_merge _ = false

  -- The review again, and the checks that its fixes call for.
  abbrev pub after_review : Act W ReviewLoopOutcome → ReviewLoopOutcome → Act W ReviewLoopOutcome
  after_review next reviewed =
      if is_handed_to_merge reviewed
      then settled deps phase0 (ci_gate deps none) next
      else pure reviewed

  abbrev pub after_diff :
      Option Text → Act W ReviewLoopOutcome → Option Text → Act W ReviewLoopOutcome
  after_diff before next after =
      if same_diff before after
      then next
      else (run_review_phases deps review1 >>= after_review next)

  abbrev pub after_move : Option Text → Act W ReviewLoopOutcome → Bool → Act W ReviewLoopOutcome
  after_move before next false = next
  after_move before next true = deps.branch_diff_hash >>= after_diff before next

  abbrev pub on_clock :
      MergeStateStatus → ℕ → ℕ → Act W ReviewLoopOutcome → ℕ → Act W ReviewLoopOutcome
  on_clock state deadline rounds next time =
      if leb deadline time
      then (deps.escalate_to_master phase0 (of_merge_behind state rounds) rounds
          >> pure (parked (master_triage phase0)))
      else next

  abbrev pub on_readiness :
      ℕ → ℕ → Act W ReviewLoopOutcome → MergeReadiness → Act W ReviewLoopOutcome
  on_readiness deadline rounds next ready = merge
  on_readiness deadline rounds next (stuck outcome) = pure (parked outcome)
  on_readiness deadline rounds next (resync state) =
      deps.now >>= on_clock state deadline rounds next

  abbrev pub on_sync :
      Option Text → ℕ → ℕ → Act W ReviewLoopOutcome → SyncResult → Act W ReviewLoopOutcome
  on_sync before deadline rounds next (terminal outcome) = pure (parked outcome)
  on_sync before deadline rounds next (synced moved) =
      after_move before (await_mergeable >>= on_readiness deadline rounds next) moved

  -- One round, given the rest of the loop; the number of the round counts from 1.
  abbrev pub integration_round :
      Option Text → ℕ → ℕ → Act W ReviewLoopOutcome → Act W ReviewLoopOutcome
  integration_round before deadline rounds next =
      sync_with_base deps true >>= on_sync before deadline rounds next

  -- The budget of the loop is the clock's; fuel stands for it, and its end is a fault.
  unfoldable pub integration_loop : ℕ → Option Text → ℕ → ℕ → Act W ReviewLoopOutcome
  unfolding await_mergeable
  integration_loop zero before deadline rounds w = (thrown (Fault.other_error []), w)
  integration_loop (suc fuel) before deadline rounds w =
      integration_round before deadline rounds (integration_loop fuel before deadline (rounds + 1))
        w

  abbrev pub from_start : ℕ → Option Text → ℕ → Act W ReviewLoopOutcome
  from_start fuel before start =
      integration_loop fuel before (start + deps.behind_rebase_budget_minutes * 60000) 1

  abbrev pub after_first_diff : ℕ → Option Text → Act W ReviewLoopOutcome
  after_first_diff fuel before = deps.now >>= from_start fuel before

  unfoldable pub run_integration : ℕ → Act W ReviewLoopOutcome
  unfolding integration_loop
  run_integration fuel = deps.branch_diff_hash >>= after_first_diff fuel

  -- `run`: the build flow, the wait for the checks, and the integration flow.
  abbrev pub continue_build : ReviewLoopOutcome → Act W ReviewLoopOutcome
  continue_build awaiting_ci = deps.await_checks >>= resume_after_ci deps
  continue_build outcome = pure outcome

  pub run : ℕ → Option Phase → Act W ReviewLoopOutcome
  unfolding run_integration
  run fuel resume = run_review deps resume >>= λ first. continue_build first >>= λ outcome.
      if is_handed_to_merge outcome then run_integration fuel else pure outcome
