-- ===== src/Review/Loop/Sync.antt =====
-- review/review-loop.ts `syncWithBase` and `resolveRebaseConflicts`: bring the branch current with
-- its base, in bounded rounds, and the build flow that begins with it.
use ralph_autopilot.Common.{
  ℕ, zero, suc, ◌-◌, Bool, true, false, ◌&&◌, ◌||◌, Option, none, some, List, Text, if◌then◌else◌,
}
use ralph_autopilot.Store.Types.{Phase, phase0, phase1, phase2}
use ralph_autopilot.Review.Phase.{review1, review2}
use ralph_autopilot.Review.Loop.{
  branch_diverged, Result, ok, thrown, Act, ◌>>=◌, ◌>>◌, pure, Worklist, of_conflicts,
  of_fix_failed, of_not_landed, of_divergence, of_base_race, PhaseOutcome, clean, maxed, escalated,
  ParkedOutcome, ReviewLoopOutcome, parked, awaiting_ci, master_triage,
}
use ralph_autopilot.Review.Loop.Fix.{FixResult, fixed, fix_escalated, Turn, stop, again, degrade}
use ralph_autopilot.Review.Loop.Phases.{
  LoopDeps, RebaseResult, rebase_clean, rebase_conflict, ci_gate, settle, settled,
  run_review_phases,
}

pub data SyncResult : Type 0 where
  terminal : ParkedOutcome → SyncResult
  synced : Bool → SyncResult

abbrev max_rebase_rounds : ℕ
max_rebase_rounds = 3

module _ {W : Type 0} (deps : LoopDeps W) where
  abbrev on_landed : ℕ → Bool → Act W PhaseOutcome
  on_landed round true = deps.adopt_origin_branch >> pure clean
  on_landed round false = pure (maxed of_not_landed round false)

  abbrev on_conflict_fix : Text → ℕ → FixResult → Act W PhaseOutcome
  on_conflict_fix base_sha round (fix_escalated question) = pure (escalated question)
  on_conflict_fix base_sha round fixed = do
    deps.record_runner_pushed_head
    landed ← deps.verify_branch_rebased base_sha
    on_landed round landed

  abbrev on_turn : Turn → Act W PhaseOutcome → Act W PhaseOutcome
  on_turn (stop r) retry w = (r, w)
  on_turn (again attempts retries) retry w = retry w

  abbrev degraded : Result PhaseOutcome → ℕ → ℕ → Act W PhaseOutcome → Act W PhaseOutcome
  degraded (ok outcome) round retries retry w = (ok outcome, w)
  degraded (thrown e) round retries retry w =
      on_turn (degrade deps.max_container_retries of_fix_failed e round retries) retry w

  -- One dispatch; a fault of any of its steps is degraded as in the loop of fixes.
  abbrev dispatch : List Text → Text → ℕ → ℕ → Act W PhaseOutcome → Act W PhaseOutcome
  dispatch files base_sha round retries retry w =
      let (r, w') = (deps.fix phase0 (of_conflicts files) >>= on_conflict_fix base_sha round) w in
      degraded r round retries retry w'

  -- The retries that are left; with none left `degrade` asks for no other.
  resolve_left : ℕ → List Text → Text → ℕ → Act W PhaseOutcome
  resolve_left zero files base_sha round =
      dispatch files base_sha round deps.max_container_retries (pure clean)
  resolve_left (suc left) files base_sha round =
      dispatch files base_sha round (deps.max_container_retries - suc left)
        (resolve_left left files base_sha round)

  pub resolve_rebase_conflicts : List Text → Text → ℕ → Act W PhaseOutcome
  unfolding resolve_left
  resolve_rebase_conflicts = resolve_left deps.max_container_retries

  abbrev escalated_sync : Worklist → ℕ → Act W SyncResult
  escalated_sync wl attempts =
      deps.escalate_to_master phase0 wl attempts >> pure (terminal (master_triage phase0))

  abbrev or_terminal : Option ParkedOutcome → Act W SyncResult → Act W SyncResult
  or_terminal (some outcome) next = pure (terminal outcome)
  or_terminal none next = next

  -- `rebaseOntoBase` with its `catch`, by what follows a clean rebase and a conflict.
  abbrev on_rebase :
      Result RebaseResult
      → (Bool → Act W SyncResult)
      → (List Text → Text → Act W SyncResult)
      → Act W SyncResult
  on_rebase (thrown branch_diverged) current conflict = escalated_sync of_divergence 1
  on_rebase (thrown e) current conflict = λ w. (thrown e, w)
  on_rebase (ok (rebase_clean moved)) current conflict = current moved
  on_rebase (ok (rebase_conflict files base_sha)) current conflict = conflict files base_sha

  -- Behind the rounds: the checks are awaited again where the branch moved.
  abbrev after_rounds : Bool → Bool → Act W SyncResult
  after_rounds reawait_ci moved =
      if moved && reawait_ci
      then (do
        gate ← ci_gate deps none
        done ← settle deps phase0 gate
        or_terminal done (pure (synced moved)))
      else pure (synced moved)

  -- The rounds that are left, and whether one moved the branch.
  unfoldable pub sync_rounds : ℕ → Bool → Bool → Act W SyncResult
  unfolding resolve_rebase_conflicts
  sync_rounds zero moved reawait_ci w =
      let (r, w') = deps.rebase_onto_base w in
      on_rebase r (λ m. after_rounds reawait_ci (moved || m))
        (λ files base_sha. escalated_sync (of_base_race max_rebase_rounds) max_rebase_rounds) w'
  sync_rounds (suc left) moved reawait_ci w =
      let (r, w') = deps.rebase_onto_base w in
      on_rebase r (λ m. after_rounds reawait_ci (moved || m))
        (λ files base_sha.
          resolve_rebase_conflicts files base_sha (max_rebase_rounds - left) >>= λ outcome.
          settle deps phase0 outcome >>= λ done.
          or_terminal done (sync_rounds left true reawait_ci))
        w'

  unfoldable pub sync_with_base : Bool → Act W SyncResult
  unfolding sync_rounds
  sync_with_base = sync_rounds max_rebase_rounds false

  -- `runReview` of a first pass: the branch first, then the checks, which are awaited off the slot
  -- where there are any.
  abbrev after_presync : SyncResult → Act W ReviewLoopOutcome
  after_presync (terminal outcome) = pure (parked outcome)
  after_presync (synced moved) =
      if deps.wait_for_checks
      then pure awaiting_ci
      else settled deps phase0 (ci_gate deps none) (run_review_phases deps review1)

  abbrev after_presync_inline : SyncResult → Act W ReviewLoopOutcome
  after_presync_inline (terminal outcome) = pure (parked outcome)
  after_presync_inline (synced moved) =
      settled deps phase0 (ci_gate deps none) (run_review_phases deps review1)

  -- `resume` is the phase that a heal enters again.
  pub run_review : Option Phase → Act W ReviewLoopOutcome
  unfolding sync_with_base
  run_review none = sync_with_base false >>= after_presync
  run_review (some phase0) = sync_with_base false >>= after_presync_inline
  run_review (some phase1) = run_review_phases deps review1
  run_review (some phase2) = run_review_phases deps review2
