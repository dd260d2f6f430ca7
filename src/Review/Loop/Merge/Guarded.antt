-- ===== src/Review/Loop/Merge/Guarded.antt =====
-- review/review-loop.ts: what stands behind a merge.
use ralph_autopilot.Common.{
  ℕ, zero, suc, ◌+◌, ◌*◌, ◌≡◌, refl, true, false, Option, none, Bool-cases, inl, inr, leb, Text,
  arith,
}
use ralph_autopilot.Store.Types.{phase0}
use ralph_autopilot.Review.Phase.{review1}
use ralph_autopilot.Review.Loop.{
  ok, Act, ◌>>=◌, ◌>>◌, pure, of_merge_behind, bound, clean, ParkedOutcome, ReviewLoopOutcome,
  merged, awaiting_ci, awaiting_merge, parked, master_triage,
}
use ralph_autopilot.Review.Loop.Phases.{LoopDeps, ci_gate, run_review_phases}
use ralph_autopilot.Review.Loop.Phases.Reviewed.{settled-hands_on, phases_merge_nothing}
use ralph_autopilot.Review.Loop.Sync.{SyncResult, terminal, synced, sync_with_base}
use ralph_autopilot.Review.Loop.Merge.{
  MergeReadiness, ready, resync, stuck, await_mergeable, merge, same_diff, after_review, after_diff,
  on_clock, on_readiness, on_sync, integration_loop, run_integration, after_first_diff, from_start,
}

module _ {W : Type 0} (deps : LoopDeps W) where
  -- Why the branch that is merged is the one that was reviewed, against the diff that was read
  -- before the first rebase, in the world where the wait for the merge begins.
  pub data IsCovered (before : Option Text) (w1 : W) : Type 0 where
    unmoved : (w : W) → sync_with_base deps true w ≡ (ok (synced false), w1) → IsCovered before w1
    same_net_diff :
        (w w0 : W) (after : Option Text)
        → sync_with_base deps true w ≡ (ok (synced true), w0)
        → deps.branch_diff_hash w0 ≡ (ok after, w1)
        → same_diff deps before after ≡ true
        → IsCovered before w1
    reviewed_again :
        (wa wb : W)
        → run_review_phases deps review1 wa ≡ (ok awaiting_merge, wb)
        → ci_gate deps none wb ≡ (ok clean, w1)
        → IsCovered before w1

  -- A merge that was made, in the world `w'`.
  pub record IsGuarded (before : Option Text) (w' : W) : Type 0 where
    pub waited : W
    pub mergeable : W
    pub covered : IsCovered before waited
    pub was_ready : await_mergeable deps waited ≡ (ok ready, mergeable)
    pub merged_there : merge deps mergeable ≡ (ok merged, w')

  -- The rest of the loop is one of these, or hands nothing on.
  abbrev Guards : Option Text → Act W ReviewLoopOutcome → Type 0
  Guards before next = (w w' : W) → next w ≡ (ok merged, w') → IsGuarded before w'

  escalated_away :
      {A : Type 0} (m : Act W A) (o : ParkedOutcome) (w : W) {w' : W}
      → (m >> pure (parked o)) w ≡ (ok merged, w')
      → ⊥
  escalated_away m o w e =
      let b = bound m (λ _. pure (parked o)) w e in ground (arith, b.then_second)

  on_readiness-IsGuarded :
      (before : Option Text) (w1 : W) (r : MergeReadiness) (deadline rounds : ℕ)
      (next : Act W ReviewLoopOutcome) (w2 w' : W)
      → Guards before next
      → IsCovered before w1
      → await_mergeable deps w1 ≡ (ok r, w2)
      → on_readiness deps deadline rounds next r w2 ≡ (ok merged, w')
      → IsGuarded before w'
  on_readiness-IsGuarded before w1 ready deadline rounds next w2 w' g c a e = record {
    waited = w1;
    mergeable = w2;
    covered = c;
    was_ready = a;
    merged_there = e;
  }
  on_readiness-IsGuarded before w1 (stuck o) deadline rounds next w2 w' g c a e =
      absurd (ground arith)
  on_readiness-IsGuarded before w1 (resync state) deadline rounds next w2 w' g c a e =
      let b = bound deps.now (on_clock deps state deadline rounds next) w2 e in
      elim (Bool-cases (leb deadline b.value)) [
        | inl late ↦ absurd (
            escalated_away (deps.escalate_to_master phase0 (of_merge_behind state rounds) rounds)
              (master_triage phase0) b.between (rw late at b.then_second))
        | inr time ↦ g b.between w' (rw time at b.then_second)
      ]

  waited-IsGuarded :
      (before : Option Text) (w1 : W) (deadline rounds : ℕ) (next : Act W ReviewLoopOutcome)
      (w' : W)
      → Guards before next
      → IsCovered before w1
      → (await_mergeable deps >>= on_readiness deps deadline rounds next) w1 ≡ (ok merged, w')
      → IsGuarded before w'
  waited-IsGuarded before w1 deadline rounds next w' g c e =
      let b = bound (await_mergeable deps) (on_readiness deps deadline rounds next) w1 e in
      on_readiness-IsGuarded before w1 b.value deadline rounds next b.between w' g c b.first
        b.then_second

  -- Behind a review that was run again.
  after_review-IsGuarded :
      (before : Option Text) (reviewed : ReviewLoopOutcome) (wa wb : W) (deadline rounds : ℕ)
      (next : Act W ReviewLoopOutcome) (w' : W)
      → Guards before next
      → run_review_phases deps review1 wa ≡ (ok reviewed, wb)
      → after_review deps
          (await_mergeable deps >>= on_readiness deps deadline rounds next)
          reviewed
          wb
        ≡ (ok merged, w')
      → IsGuarded before w'
  after_review-IsGuarded before awaiting_merge wa wb deadline rounds next w' g r e =
      let s =
        settled-hands_on deps phase0 (ci_gate deps none)
          (await_mergeable deps >>= on_readiness deps deadline rounds next) wb refl e in
      waited-IsGuarded before s.between deadline rounds next w' g
        (reviewed_again wa wb r s.was_clean) s.followed
  after_review-IsGuarded before merged wa wb deadline rounds next w' g r e =
      absurd (phases_merge_nothing deps wa wb r)
  after_review-IsGuarded before awaiting_ci wa wb deadline rounds next w' g r e =
      absurd (ground arith)
  after_review-IsGuarded before (parked o) wa wb deadline rounds next w' g r e =
      absurd (ground arith)

  after_diff-IsGuarded :
      (before after : Option Text) (w w0 w1 : W) (deadline rounds : ℕ)
      (next : Act W ReviewLoopOutcome) (w' : W)
      → Guards before next
      → sync_with_base deps true w ≡ (ok (synced true), w0)
      → deps.branch_diff_hash w0 ≡ (ok after, w1)
      → after_diff deps before
          (await_mergeable deps >>= on_readiness deps deadline rounds next)
          after
          w1
        ≡ (ok merged, w')
      → IsGuarded before w'
  after_diff-IsGuarded before after w w0 w1 deadline rounds next w' g s d e =
      let rest = await_mergeable deps >>= on_readiness deps deadline rounds next in
      elim (Bool-cases (same_diff deps before after)) [
        | inl same ↦
            waited-IsGuarded before w1 deadline rounds next w' g (same_net_diff w w0 after s d same)
              (rw same at e)
        | inr changed ↦
            let b =
              bound (run_review_phases deps review1) (after_review deps rest) w1
                (rw changed at e) in
            after_review-IsGuarded before b.value w1 b.between deadline rounds next w' g b.first
              b.then_second
      ]

  on_sync-IsGuarded :
      (before : Option Text) (r : SyncResult) (w w0 : W) (deadline rounds : ℕ)
      (next : Act W ReviewLoopOutcome) (w' : W)
      → Guards before next
      → sync_with_base deps true w ≡ (ok r, w0)
      → on_sync deps before deadline rounds next r w0 ≡ (ok merged, w')
      → IsGuarded before w'
  on_sync-IsGuarded before (terminal o) w w0 deadline rounds next w' g s e = absurd (ground arith)
  on_sync-IsGuarded before (synced false) w w0 deadline rounds next w' g s e =
      waited-IsGuarded before w0 deadline rounds next w' g (unmoved w s) e
  on_sync-IsGuarded before (synced true) w w0 deadline rounds next w' g s e =
      let rest = await_mergeable deps >>= on_readiness deps deadline rounds next in
      let b = bound deps.branch_diff_hash (after_diff deps before rest) w0 e in
      after_diff-IsGuarded before b.value w w0 b.between deadline rounds next w' g s b.first
        b.then_second

  integration_loop-IsGuarded :
      (fuel : ℕ) (before : Option Text) (deadline rounds : ℕ) (w w' : W)
      → integration_loop deps fuel before deadline rounds w ≡ (ok merged, w')
      → IsGuarded before w'
  unfolding integration_loop
  integration_loop-IsGuarded zero before deadline rounds w w' e = absurd (ground arith)
  integration_loop-IsGuarded (suc fuel) before deadline rounds w w' e =
      let next = integration_loop deps fuel before deadline (rounds + 1) in
      let b = bound (sync_with_base deps true) (on_sync deps before deadline rounds next) w e in
      on_sync-IsGuarded before b.value w b.between deadline rounds next w'
        (λ v v'. integration_loop-IsGuarded fuel before deadline (rounds + 1) v v') b.first
        b.then_second

  -- A merge of a flow that began in `w`: the net diff was read first.
  pub record IsMergedBehind (w w' : W) : Type 0 where
    pub before : Option Text
    pub entered : W
    pub first_diff : deps.branch_diff_hash w ≡ (ok before, entered)
    pub guarded : IsGuarded before w'

  -- A pull request is merged only right after the wait for it said that it is ready, and only where
  -- that wait began on a branch that the sync did not move, or whose net diff after the sync is the
  -- one that was read as the flow began, or on which both review phases and the gate of the checks
  -- were run again.
  pub run_integration-IsMergedBehind :
      (fuel : ℕ) (w w' : W) → run_integration deps fuel w ≡ (ok merged, w') → IsMergedBehind w w'
  unfolding run_integration
  run_integration-IsMergedBehind fuel w w' e =
      let first = bound deps.branch_diff_hash (after_first_diff deps fuel) w e in
      let second =
        bound deps.now (from_start deps fuel first.value) first.between first.then_second in
      record {
        before = first.value;
        entered = first.between;
        first_diff = first.first;
        guarded =
            integration_loop-IsGuarded fuel first.value
              (second.value + deps.behind_rebase_budget_minutes * 60000) 1 second.between w'
              second.then_second;
      }
