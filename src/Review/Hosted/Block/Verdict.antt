-- ===== src/Review/Hosted/Block/Verdict.antt =====
-- review/hosted-review.ts `classifyMergeBlock`: when it lets a merge through, waits, or misses a thread.
use ralph_autopilot.Common.{
  ◌≡◌, refl, true, false, not, ◌&&◌, Option, none, some, is_some, List, [], ◌∷◌, arith,
}
use ralph_autopilot.Review.Hosted.{HostedFinding}
use ralph_autopilot.Review.Hosted.Threads.{HostedBuckets, HostedWorklist}
use ralph_autopilot.Review.Hosted.Block.{
  ChecksSnapshot, MergeBlockInput, MergeStateStatus, MergeStatusSnapshot, ThreadsUnavailable,
  behind, blocked, bucket_by_author, classify_checks, classify_merge_block, classify_read,
  classify_rest, classify_state, clean, curable_by_waiting, dirty, draft, has_hooks,
  has_pending_check, has_work, hosted_cause, is_mergeable, is_mergeable_state,
  is_unattributed_state, stale_of, unknown, unstable, wants_human, work_cause,
}

module _ (b : HostedBuckets) (merge : MergeStatusSnapshot) where
  hosted_cause-is_mergeable : is_mergeable (hosted_cause b merge) ≡ false
  hosted_cause-is_mergeable = ground arith

  hosted_cause-curable_by_waiting : curable_by_waiting (hosted_cause b merge) ≡ false
  hosted_cause-curable_by_waiting = ground arith

module _ (merge : MergeStatusSnapshot) where
  classify_rest-shut :
      (stale : List HostedFinding)
      → (is_mergeable (classify_rest stale merge) ≡ false)
        × (curable_by_waiting (classify_rest stale merge) ≡ false)
  unfolding bucket_by_author
  classify_rest-shut [] = (refl, refl)
  classify_rest-shut (f ∷ fs) = (
    hosted_cause-is_mergeable (bucket_by_author (f ∷ fs)) merge,
    hosted_cause-curable_by_waiting (bucket_by_author (f ∷ fs)) merge,
  )

  classify_checks-shut :
      (o : Option ChecksSnapshot) (stale : List HostedFinding)
      → (is_mergeable (classify_checks o stale merge) ≡ false)
        × (curable_by_waiting (classify_checks o stale merge) ≡ has_pending_check o)
  classify_checks-shut none stale = classify_rest-shut stale
  classify_checks-shut (some c) stale = ground (arith, classify_rest-shut stale)

  work_cause-shut :
      (o : Option HostedWorklist)
      → has_work o ≡ true
      → (is_mergeable (work_cause o merge) ≡ false)
        × (curable_by_waiting (work_cause o merge) ≡ false)
  work_cause-shut none h = cc
  work_cause-shut (some w) h =
      (hosted_cause-is_mergeable w.buckets merge, hosted_cause-curable_by_waiting w.buckets merge)

classify_read-verdict :
    (input : MergeBlockInput) (u : Option ThreadsUnavailable)
    → (is_mergeable (classify_read input u) ≡ (
        is_mergeable_state input.merge.state && not (is_some u) && not (has_work input.worklist)))
      × (curable_by_waiting (classify_read input u) ≡ (
          not (is_mergeable_state input.merge.state)
          && not (is_some u)
          && not (has_work input.worklist)
          && not (wants_human input.merge.review_decision)
          && has_pending_check input.checks))
classify_read-verdict input (some u) = ground arith
classify_read-verdict input none = ground (
  arith,
  work_cause-shut input.merge input.worklist,
  classify_checks-shut input.merge input.checks (stale_of input.worklist),
)

classify_state-verdict :
    (s : MergeStateStatus) (input : MergeBlockInput)
    → input.merge.state ≡ s
    → (is_mergeable (classify_state s input) ≡ (
        is_mergeable_state s
        && not (is_some input.threads_unavailable)
        && not (has_work input.worklist)))
      × (curable_by_waiting (classify_state s input) ≡ (
          is_unattributed_state s
          && not (is_some input.threads_unavailable)
          && not (has_work input.worklist)
          && not (wants_human input.merge.review_decision)
          && has_pending_check input.checks))
classify_state-verdict behind input e = (refl, refl)
classify_state-verdict dirty input e = (refl, refl)
classify_state-verdict draft input e = (refl, refl)
classify_state-verdict clean input e =
    ground (arith, classify_read-verdict input input.threads_unavailable)
classify_state-verdict unstable input e =
    ground (arith, classify_read-verdict input input.threads_unavailable)
classify_state-verdict has_hooks input e =
    ground (arith, classify_read-verdict input input.threads_unavailable)
classify_state-verdict blocked input e =
    ground (arith, classify_read-verdict input input.threads_unavailable)
classify_state-verdict unknown input e =
    ground (arith, classify_read-verdict input input.threads_unavailable)

-- A merge is allowed exactly in the states that permit one, with the threads read and nothing in
-- the worklist that can be acted on: a thread read that failed never lets one through.
pub classify_merge_block-is_mergeable :
    (input : MergeBlockInput)
    → is_mergeable (classify_merge_block input) ≡ (
        is_mergeable_state input.merge.state
        && not (is_some input.threads_unavailable)
        && not (has_work input.worklist))
unfolding classify_merge_block
classify_merge_block-is_mergeable input = (classify_state-verdict input.merge.state input refl).0
