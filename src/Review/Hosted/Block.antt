-- ===== src/Review/Hosted/Block.antt =====
-- review/hosted-review.ts `classifyMergeBlock`: why GitHub reports a pull request as unmergeable.
pub mod Verdict
use ralph_autopilot.Common.{
  ◌≡◌, refl, Bool, true, false, not, ◌&&◌, Option, none, some, is_some, List, [], ◌∷◌, foldl, Text,
  if◌then◌else◌, arith,
}
use ralph_autopilot.Review.Hosted.{HostedFinding, ReviewThreadAuthorType}
use ralph_autopilot.Review.Hosted.Threads.{HostedBuckets, HostedWorklist, no_buckets, put_bucket}

pub data MergeStateStatus : Type 0 where
  clean unstable has_hooks blocked behind dirty draft unknown : MergeStateStatus

pub data PullRequestReviewDecision : Type 0 where
  approved changes_requested review_required : PullRequestReviewDecision

pub record MergeStatusSnapshot : Type 0 where
  pub state : MergeStateStatus
  pub review_decision : Option PullRequestReviewDecision
  pub head_sha : Option Text

pub data ChecksState : Type 0 where
  green red no_checks pending : ChecksState

pub record ChecksSnapshot : Type 0 where
  pub state : ChecksState
  pub failures : List Text

pub data UnavailableReason : Type 0 where
  permissions rate_limited error : UnavailableReason

pub record ThreadsUnavailable : Type 0 where
  pub reason : UnavailableReason
  pub detail : Text

-- The unknown ruleset carries what its text is made of.
pub data MergeBlockCause : Type 0 where
  hosted_review : List HostedFinding → MergeBlockCause
  human_review : Option PullRequestReviewDecision → List HostedFinding → MergeBlockCause
  required_checks : List Text → Bool → MergeBlockCause
  behind_or_conflict : MergeStateStatus → MergeBlockCause
  draft_pr : MergeBlockCause
  threads_unavailable : UnavailableReason → Text → MergeBlockCause
  unknown_bots : List HostedFinding → MergeBlockCause
  unknown_ruleset : MergeStateStatus → Option PullRequestReviewDecision → MergeBlockCause
  mergeable : MergeBlockCause

pub record MergeBlockInput : Type 0 where
  pub merge : MergeStatusSnapshot
  pub worklist : Option HostedWorklist
  pub threads_unavailable : Option ThreadsUnavailable
  pub checks : Option ChecksSnapshot

abbrev pub is_empty {ℓ} : {A : Type ℓ} → List A → Bool
is_empty [] = true
is_empty (x ∷ xs) = false

abbrev pub hosted_gate_clean : HostedWorklist → Bool
hosted_gate_clean w =
    is_empty w.buckets.findings
    && is_empty w.buckets.human_threads
    && is_empty w.buckets.unknown_bot_threads

abbrev pub is_mergeable_state : MergeStateStatus → Bool
is_mergeable_state clean = true
is_mergeable_state unstable = true
is_mergeable_state has_hooks = true
is_mergeable_state _ = false

unfoldable pub bucket_by_author : List HostedFinding → HostedBuckets
bucket_by_author fs = foldl (λ b (f : HostedFinding). put_bucket b f.author_type f) no_buckets fs

abbrev pub hosted_cause : HostedBuckets → MergeStatusSnapshot → MergeBlockCause
hosted_cause b merge =
    if not (is_empty b.unknown_bot_threads)
    then unknown_bots b.unknown_bot_threads
    else if not (is_empty b.findings)
    then hosted_review b.findings
    else human_review merge.review_decision b.human_threads

-- The worklist has something that can be acted on.
abbrev pub has_work : Option HostedWorklist → Bool
has_work none = false
has_work (some w) = not (hosted_gate_clean w)

abbrev work_cause : Option HostedWorklist → MergeStatusSnapshot → MergeBlockCause
work_cause none merge = mergeable
work_cause (some w) merge = hosted_cause w.buckets merge

abbrev pub wants_human : Option PullRequestReviewDecision → Bool
wants_human (some changes_requested) = true
wants_human (some review_required) = true
wants_human _ = false

abbrev is_pending : ChecksState → Bool
is_pending pending = true
is_pending _ = false

abbrev is_unsettled : ChecksState → Bool
is_unsettled red = true
is_unsettled pending = true
is_unsettled _ = false

abbrev stale_of : Option HostedWorklist → List HostedFinding
stale_of none = []
stale_of (some w) = w.unresolved_stale

-- Behind the checks: the conversations that the head has moved past, or nothing that is known.
abbrev classify_rest : List HostedFinding → MergeStatusSnapshot → MergeBlockCause
classify_rest [] merge = unknown_ruleset merge.state merge.review_decision
classify_rest (f ∷ fs) merge = hosted_cause (bucket_by_author (f ∷ fs)) merge

abbrev classify_checks :
    Option ChecksSnapshot → List HostedFinding → MergeStatusSnapshot → MergeBlockCause
classify_checks none stale merge = classify_rest stale merge
classify_checks (some c) stale merge =
    if is_unsettled c.state
    then required_checks c.failures (is_pending c.state)
    else classify_rest stale merge

-- The branches behind the tests of the state itself.
abbrev classify_read : MergeBlockInput → Option ThreadsUnavailable → MergeBlockCause
classify_read input (some u) = threads_unavailable u.reason u.detail
classify_read input none =
    if is_mergeable_state input.merge.state
    then (if has_work input.worklist then work_cause input.worklist input.merge else mergeable)
    else if has_work input.worklist
    then work_cause input.worklist input.merge
    else if wants_human input.merge.review_decision
    then human_review input.merge.review_decision []
    else classify_checks input.checks (stale_of input.worklist) input.merge

abbrev classify_state : MergeStateStatus → MergeBlockInput → MergeBlockCause
classify_state behind input = behind_or_conflict behind
classify_state dirty input = behind_or_conflict dirty
classify_state draft input = draft_pr
classify_state s input = classify_read input input.threads_unavailable

unfoldable pub classify_merge_block : MergeBlockInput → MergeBlockCause
unfolding bucket_by_author
classify_merge_block input = classify_state input.merge.state input

abbrev pub curable_by_waiting : MergeBlockCause → Bool
curable_by_waiting (required_checks failures waiting) = waiting
curable_by_waiting _ = false

abbrev pub is_mergeable : MergeBlockCause → Bool
is_mergeable mergeable = true
is_mergeable _ = false

abbrev pub has_pending_check : Option ChecksSnapshot → Bool
has_pending_check none = false
has_pending_check (some c) = is_pending c.state

abbrev pub is_unattributed_state : MergeStateStatus → Bool
is_unattributed_state blocked = true
is_unattributed_state unknown = true
is_unattributed_state _ = false
