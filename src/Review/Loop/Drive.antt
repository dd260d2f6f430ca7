-- ===== src/Review/Loop/Drive.antt =====
-- review/review-loop.ts: the fix lane of the hosted gate, its ports and
-- `runHostedFix`. The world is the gate's, with its
-- record, beside what else the steps change; the attempts of the lane stand before it.
pub mod Consult
pub mod Wired
pub mod Clear
pub mod Answers
pub mod Disposed
pub mod Written
pub mod Repaired
use ralph_autopilot.Common.{
  ℕ, zero, suc, ◌+◌, ◌-◌, leb, Bool, true, false, not, ◌&&◌, ◌||◌, Option, none, some, is_some,
  List, [], ◌∷◌, any, filter, length, Text, text_eq, if◌then◌else◌,
}
use ralph_autopilot.Store.Types.{Phase, phase0}
use ralph_autopilot.Review.Hosted.{Platform, ReviewThread, HostedFinding}
use ralph_autopilot.Review.Hosted.Threads.{HostedWorklist, build_hosted_worklist}
use ralph_autopilot.Review.Hosted.Block.{
  MergeStateStatus, MergeStatusSnapshot, ChecksSnapshot, UnavailableReason, ThreadsUnavailable,
  MergeBlockCause, hosted_review, behind_or_conflict, required_checks, threads_unavailable,
  mergeable, is_empty, classify_merge_block,
}
use ralph_autopilot.Review.Hosted.Gate.{
  GateWorld, GateOutcomes, DispositionKind, DispositionInput, fixed, fold_hosted_gate_state,
  already_replied_to, dispose_finding,
}
use ralph_autopilot.Review.Hosted.Observe.{
  ReviewThreadsRead, threads, unavailable, HostedGateVerdict, clean_head, findings_head,
  blocked_head, defer, or_head, observe, is_rate_limited,
}
use ralph_autopilot.Review.Loop.{
  Fault, Result, ok, thrown, Act, ◌>>=◌, ◌>>◌, pure, beside, of_parse_failure, PhaseOutcome,
  escalated, ParkedOutcome, master_triage,
}
use ralph_autopilot.Review.Loop.Fix.{Turn, stop, again, degrade}
use ralph_autopilot.Review.Loop.Phases.{
  LoopDeps, HostedDecision, clear, repaired, stuck_on, resync_on, defer_on, settle,
}

-- `HostedDisposition`
pub record HostedDisposition : Type 0 where
  pub thread_id : Text
  pub disposition : DispositionKind
  pub rationale : Text
  pub verification : Text

pub data HostedFixResult : Type 0 where
  answered : List HostedDisposition → HostedFixResult
  refused_by_agent : Text → HostedFixResult

-- What the lane says to the master of what it tried, before it is rendered.
pub data DriveFailure : Type 0 where
  conflicting : ℕ → ℕ → ℕ → DriveFailure
  unchanged : DriveFailure
  exhausted : ℕ → DriveFailure
  no_disposition : DriveFailure
  not_verified : Option Text → Option Text → DriveFailure
  no_head : DriveFailure

-- The ports of the lane. `read_polls` are the reads of the threads by the number of the poll, and
-- `gate_outcomes` says what comes of the writes of a disposition.
pub record HostedDeps (W : Type 0) : Type 0 where
  pub platform : Platform
  pub observation_polls : ℕ
  pub read_polls : GateWorld × W → ℕ → ReviewThreadsRead
  pub runner_pushed_sha : GateWorld × W → Option Text
  pub read_checks : Act (GateWorld × W) ChecksSnapshot
  pub gate_outcomes : GateWorld → HostedFinding → GateOutcomes
  pub remote_branch_head : Act (GateWorld × W) (Option Text)
  pub run_fix :
      List HostedFinding → List HostedFinding → Option Text → Act (GateWorld × W) HostedFixResult
  pub escalate_hosted_blocker :
      MergeBlockCause
      → Option HostedWorklist
      → Option Text
      → ℕ
      → Option DriveFailure
      → Act (GateWorld × W) (Unit {0})

module _ {W : Type 0} (deps : LoopDeps (GateWorld × W)) (ports : HostedDeps W) where
  abbrev pub Lane : Type 0 → Type 0
  Lane A = Act (ℕ × (GateWorld × W)) A

  -- `escalateHostedBlocker`, with the attempts as they stand.
  abbrev pub hand_over :
      MergeBlockCause
      → Option HostedWorklist
      → Option Text
      → Option DriveFailure
      → Lane HostedDecision
  hand_over cause wl head why (n, v) =
      (beside (ports.escalate_hosted_blocker cause wl head n why)
          >> pure (stuck_on (master_triage phase0)))
        (n, v)

  -- `readRemoteHeadQuietly` and `readChecksQuietly`
  abbrev quietly {ℓ} : {A : Type ℓ} → Result (Option A) → Option A
  quietly (ok o) = o
  quietly (thrown e) = none

  abbrev quiet_checks : Result ChecksSnapshot → Option ChecksSnapshot
  quiet_checks (ok c) = some c
  quiet_checks (thrown e) = none

  abbrev pub read_remote_head : Act (GateWorld × W) (Option Text)
  read_remote_head v = let (r, v') = ports.remote_branch_head v in (ok (quietly r), v')

  abbrev pub read_checks_quietly : Act (GateWorld × W) (Option ChecksSnapshot)
  read_checks_quietly v = let (r, v') = ports.read_checks v in (ok (quiet_checks r), v')

  -- A fix ran, or the run is settled.
  pub data HostedFixRun : Type 0 where
    ran : List HostedDisposition → HostedFixRun
    settled_run : ParkedOutcome → HostedFixRun

  abbrev or_triage : Option ParkedOutcome → ParkedOutcome
  or_triage none = master_triage phase0
  or_triage (some o) = o

  abbrev settle_run : PhaseOutcome → Act (GateWorld × W) HostedFixRun
  settle_run outcome = settle deps phase0 outcome >>= λ o. pure (settled_run (or_triage o))

  abbrev on_hosted_fix : HostedFixResult → Act (GateWorld × W) HostedFixRun
  on_hosted_fix (answered ds) = pure (ran ds)
  on_hosted_fix (refused_by_agent question) = settle_run (escalated question)

  abbrev on_hosted_turn : Turn → Act (GateWorld × W) HostedFixRun → Act (GateWorld × W) HostedFixRun
  on_hosted_turn (stop (ok outcome)) retry = settle_run outcome
  on_hosted_turn (stop (thrown e)) retry = λ v. (thrown e, v)
  on_hosted_turn (again attempts retries) retry = retry

  abbrev on_hosted_result :
      Result HostedFixRun
      → ℕ
      → ℕ
      → Act (GateWorld × W) HostedFixRun
      → Act (GateWorld × W) HostedFixRun
  on_hosted_result (ok run) attempts retries retry = pure run
  on_hosted_result (thrown e) attempts retries retry =
      on_hosted_turn (degrade deps.max_container_retries of_parse_failure e attempts retries) retry

  abbrev dispatch_hosted :
      HostedWorklist
      → List HostedFinding
      → Option Text
      → ℕ
      → ℕ
      → Act (GateWorld × W) HostedFixRun
      → Act (GateWorld × W) HostedFixRun
  dispatch_hosted wl fresh head attempts retries retry v =
      let (r, v') = (ports.run_fix fresh wl.buckets.human_threads head >>= on_hosted_fix) v in
      on_hosted_result r attempts retries retry v'

  -- The retries that are left, as in the conflict fix.
  unfoldable pub hosted_fix_left :
      ℕ → HostedWorklist → List HostedFinding → Option Text → ℕ → Act (GateWorld × W) HostedFixRun
  hosted_fix_left zero wl fresh head attempts =
      dispatch_hosted wl fresh head attempts deps.max_container_retries (pure (ran []))
  hosted_fix_left (suc left) wl fresh head attempts =
      dispatch_hosted wl fresh head attempts (deps.max_container_retries - suc left)
        (hosted_fix_left left wl fresh head attempts)

  unfoldable pub run_hosted_fix :
      HostedWorklist → List HostedFinding → Option Text → ℕ → Act (GateWorld × W) HostedFixRun
  unfolding hosted_fix_left
  run_hosted_fix = hosted_fix_left deps.max_container_retries
