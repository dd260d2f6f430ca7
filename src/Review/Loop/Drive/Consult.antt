-- ===== src/Review/Loop/Drive/Consult.antt =====
-- review/review-loop.ts: `driveHostedFindings`, and the two consultations of the hosted gate,
-- `hostedObserveVerdict` and `hostedGateVerdict`, with `classify` of review/hosted-gate.ts.
use ralph_autopilot.Common.{
  ◌+◌, leb, Bool, true, false, not, ◌&&◌, ◌||◌, Option, none, some, List, [], ◌∷◌, any, filter,
  length, Text, text_eq, if◌then◌else◌,
}
use ralph_autopilot.Review.Hosted.{HostedFinding}
use ralph_autopilot.Review.Hosted.Threads.{HostedWorklist, build_hosted_worklist}
use ralph_autopilot.Review.Hosted.Block.{
  MergeStatusSnapshot, ChecksSnapshot, UnavailableReason, MergeBlockCause, hosted_review,
  behind_or_conflict, required_checks, threads_unavailable, mergeable, is_empty,
  classify_merge_block,
}
use ralph_autopilot.Review.Hosted.Gate.{
  GateWorld, GateOutcomes, DisposeResult, DispositionKind, DispositionInput, fold_hosted_gate_state,
  already_replied_to, dispose_finding,
}
use ralph_autopilot.Review.Hosted.Observe.{
  ReviewThreadsRead, threads, unavailable, HostedGateVerdict, clean_head, findings_head,
  blocked_head, defer, or_head, observe,
}
use ralph_autopilot.Review.Loop.{other_error, thrown, Act, ◌>>=◌, ◌>>◌, pure, beside}
use ralph_autopilot.Review.Loop.Phases.{
  LoopDeps, HostedDecision, clear, repaired, stuck_on, resync_on, defer_on,
}
use ralph_autopilot.Review.Loop.Drive.{
  HostedDisposition, DriveFailure, conflicting, unchanged, exhausted, no_disposition, not_verified,
  no_head, HostedDeps, Lane, hand_over, read_remote_head, read_checks_quietly, HostedFixRun, ran,
  settled_run, run_hosted_fix,
}

abbrev pub answers : HostedDisposition → HostedFinding → Bool
answers d f = text_eq f.thread_id d.thread_id

-- The dispositions that answer a finding of the worklist.
abbrev pub admissible : List HostedFinding → List HostedDisposition → List HostedDisposition
admissible fresh ds = filter (λ d. any (answers d) fresh) ds

abbrev pub is_fixed : DispositionKind → Bool
is_fixed DispositionKind.fixed = true
is_fixed DispositionKind.reasoned_invalid = false

abbrev pub claims_fix : List HostedDisposition → Bool
claims_fix ds = any (λ (d : HostedDisposition). is_fixed d.disposition) ds

abbrev same_text : Text → Option Text → Bool
same_text a none = false
same_text a (some b) = text_eq a b

-- `pushedHead === null || pushedHead === head`
abbrev pub is_unmoved : Option Text → Option Text → Bool
is_unmoved none head = true
is_unmoved (some pushed) head = same_text pushed head

abbrev pub input_of : HostedDisposition → Text → DispositionInput
input_of d head = record {
  disposition = d.disposition;
  rationale = d.rationale;
  verification = d.verification;
  head_sha = head;
}

-- `fresh.find(…)`, and the disposition of what it finds; to find none is a TypeError.
abbrev pub dispose_one :
    (GateWorld → HostedFinding → GateOutcomes)
    → List HostedFinding
    → HostedDisposition
    → Text
    → Act GateWorld DisposeResult
dispose_one outcomes [] d head g = (thrown (other_error []), g)
dispose_one outcomes (f ∷ fs) d head g =
    let rest = dispose_one outcomes fs d head g in
    if answers d f then dispose_finding (outcomes g f) f (input_of d head) g else rest

-- One after the other; a write that fails ends the lane. A refusal is logged and passed over.
unfoldable pub dispose_all :
    (GateWorld → HostedFinding → GateOutcomes)
    → List HostedFinding
    → List HostedDisposition
    → Text
    → Act GateWorld (Unit {0})
dispose_all outcomes fresh [] head = pure tt
dispose_all outcomes fresh (d ∷ ds) head =
    dispose_one outcomes fresh d head >>= λ _. dispose_all outcomes fresh ds head

-- A step on the gate's part of the world.
abbrev pub in_gate : {W A : Type 0} → Act GateWorld A → Act (GateWorld × W) A
in_gate m (g, w) = let (r, g') = m g in (r, (g', w))

module _ {W : Type 0} (deps : LoopDeps (GateWorld × W)) (ports : HostedDeps W) where
  abbrev to_master :
      HostedWorklist
      → List HostedFinding
      → Option Text
      → DriveFailure
      → Lane deps ports HostedDecision
  to_master wl findings head why =
      hand_over deps ports (hosted_review findings) (some wl) head (some why)

  -- The replies and resolutions, on a head that can be named.
  abbrev pub write_replies :
      HostedWorklist
      → List HostedFinding
      → Option Text
      → List HostedFinding
      → List HostedDisposition
      → Option Text
      → Lane deps ports HostedDecision
  write_replies wl findings head fresh ds (some (c ∷ reply_head)) s =
      (beside (in_gate (dispose_all ports.gate_outcomes fresh ds (c ∷ reply_head)))
          >> pure repaired)
        s
  write_replies wl findings head fresh ds _ s = to_master wl findings head no_head s

  abbrev pub verify_push :
      HostedWorklist
      → List HostedFinding
      → Option Text
      → List HostedFinding
      → List HostedDisposition
      → Option Text
      → Lane deps ports HostedDecision
  verify_push wl findings head fresh ds pushed =
      if claims_fix ds && is_unmoved pushed head
      then to_master wl findings head (not_verified pushed head)
      else write_replies wl findings head fresh ds (or_head pushed head)

  abbrev pub on_dispositions :
      HostedWorklist
      → List HostedFinding
      → Option Text
      → List HostedFinding
      → List HostedDisposition
      → Lane deps ports HostedDecision
  on_dispositions wl findings head fresh [] = to_master wl findings head no_disposition
  on_dispositions wl findings head fresh (d ∷ ds) =
      beside (read_remote_head deps ports) >>= verify_push wl findings head fresh (d ∷ ds)

  abbrev pub on_run :
      HostedWorklist
      → List HostedFinding
      → Option Text
      → List HostedFinding
      → HostedFixRun deps ports
      → Lane deps ports HostedDecision
  on_run wl findings head fresh (settled_run outcome) = pure (stuck_on outcome)
  on_run wl findings head fresh (ran ds) =
      on_dispositions wl findings head fresh (admissible fresh ds)

  -- What was not replied to at its content.
  abbrev pub fresh_of : List HostedFinding → GateWorld → List HostedFinding
  fresh_of findings g =
      filter (λ f. not (already_replied_to (fold_hosted_gate_state g.stream) f)) findings

  abbrev pub on_fresh :
      HostedWorklist
      → List HostedFinding
      → Option Text
      → List HostedFinding
      → Lane deps ports HostedDecision
  on_fresh wl findings head [] s = to_master wl findings head unchanged s
  on_fresh wl findings head (f ∷ fs) (n, v) =
      if leb deps.max_fix_attempts n
      then to_master wl findings head (exhausted n) (n, v)
      else (beside (run_hosted_fix deps ports wl (f ∷ fs) head (n + 1))
            >>= on_run wl findings head (f ∷ fs))
          (n + 1, v)

  abbrev pub has_conflict : HostedWorklist → Bool
  has_conflict wl =
      not (is_empty wl.buckets.human_threads) || not (is_empty wl.buckets.unknown_bot_threads)

  unfoldable pub drive_hosted_findings :
      Option Text → HostedWorklist → List HostedFinding → Lane deps ports HostedDecision
  unfolding run_hosted_fix dispose_all
  drive_hosted_findings head wl findings (n, (g, w)) =
      if has_conflict wl
      then to_master wl findings head
          (conflicting (length wl.buckets.human_threads) (length wl.buckets.unknown_bot_threads)
            (length findings))
          (n, (g, w))
      else on_fresh wl findings head (fresh_of findings g) (n, (g, w))

  -- The head of a consultation: the snapshot's, or the one that the runner pushed.
  abbrev pub gate_head : MergeStatusSnapshot → GateWorld × W → Option Text
  gate_head s v = or_head s.head_sha (ports.runner_pushed_sha v)

  abbrev pub on_verdict : HostedGateVerdict → Lane deps ports HostedDecision
  on_verdict (clean_head head) = pure clear
  on_verdict (defer detail) = pure (defer_on detail)
  on_verdict (findings_head wl findings head) = drive_hosted_findings head wl findings
  on_verdict (blocked_head cause head) = hand_over deps ports cause none head none

  -- Without a gate there is nothing to consult.
  abbrev pub if_wired : Bool → Lane deps ports HostedDecision → Lane deps ports HostedDecision
  if_wired true consult = consult
  if_wired false consult = pure clear

  unfoldable pub hosted_observe_verdict : MergeStatusSnapshot → Lane deps ports HostedDecision
  unfolding drive_hosted_findings
  hosted_observe_verdict s (n, v) =
      if_wired deps.hosted_gate_wired
        (on_verdict
          (observe ports.platform (gate_head s v) (ports.read_polls v)
            ports.observation_polls).verdict)
        (n, v)

  -- `classify`: its cause and its worklist.
  abbrev pub classify_threads :
      MergeStatusSnapshot
      → Option Text
      → Option ChecksSnapshot
      → ReviewThreadsRead
      → MergeBlockCause × Option HostedWorklist
  classify_threads s head checks (unavailable reason detail) = (
    classify_merge_block (record {
      merge = s;
      worklist = none;
      threads_unavailable = some (record { reason = reason; detail = detail });
      checks = checks;
    }),
    none,
  )
  classify_threads s head checks (threads ts reported) =
      let wl =
        build_hosted_worklist ports.platform ts (or_head head (or_head s.head_sha reported)) in
      (
        classify_merge_block
            (record { merge = s; worklist = some wl; threads_unavailable = none; checks = checks }),
        some wl,
      )

  abbrev pub on_cause :
      MergeBlockCause → Option HostedWorklist → Option Text → Lane deps ports HostedDecision
  on_cause mergeable wl head = pure clear
  on_cause (required_checks failures true) wl head = pure clear
  on_cause (behind_or_conflict state) wl head = pure (resync_on state)
  on_cause (threads_unavailable UnavailableReason.rate_limited detail) wl head =
      pure (defer_on detail)
  on_cause (hosted_review findings) (some wl) head = drive_hosted_findings head wl findings
  on_cause cause wl head = hand_over deps ports cause wl head none

  abbrev pub on_checks :
      MergeStatusSnapshot → Option Text → Option ChecksSnapshot → Lane deps ports HostedDecision
  on_checks s head checks (n, v) =
      let (cause, wl) = classify_threads s head checks (ports.read_polls v 0) in
      on_cause cause wl head (n, v)

  pub hosted_gate_verdict : MergeStatusSnapshot → Lane deps ports HostedDecision
  unfolding drive_hosted_findings
  hosted_gate_verdict s (n, v) =
      if_wired deps.hosted_gate_wired
        (beside (read_checks_quietly deps ports) >>= on_checks s (gate_head s v)) (n, v)
