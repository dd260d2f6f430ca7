-- ===== src/Review/Loop/Drive/Clear.antt =====
-- review/review-loop.ts: a merge of the loop with its hosted gate in place.
use ralph_autopilot.Common.{
  ℕ, ◌+◌, ◌≡◌, refl, Bool, true, false, ◌&&◌, Option, none, some, List, [], ◌∷◌, Text, leb,
  Bool-cases, inl, inr, arith,
}
use ralph_autopilot.Review.Hosted.{HostedFinding}
use ralph_autopilot.Review.Hosted.Threads.{HostedWorklist}
use ralph_autopilot.Review.Hosted.Block.{
  MergeStatusSnapshot, MergeBlockCause, hosted_review, is_mergeable_state,
}
use ralph_autopilot.Review.Hosted.Gate.{GateWorld}
use ralph_autopilot.Review.Hosted.Observe.{
  HostedGateVerdict, clean_head, findings_head, blocked_head, defer, or_head, observe, at_least_one,
}
use ralph_autopilot.Review.Hosted.Observe.Bounded.{IsCleanRead, observe-IsCleanRead}
use ralph_autopilot.Review.Loop.{Result, ok, pure, beside, bound, merged, master_triage}
use ralph_autopilot.Review.Loop.Phases.{LoopDeps, HostedDecision, clear, repaired, stuck_on}
use ralph_autopilot.Review.Loop.Merge.{merge, run_integration}
use ralph_autopilot.Review.Loop.Merge.Guarded.{run_integration-IsMergedBehind}
use ralph_autopilot.Review.Loop.Merge.Ready.{IsReady, ungated, consulted, await_mergeable-IsReady}
use ralph_autopilot.Review.Loop.Drive.{
  HostedDisposition, DriveFailure, conflicting, unchanged, exhausted, no_disposition, not_verified,
  no_head, HostedDeps, Lane, hand_over, read_remote_head, HostedFixRun, ran, settled_run,
  run_hosted_fix,
}
use ralph_autopilot.Review.Loop.Drive.Consult.{
  admissible, claims_fix, is_unmoved, in_gate, dispose_all, write_replies, verify_push,
  on_dispositions, on_run, fresh_of, on_fresh, has_conflict, drive_hosted_findings, gate_head,
  if_wired, on_verdict, hosted_observe_verdict,
}
use ralph_autopilot.Review.Loop.Drive.Wired.{wired}

module _ {W : Type 0} (deps : LoopDeps (GateWorld × W)) (ports : HostedDeps W) where
  -- A step that never calls the gate clear.
  abbrev IsNeverClear : Lane deps ports HostedDecision → Type 0
  IsNeverClear m = (s s' : ℕ × (GateWorld × W)) → m s ≡ (ok clear, s') → ⊥

  hand_over-IsNeverClear :
      (cause : MergeBlockCause) (wl : Option HostedWorklist) (head : Option Text)
      (why : Option DriveFailure)
      → IsNeverClear (hand_over deps ports cause wl head why)
  hand_over-IsNeverClear cause wl head why (n, v) s' e =
      let b =
        bound (beside (ports.escalate_hosted_blocker cause wl head n why))
          (λ _. pure (stuck_on (master_triage _))) (n, v) e in
      ground (arith, b.then_second)

  module _ (wl : HostedWorklist) (findings : List HostedFinding) (head : Option Text) where
    write_replies-IsNeverClear :
        (fresh : List HostedFinding) (ds : List HostedDisposition) (reply : Option Text)
        → IsNeverClear (write_replies deps ports wl findings head fresh ds reply)
    write_replies-IsNeverClear fresh ds none s s' e =
        hand_over-IsNeverClear (hosted_review findings) (some wl) head (some no_head) s s' e
    write_replies-IsNeverClear fresh ds (some []) s s' e =
        hand_over-IsNeverClear (hosted_review findings) (some wl) head (some no_head) s s' e
    write_replies-IsNeverClear fresh ds (some (c ∷ r)) s s' e =
        let b =
          bound (beside (in_gate (dispose_all ports.gate_outcomes fresh ds (c ∷ r))))
            (λ _. pure repaired) s e in
        ground (arith, b.then_second)

    verify_push-IsNeverClear :
        (fresh : List HostedFinding) (ds : List HostedDisposition) (pushed : Option Text)
        → IsNeverClear (verify_push deps ports wl findings head fresh ds pushed)
    verify_push-IsNeverClear fresh ds pushed s s' e =
        elim (Bool-cases (claims_fix ds && is_unmoved pushed head)) [
          | inl k ↦
              hand_over-IsNeverClear (hosted_review findings) (some wl) head
                (some (not_verified pushed head)) s s' (rw k at e)
          | inr k ↦ write_replies-IsNeverClear fresh ds (or_head pushed head) s s' (rw k at e)
        ]

    on_dispositions-IsNeverClear :
        (fresh : List HostedFinding) (ds : List HostedDisposition)
        → IsNeverClear (on_dispositions deps ports wl findings head fresh ds)
    on_dispositions-IsNeverClear fresh [] s s' e =
        hand_over-IsNeverClear (hosted_review findings) (some wl) head (some no_disposition) s s' e
    on_dispositions-IsNeverClear fresh (d ∷ ds) s s' e =
        let b =
          bound (beside (read_remote_head deps ports))
            (verify_push deps ports wl findings head fresh (d ∷ ds)) s e in
        verify_push-IsNeverClear fresh (d ∷ ds) b.value b.between s' b.then_second

    on_run-IsNeverClear :
        (fresh : List HostedFinding) (r : HostedFixRun deps ports)
        → IsNeverClear (on_run deps ports wl findings head fresh r)
    on_run-IsNeverClear fresh (settled_run o) s s' e = ground arith
    on_run-IsNeverClear fresh (ran ds) s s' e =
        on_dispositions-IsNeverClear fresh (admissible fresh ds) s s' e

    on_fresh-IsNeverClear :
        (fresh : List HostedFinding) → IsNeverClear (on_fresh deps ports wl findings head fresh)
    on_fresh-IsNeverClear [] s s' e =
        hand_over-IsNeverClear (hosted_review findings) (some wl) head (some unchanged) s s' e
    on_fresh-IsNeverClear (f ∷ fs) (n, v) s' e = elim (Bool-cases (leb deps.max_fix_attempts n)) [
      | inl k ↦
          hand_over-IsNeverClear (hosted_review findings) (some wl) head (some (exhausted n)) (n, v)
            s' (rw k at e)
      | inr k ↦
          let b =
            bound (beside (run_hosted_fix deps ports wl (f ∷ fs) head (n + 1)))
              (on_run deps ports wl findings head (f ∷ fs)) (n + 1, v) (rw k at e) in
          on_run-IsNeverClear (f ∷ fs) b.value b.between s' b.then_second
    ]

    drive-IsNeverClear : IsNeverClear (drive_hosted_findings deps ports head wl findings)
    unfolding drive_hosted_findings
    drive-IsNeverClear (n, (g, w)) s' e = elim (Bool-cases (has_conflict deps ports wl)) [
      | inl k ↦
          hand_over-IsNeverClear (hosted_review findings) (some wl) head (some (conflicting _ _ _))
            (n, (g, w)) s' (rw k at e)
      | inr k ↦ on_fresh-IsNeverClear (fresh_of deps ports findings g) (n, (g, w)) s' (rw k at e)
    ]

  -- A clear consultation is a clean verdict, and changes nothing.
  on_verdict-clean :
      (v : HostedGateVerdict) (s s' : ℕ × (GateWorld × W))
      → on_verdict deps ports v s ≡ (ok clear, s')
      → (h : Option Text) × (v ≡ clean_head h)
  on_verdict-clean (clean_head h) s s' e = (h, refl)
  on_verdict-clean (defer detail) s s' e = absurd (ground arith)
  on_verdict-clean (findings_head wl findings head) s s' e =
      absurd (drive-IsNeverClear wl findings head s s' e)
  on_verdict-clean (blocked_head cause head) s s' e =
      absurd (hand_over-IsNeverClear cause none head none s s' e)

  -- The threads were read clean, on the head of the merge.
  pub record IsObserved (s : MergeStatusSnapshot) (w : GateWorld × W) : Type 0 where
    pub head : Option Text
    pub poll : ℕ
    pub clean_read :
        IsCleanRead ports.platform
          (gate_head deps ports s w)
          (ports.read_polls w)
          (at_least_one ports.observation_polls)
          poll
          head

  if_wired-on :
      (gate : Bool) (consult : Lane deps ports HostedDecision) (s : ℕ × (GateWorld × W))
      {r : Result HostedDecision × (ℕ × (GateWorld × W))}
      → gate ≡ true
      → if_wired deps ports gate consult s ≡ r
      → consult s ≡ r
  if_wired-on true consult s g e = e
  if_wired-on false consult s g e = cc

  hosted_observe_verdict-IsObserved :
      (s : MergeStatusSnapshot) (n : ℕ) (v : GateWorld × W) (s' : ℕ × (GateWorld × W))
      → deps.hosted_gate_wired ≡ true
      → hosted_observe_verdict deps ports s (n, v) ≡ (ok clear, s')
      → IsObserved s v
  unfolding hosted_observe_verdict
  hosted_observe_verdict-IsObserved s n v s' g e =
      let seen =
        (observe ports.platform (gate_head deps ports s v) (ports.read_polls v)
          ports.observation_polls).verdict in
      let (h, same) =
        on_verdict-clean seen (n, v) s'
          (if_wired-on deps.hosted_gate_wired (on_verdict deps ports seen) (n, v) g e) in
      let (k, c) =
        observe-IsCleanRead ports.platform (gate_head deps ports s v) (ports.read_polls v)
          ports.observation_polls h same in
      record { head = h; poll = k; clean_read = c }

  -- A merge behind the gate: the state of the merge was read, the gate was consulted next on what
  -- was read, its own reading of the threads was clean, the consultation was clear, and the merge came
  -- next.
  pub record IsMergedClean (w' : ℕ × (GateWorld × W)) : Type 0 where
    pub state : MergeStatusSnapshot
    pub before : ℕ × (GateWorld × W)
    pub asked : ℕ × (GateWorld × W)
    pub agreed : ℕ × (GateWorld × W)
    pub state_read : (wired deps ports).read_merge_status before ≡ (ok state, asked)
    pub permitted : deps.wait_for_checks ≡ true → is_mergeable_state state.state ≡ true
    pub observed : IsObserved state asked.1
    pub was_clear : hosted_observe_verdict deps ports state asked ≡ (ok clear, agreed)
    pub merged_there : merge (wired deps ports) agreed ≡ (ok merged, w')

  merged_clean :
      (agreed w' : ℕ × (GateWorld × W))
      → deps.hosted_gate_wired ≡ true
      → IsReady (wired deps ports) agreed
      → merge (wired deps ports) agreed ≡ (ok merged, w')
      → IsMergedClean w'
  merged_clean agreed w' g (ungated c n) m = cc
  merged_clean agreed w' g (consulted before (n, v) s r o p) m = record {
    state = s;
    before = before;
    asked = (n, v);
    agreed = agreed;
    state_read = r;
    permitted = p;
    observed = hosted_observe_verdict-IsObserved s n v agreed g o;
    was_clear = o;
    merged_there = m;
  }

  -- With the hosted gate in place, a pull request is merged only where the gate was consulted on the
  -- merge state that `readMergeStatus` gave right before, with nothing done between that consultation
  -- and the merge, and its reading of the threads left no conversation open on the head; with a wait
  -- for checks that state is one that permits a merge.
  pub run_integration-IsMergedClean :
      (fuel : ℕ) (w w' : ℕ × (GateWorld × W))
      → deps.hosted_gate_wired ≡ true
      → run_integration (wired deps ports) fuel w ≡ (ok merged, w')
      → IsMergedClean w'
  run_integration-IsMergedClean fuel w w' g e =
      let behind = (run_integration-IsMergedBehind (wired deps ports) fuel w w' e).guarded in
      merged_clean behind.mergeable w' g
        (await_mergeable-IsReady (wired deps ports) behind.waited behind.mergeable behind.was_ready)
        behind.merged_there
