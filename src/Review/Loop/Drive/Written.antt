-- ===== src/Review/Loop/Drive/Written.antt =====
-- review/review-loop.ts `driveHostedFindings`: the steps behind the fix agent, in a lane that repaired.
use ralph_autopilot.Common.{
  ℕ, ◌≡◌, refl, ap, sym, ◌∙◌, true, false, ◌&&◌, Option, none, some, List, [], ◌∷◌, Text,
  Bool-cases, inl, inr, arith,
}
use ralph_autopilot.Review.Hosted.{HostedFinding}
use ralph_autopilot.Review.Hosted.Threads.{HostedWorklist}
use ralph_autopilot.Review.Hosted.Block.{MergeBlockCause, hosted_review, is_empty}
use ralph_autopilot.Review.Hosted.Gate.{GateWorld}
use ralph_autopilot.Review.Hosted.Observe.{or_head}
use ralph_autopilot.Review.Loop.{ok, Act, pure, beside, bound, master_triage}
use ralph_autopilot.Review.Loop.Phases.{LoopDeps, repaired, stuck_on}
use ralph_autopilot.Review.Loop.Drive.{
  HostedDisposition, DriveFailure, no_disposition, not_verified, no_head, HostedDeps, hand_over,
  read_remote_head, HostedFixRun, ran, settled_run,
}
use ralph_autopilot.Review.Loop.Drive.Consult.{
  admissible, in_gate, claims_fix, is_unmoved, dispose_all, write_replies, verify_push,
  on_dispositions, on_run,
}

-- A step beside a variable that ended well.
pub record Beside {S V A : Type 0} (m : Act V A) (s : S × V) (a : A) (s' : S × V) : Type 0 where
  pub ran_there : m s.1 ≡ (ok a, s'.1)
  pub same_variable : s'.0 ≡ s.0

pub beside-ok :
    {S V A : Type 0} (m : Act V A) (s : S × V) {a : A} {s' : S × V}
    → beside m s ≡ (ok a, s')
    → Beside m s a s'
beside-ok m s e = record {
  ran_there = ap (λ r. (r.0, r.1.1)) e;
  same_variable = sym (ap (λ r. r.1.0) e);
}

module _ {W : Type 0} (deps : LoopDeps (GateWorld × W)) (ports : HostedDeps W) where
  abbrev Laned : Type 0
  Laned = ℕ × (GateWorld × W)

  pub hand_over-repaired :
      (cause : MergeBlockCause) (wl : Option HostedWorklist) (head : Option Text)
      (why : Option DriveFailure) (s : Laned) {s' : Laned}
      → hand_over deps ports cause wl head why s ≡ (ok repaired, s')
      → ⊥
  hand_over-repaired cause wl head why (n, v) e =
      let b =
        bound (beside (ports.escalate_hosted_blocker cause wl head n why))
          (λ _. pure (stuck_on (master_triage _))) (n, v) e in
      ground (arith, b.then_second)

  module _ (wl : HostedWorklist) (findings : List HostedFinding) (head : Option Text) where
    -- The replies of a disposition list were written on a head, and a claimed fix had moved it.
    pub record IsWritten (fresh : List HostedFinding) (ds : List HostedDisposition) (s s' : Laned)
        : Type 0 where
      pub some_answer : is_empty ds ≡ false
      pub pushed : Option Text
      pub at : GateWorld × W
      pub reply_head : Text
      pub head_read : read_remote_head deps ports s.1 ≡ (ok pushed, at)
      pub verified : claims_fix ds ≡ true → is_unmoved pushed head ≡ false
      pub on_head : or_head pushed head ≡ some reply_head
      pub disposed : dispose_all ports.gate_outcomes fresh ds reply_head at.0 ≡ (ok tt, s'.1.0)
      pub attempts_kept : s'.0 ≡ s.0
      pub rest_kept : s'.1.1 ≡ at.1

    write_replies-written :
        (fresh : List HostedFinding) (ds : List HostedDisposition) (reply : Option Text) (s : Laned)
        {s' : Laned}
        → write_replies deps ports wl findings head fresh ds reply s ≡ (ok repaired, s')
        → (r : Text) × (reply ≡ some r)
          × (dispose_all ports.gate_outcomes fresh ds r s.1.0 ≡ (ok tt, s'.1.0))
          × (s'.0 ≡ s.0)
          × (s'.1.1 ≡ s.1.1)
    write_replies-written fresh ds none s e =
        absurd (hand_over-repaired (hosted_review findings) (some wl) head (some no_head) s e)
    write_replies-written fresh ds (some []) s e =
        absurd (hand_over-repaired (hosted_review findings) (some wl) head (some no_head) s e)
    write_replies-written fresh ds (some (c ∷ r)) s {s'} e =
        let m = dispose_all ports.gate_outcomes fresh ds (c ∷ r) in
        let b = bound (beside (in_gate m)) (λ _. pure repaired) s e in
        let same : b.between ≡ s' = ap (λ x. x.1) b.then_second in
        (
          c ∷ r,
          refl,
          ap (λ x. (x.0, x.1.1.0)) b.first ∙ ap (λ (x : Laned). (ok b.value, x.1.0)) same,
          sym (ap (λ x. x.1.0) b.first ∙ ap (λ (x : Laned). x.0) same),
          sym (ap (λ x. x.1.1.1) b.first ∙ ap (λ (x : Laned). x.1.1) same),
        )

    on_dispositions-IsWritten :
        (fresh : List HostedFinding) (ds : List HostedDisposition) (s : Laned) {s' : Laned}
        → on_dispositions deps ports wl findings head fresh ds s ≡ (ok repaired, s')
        → IsWritten fresh ds s s'
    on_dispositions-IsWritten fresh [] s e =
        absurd
          (hand_over-repaired (hosted_review findings) (some wl) head (some no_disposition) s e)
    on_dispositions-IsWritten fresh (d ∷ ds) s e =
        let b =
          bound (beside (read_remote_head deps ports))
            (verify_push deps ports wl findings head fresh (d ∷ ds)) s e in
        let read = beside-ok (read_remote_head deps ports) s b.first in
        elim (Bool-cases (claims_fix (d ∷ ds) && is_unmoved b.value head)) [
          | inl k ↦ absurd (
              hand_over-repaired (hosted_review findings) (some wl) head
                (some (not_verified b.value head)) b.between (rw k at b.then_second))
          | inr k ↦
              let (r, named, made, kept, rest) =
                write_replies-written fresh (d ∷ ds) (or_head b.value head) b.between
                  (rw k at b.then_second) in
              record {
                some_answer = refl;
                pushed = b.value;
                at = b.between.1;
                reply_head = r;
                head_read = read.ran_there;
                verified = λ c. ground arith;
                on_head = named;
                disposed = made;
                attempts_kept = kept ∙ read.same_variable;
                rest_kept = rest;
              }
        ]

  pub on_run-IsWritten :
      (wl : HostedWorklist) (findings : List HostedFinding) (head : Option Text)
      (fresh : List HostedFinding) (r : HostedFixRun deps ports) (s : Laned) {s' : Laned}
      → on_run deps ports wl findings head fresh r s ≡ (ok repaired, s')
      → (ds : List HostedDisposition) × (r ≡ ran ds)
        × IsWritten wl findings head fresh (admissible fresh ds) s s'
  on_run-IsWritten wl findings head fresh (settled_run o) s e = absurd (ground arith)
  on_run-IsWritten wl findings head fresh (ran ds) s e =
      (ds, refl, on_dispositions-IsWritten wl findings head fresh (admissible fresh ds) s e)
