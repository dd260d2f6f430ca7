-- ===== src/Review/Loop/Drive/Repaired.antt =====
-- review/review-loop.ts `driveHostedFindings`: what a repair rests on.
use mathlib.Core.List.{Memᴰ}
use ralph_autopilot.Common.{
  ℕ, ◌+◌, ◌<◌, ◌≡◌, refl, ap, sym, subst, ◌∙◌, Bool, All, any, filter, text_eq, true, false, ◌&&◌,
  Option, some, List, [], ◌∷◌, Text, leb, Bool-cases, inl, inr, arith,
}
use ralph_autopilot.Review.Hosted.{HostedFinding}
use ralph_autopilot.Review.Hosted.Threads.{HostedWorklist}
use ralph_autopilot.Review.Hosted.Block.{hosted_review, is_empty}
use ralph_autopilot.Review.Hosted.Gate.{
  GateWorld, already_replied_to, fold_hosted_gate_state, is_hosted,
}
use ralph_autopilot.Review.Hosted.Observe.{or_head}
use ralph_autopilot.Review.Loop.{ok, beside, bound}
use ralph_autopilot.Review.Loop.Phases.{LoopDeps, repaired}
use ralph_autopilot.Review.Loop.Drive.{
  HostedDisposition, conflicting, unchanged, exhausted, HostedDeps, read_remote_head, ran,
  run_hosted_fix,
}
use ralph_autopilot.Review.Loop.Drive.Disposed.{IsDisposed, All-filter, dispose_all-IsDisposed}
use ralph_autopilot.Review.Loop.Drive.Answers.{IsWrittenOf, of_filter, dispose_all-IsWrittenOf}
use ralph_autopilot.Review.Loop.Drive.Consult.{
  admissible, is_fixed, is_unmoved, dispose_all, on_run, fresh_of, on_fresh, has_conflict,
  drive_hosted_findings,
}
use ralph_autopilot.Review.Loop.Drive.Written.{beside-ok, hand_over-repaired, on_run-IsWritten}

filled_or_empty : {A : Type 0} (xs : List A) → is_empty xs ≡ true → xs ≡ []
filled_or_empty [] e = refl
filled_or_empty (x ∷ xs) e = absurd (ground arith)

filled_filter :
    {A : Type 0} (p : A → Bool) (xs : List A) → is_empty (filter p xs) ≡ false → any p xs ≡ true
filled_filter p [] e = absurd (ground arith)
filled_filter p (x ∷ xs) e = ground (arith, filled_filter p xs)

any-filter :
    {A : Type 0} (p q : A → Bool) (xs : List A) → any q (filter p xs) ≡ any (λ x. p x && q x) xs
any-filter p q [] = refl
any-filter p q (x ∷ xs) = ground (arith, any-filter p q xs)

module _ {W : Type 0} (deps : LoopDeps (GateWorld × W)) (ports : HostedDeps W) where
  abbrev Laned : Type 0
  Laned = ℕ × (GateWorld × W)

  -- A finding that the gate showed, that had no reply at its content, that the hosted reviewer wrote
  -- and that the agent answered.
  pub record IsAnswered (findings : List HostedFinding) (s : Laned)
      (answered : List HostedDisposition) (f : HostedFinding) : Type 0 where
    pub shown : Memᴰ f findings
    pub unanswered : already_replied_to (fold_hosted_gate_state s.1.0.stream) f ≡ false
    pub of_reviewer : is_hosted f.author_type ≡ true
    pub by : HostedDisposition
    pub given : Memᴰ by answered
    pub names : text_eq f.thread_id by.thread_id ≡ true

  -- The disposition names a finding that the agent was given.
  abbrev pub names_one : List HostedFinding → HostedDisposition → Bool
  names_one shown d = any (λ (f : HostedFinding). text_eq f.thread_id d.thread_id) shown

  -- What a repair did.
  pub record IsRepaired (head : Option Text) (wl : HostedWorklist) (findings : List HostedFinding)
      (s s' : Laned) : Type 0 where
    pub no_human : wl.buckets.human_threads ≡ []
    pub no_unknown_bot : wl.buckets.unknown_bot_threads ≡ []
    pub within : s.0 < deps.max_fix_attempts
    pub spends : s'.0 ≡ s.0 + 1
    pub answered : List HostedDisposition
    pub worked : GateWorld × W
    pub fix_ran :
        run_hosted_fix deps ports wl (fresh_of deps ports findings s.1.0) head (s.0 + 1) s.1
        ≡ (ok (ran answered), worked)
    pub answers_some : any (names_one (fresh_of deps ports findings s.1.0)) answered ≡ true
    pub pushed : Option Text
    pub at : GateWorld × W
    pub head_read : read_remote_head deps ports worked ≡ (ok pushed, at)
    pub verified :
        any
            (λ (d : HostedDisposition).
              names_one (fresh_of deps ports findings s.1.0) d && is_fixed d.disposition)
            answered
          ≡ true
        → is_unmoved pushed head ≡ false
    pub reply_head : Text
    pub on_head : or_head pushed head ≡ some reply_head
    pub writes : IsWrittenOf (IsAnswered findings s answered) reply_head at.0 s'.1.0
    pub on_record :
        All
          (λ (d : HostedDisposition).
            names_one (fresh_of deps ports findings s.1.0) d ≡ true
            → IsDisposed (fresh_of deps ports findings s.1.0) s'.1.0 d)
          answered
    pub rest_kept : s'.1.1 ≡ at.1

  -- The writes of the lane are about findings that were shown and answered.
  lane_writes :
      (findings fresh : List HostedFinding) (s : Laned) (ds : List HostedDisposition) (r : Text)
      (g : GateWorld) {g' : GateWorld}
      → fresh_of deps ports findings s.1.0 ≡ fresh
      → dispose_all ports.gate_outcomes fresh (admissible fresh ds) r g ≡ (ok tt, g')
      → IsWrittenOf (IsAnswered findings s ds) r g g'
  lane_writes findings fresh s ds r g q e =
      subst (IsWrittenOf (IsAnswered findings s ds) r g) (ap (λ x. x.1) e) (
        dispose_all-IsWrittenOf (IsAnswered findings s ds) r ports.gate_outcomes fresh
          (admissible fresh ds) g
          (λ f d m k a h.
            let (shown, new) = of_filter _ findings (subst (λ l. Memᴰ f l) (sym q) m) in
            record {
              shown = shown;
              unanswered = ground arith;
              of_reviewer = h;
              by = d;
              given = (of_filter _ ds k).0;
              names = a;
            }))

  no_conflicts :
      (wl : HostedWorklist)
      → has_conflict deps ports wl ≡ false
      → (wl.buckets.human_threads ≡ []) × (wl.buckets.unknown_bot_threads ≡ [])
  no_conflicts wl c = (
    filled_or_empty wl.buckets.human_threads (ground arith),
    filled_or_empty wl.buckets.unknown_bot_threads (ground arith),
  )

  -- The fresh findings as they are, or none of them.
  on_fresh-IsRepaired :
      (wl : HostedWorklist) (findings : List HostedFinding) (head : Option Text)
      (fresh : List HostedFinding) (s : Laned) {s' : Laned}
      → has_conflict deps ports wl ≡ false
      → fresh_of deps ports findings s.1.0 ≡ fresh
      → on_fresh deps ports wl findings head fresh s ≡ (ok repaired, s')
      → IsRepaired head wl findings s s'
  on_fresh-IsRepaired wl findings head [] s c q e =
      absurd
        (hand_over-repaired deps ports (hosted_review findings) (some wl) head (some unchanged) s e)
  on_fresh-IsRepaired wl findings head (f ∷ fs) (n, v) {s'} c q e =
      elim (Bool-cases (leb deps.max_fix_attempts n)) [
        | inl k ↦ absurd (
            hand_over-repaired deps ports (hosted_review findings) (some wl) head
              (some (exhausted n)) (n, v) (rw k at e))
        | inr k ↦
            let b =
              bound (beside (run_hosted_fix deps ports wl (f ∷ fs) head (n + 1)))
                (on_run deps ports wl findings head (f ∷ fs)) (n + 1, v) (rw k at e) in
            let fix =
              beside-ok (run_hosted_fix deps ports wl (f ∷ fs) head (n + 1)) (n + 1, v) b.first in
            let (ds, same, writes) =
              on_run-IsWritten deps ports wl findings head (f ∷ fs) b.value b.between
                b.then_second in
            record {
              no_human = (no_conflicts wl c).0;
              no_unknown_bot = (no_conflicts wl c).1;
              within = ground arith;
              spends = writes.attempts_kept ∙ fix.same_variable;
              answered = ds;
              worked = b.between.1;
              fix_ran = rw q (fix.ran_there ∙ ap (λ r. (ok r, b.between.1)) same);
              answers_some = rw q (filled_filter (names_one (f ∷ fs)) ds writes.some_answer);
              pushed = writes.pushed;
              at = writes.at;
              head_read = writes.head_read;
              verified = rw q (λ k. writes.verified (any-filter (names_one (f ∷ fs)) _ ds ∙ k));
              reply_head = writes.reply_head;
              on_head = writes.on_head;
              writes =
                  lane_writes findings (f ∷ fs) (n, v) ds writes.reply_head writes.at.0 q
                    writes.disposed;
              on_record =
                  subst
                    (λ fresh.
                      All
                        (λ (d : HostedDisposition).
                          names_one fresh d ≡ true → IsDisposed fresh s'.1.0 d)
                        ds)
                    (sym q)
                    (All-filter (names_one (f ∷ fs)) (IsDisposed (f ∷ fs) s'.1.0) ds (
                      dispose_all-IsDisposed ports.gate_outcomes writes.reply_head (f ∷ fs)
                        (admissible (f ∷ fs) ds) writes.at.0 writes.disposed));
              rest_kept = writes.rest_kept;
            }
      ]

  -- The fix lane reports a repair only where no conversation of a human or of an unknown bot stands
  -- beside the findings and an attempt was left, which it spends. The fix agent was given the findings
  -- that had no reply at their content and answered one of them at least; where it claimed to have
  -- fixed one of them, the head of the branch was read behind its work and differs from the head that
  -- was reviewed. What the lane then replied to, on the head that was read or else reviewed, and what
  -- it resolved are findings that the gate showed, that had no reply at their content, that the hosted
  -- reviewer wrote and that the agent answered; it then wrote nothing else to GitHub. Each disposition
  -- of the agent that names a finding it was given names one whose reply and resolution are on record
  -- at the end, where the finding is of the hosted reviewer and its conversation has an identity.
  pub drive_hosted_findings-IsRepaired :
      (head : Option Text) (wl : HostedWorklist) (findings : List HostedFinding) (s : Laned)
      {s' : Laned}
      → drive_hosted_findings deps ports head wl findings s ≡ (ok repaired, s')
      → IsRepaired head wl findings s s'
  unfolding drive_hosted_findings
  drive_hosted_findings-IsRepaired head wl findings s e =
      elim (Bool-cases (has_conflict deps ports wl)) [
        | inl k ↦ absurd (
            hand_over-repaired deps ports (hosted_review findings) (some wl) head
              (some (conflicting _ _ _)) s (rw k at e))
        | inr k ↦
            on_fresh-IsRepaired wl findings head (fresh_of deps ports findings s.1.0) s k refl
              (rw k at e)
      ]
