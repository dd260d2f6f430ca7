-- ===== src/Core/Admission/Plan.antt =====
-- The launch plan: nothing is lost, the picks are the head of the queue, the queue is in order.
use mathlib.Core.List.{Perm, perm_middle, perm_append_singleton, perm_append_comm, map-append}
use mathlib.Core.List.Perm
use ralph_autopilot.Common.{
  ℕ, zero, suc, ◌≤◌, ◌≡◌, refl, Option, none, some, List, [], ◌∷◌, ◌++◌, map, take, length,
  length-take, append_assoc, append-nil, arith, inl, inr, Bool-cases, ap,
}
use ralph_autopilot.Common.Sort.{IsSorted, sort-perm}
use ralph_autopilot.Common.Int.{max_zero}
use ralph_autopilot.Github.Types.{Issue}
use ralph_autopilot.Core.Admission.Gate.{GateResult, eligible, ineligible, blocked}
use ralph_autopilot.Core.Admission.{
  ExclusionReason, ExcludedIssue, PickedIssue, LaunchPlan, World, AdmitState, exclude,
  admit_verdict, holds, admit_issue, admit_loop, ordered, launch, wait_reason, admit, admit_start,
}
use ralph_autopilot.Core.Admission.Order.{scheduled_before, ordered-IsSorted}

abbrev pub picked_issues : List PickedIssue → List Issue
picked_issues ps = map (λ (p : PickedIssue). p.issue) ps

abbrev pub excluded_issues : List ExcludedIssue → List Issue
excluded_issues es = map (λ (e : ExcludedIssue). e.issue) es

-- The issues that the loop has placed.
abbrev placed : AdmitState → List Issue
placed s = picked_issues s.eligible ++ excluded_issues s.excluded

exclude-placed :
    (s : AdmitState) (issue : Issue) (reason : ExclusionReason)
    → Perm (placed (exclude s issue reason)) (issue ∷ placed s)
unfolding exclude
exclude-placed s issue reason =
    rw (map-append, ← append_assoc) (perm_append_singleton issue (placed s))

admit_verdict-placed :
    (s : AdmitState) (issue : Issue) (v : GateResult)
    → Perm (placed (admit_verdict s issue v)) (issue ∷ placed s)
unfolding admit_verdict
admit_verdict-placed s issue (eligible mode) =
    rw (map-append, append_assoc)
      (perm_middle (picked_issues s.eligible) (excluded_issues s.excluded))
admit_verdict-placed s issue (ineligible reason) = exclude-placed s issue _
admit_verdict-placed s issue (blocked blockers) = exclude-placed s issue _

admit_issue-placed :
    (world : World) (s : AdmitState) (issue : Issue)
    → Perm (placed (admit_issue world s issue)) (issue ∷ placed s)
unfolding admit_issue
admit_issue-placed world s issue = elim (Bool-cases (world.is_in_flight issue.number)) [
  | inl e ↦ rw e (exclude-placed s issue _)
  | inr e ↦ rw e (elim (Bool-cases (holds (world.get_run issue.number))) [
    | inl h ↦ rw h (exclude-placed s issue _)
    | inr h ↦ rw h (admit_verdict-placed _ issue _)
  ])
]

admit_loop-placed :
    (world : World) (issues : List Issue) (s : AdmitState)
    → Perm (placed (admit_loop world s issues)) (issues ++ placed s)
unfolding admit_loop
admit_loop-placed world [] s = Perm.refl (placed s)
admit_loop-placed world (issue ∷ issues) s =
    Perm.trans (admit_loop-placed world issues (admit_issue world s issue)) (
      Perm.trans (Perm.append (Perm.refl issues) (admit_issue-placed world s issue))
        (perm_middle issues (placed s)))

waiting_issues :
    (reason : ExclusionReason) (queue : List PickedIssue)
    → excluded_issues (map (λ (c : PickedIssue). record { issue = c.issue; reason = reason }) queue)
      ≡ picked_issues queue
waiting_issues reason [] = refl
waiting_issues reason (p ∷ ps) = ap (◌∷◌ p.issue) (waiting_issues reason ps)

launch-placed :
    (world : World) (queue : List PickedIssue) (excluded : List ExcludedIssue)
    (wait : Option ExclusionReason)
    → Perm
        (picked_issues (launch world queue excluded wait).eligible
          ++ excluded_issues (launch world queue excluded wait).excluded)
        (picked_issues queue ++ excluded_issues excluded)
unfolding launch
launch-placed world [] excluded wait = Perm.refl (excluded_issues excluded)
launch-placed world (p ∷ ps) excluded (some reason) =
    rw (map-append, waiting_issues reason (p ∷ ps))
      (perm_append_comm (excluded_issues excluded) (picked_issues (p ∷ ps)))
launch-placed world (p ∷ ps) excluded none =
    Perm.refl (picked_issues (p ∷ ps) ++ excluded_issues excluded)

ordered-perm : (world : World) (ps : List PickedIssue) → Perm (ordered world ps) ps
unfolding ordered
ordered-perm world ps = sort-perm _ ps

-- Every issue that the pass is given comes out exactly once, either in the eligible queue or
-- excluded with a reason, whatever the world says, and also when a wait gate holds the queue.
pub admit-perm :
    (issues : List Issue) (world : World)
    → Perm
        (picked_issues (admit issues world).eligible
          ++ excluded_issues (admit issues world).excluded)
        issues
admit-perm issues world = Perm.trans launched (
    Perm.trans
      (Perm.append (Perm.map (λ (p : PickedIssue). p.issue) (ordered-perm world done.eligible))
        (Perm.refl (excluded_issues done.excluded)))
      (rw append-nil at (admit_loop-placed world issues admit_start)))
  where
    done : AdmitState
    done = admit_loop world admit_start issues

    launched :
        Perm
          (picked_issues (admit issues world).eligible
            ++ excluded_issues (admit issues world).excluded)
          (picked_issues (ordered world done.eligible) ++ excluded_issues done.excluded)
    launched =
        unfold admit in
        launch-placed world (ordered world done.eligible) done.excluded (wait_reason world)

launch-picked :
    (world : World) (queue : List PickedIssue) (excluded : List ExcludedIssue)
    (wait : Option ExclusionReason)
    → (launch world queue excluded wait).picked
      ≡ take (max_zero world.open_slots) (launch world queue excluded wait).eligible
unfolding launch
launch-picked world [] excluded wait = go (max_zero world.open_slots)
  where
    go : (n : ℕ) → [] ≡ take {A = PickedIssue} n []
    go zero = refl
    go (suc n) = refl
launch-picked world (p ∷ ps) excluded (some reason) = go (max_zero world.open_slots)
  where
    go : (n : ℕ) → [] ≡ take {A = PickedIssue} n []
    go zero = refl
    go (suc n) = refl
launch-picked world (p ∷ ps) excluded none = refl

launch-IsSorted :
    (world : World) (queue : List PickedIssue) (excluded : List ExcludedIssue)
    (wait : Option ExclusionReason)
    → IsSorted (scheduled_before world) queue
    → IsSorted (scheduled_before world) (launch world queue excluded wait).eligible
unfolding launch
launch-IsSorted world [] excluded wait h = tt
launch-IsSorted world (p ∷ ps) excluded (some reason) h = tt
launch-IsSorted world (p ∷ ps) excluded none h = h

-- How the picks stand to the queue.
pub record PicksHead (world : World) (plan : LaunchPlan) : Type 0 where
  pub in_order : IsSorted (scheduled_before world) plan.eligible
  pub head : plan.picked ≡ take (max_zero world.open_slots) plan.eligible
  pub within_slots : length plan.picked ≤ max_zero world.open_slots

-- The eligible queue is in scheduling order (older, then more urgent, then smaller number), the
-- picks are its first issues, as many as there are open slots, and never more than that; with a
-- negative count of slots nothing is picked.
pub admit-PicksHead : (issues : List Issue) (world : World) → PicksHead world (admit issues world)
admit-PicksHead issues world = record {
  in_order =
      unfold admit in
      launch-IsSorted world (ordered world done.eligible) done.excluded (wait_reason world)
        (ordered-IsSorted world done.eligible);
  head = head;
  within_slots =
      rw head
        (omega (arith, length-take (max_zero world.open_slots) (admit issues world).eligible));
}
  where
    done : AdmitState
    done = admit_loop world admit_start issues

    head :
        (admit issues world).picked ≡ take (max_zero world.open_slots) (admit issues world).eligible
    head =
        unfold admit in
        launch-picked world (ordered world done.eligible) done.excluded (wait_reason world)
