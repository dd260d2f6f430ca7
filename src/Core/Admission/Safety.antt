-- ===== src/Core/Admission/Safety.antt =====
-- What holds of every issue that the pass launches, and how often it asks GitHub.
use ralph_autopilot.Common.{
  ◌≡◌, refl, true, false, ◌&&◌, Option, none, some, List, [], ◌∷◌, All, All-append, All-take, arith,
  inl, inr, Bool-cases, sym, subst,
}
use ralph_autopilot.Common.Sort.{All-sort}
use ralph_autopilot.Common.Distinct.{IsDistinct}
use ralph_autopilot.Common.Int.{max_zero}
use ralph_autopilot.Store.Types.{Run}
use ralph_autopilot.Github.Types.{Issue}
use ralph_autopilot.Core.Admission.Gate.{
  GateResult, eligible, ineligible, blocked, Port, empty_cache, cached, gate_one,
}
use ralph_autopilot.Core.Admission.{
  ExclusionReason, no_provider, no_memory, ExcludedIssue, PickedIssue, World, re_admittable,
  AdmitState, exclude, admit_verdict, holds, admit_issue, admit_loop, ordered, launch, wait_reason,
  admit, admit_start,
}
use ralph_autopilot.Core.Admission.Gate.Cache.{IsFaithful, same_number}
use ralph_autopilot.Core.Admission.Gate.Verdicts.{
  LabelsPass, DependenciesPass, gate_one-eligible, gate_one-IsFaithful,
}
use ralph_autopilot.Core.Admission.Plan.{admit-PicksHead}

pub record IsLaunchable (world : World) (p : PickedIssue) : Type 0 where
  pub idle : world.is_in_flight p.issue.number ≡ false
  pub free : (run : Run) → world.get_run p.issue.number ≡ some run → re_admittable run.status ≡ true
  pub labels : LabelsPass p.issue p.mode
  pub dependencies : DependenciesPass world.is_dependency_satisfied world.repo p.issue

record IsSafe (world : World) (s : AdmitState) : Type 0 where
  faithful : IsFaithful world.is_dependency_satisfied s.deps
  launchable : All (IsLaunchable world) s.eligible

exclude-IsSafe :
    (world : World) (s : AdmitState) (issue : Issue) (reason : ExclusionReason)
    → IsSafe world s
    → IsSafe world (exclude s issue reason)
unfolding exclude
exclude-IsSafe world s issue reason h = record { faithful = h.faithful; launchable = h.launchable }

free_of_holds :
    (o : Option Run)
    → holds o ≡ false
    → (run : Run) → o ≡ some run
    → re_admittable run.status ≡ true
unfolding holds
free_of_holds none h run e = cc
free_of_holds (some r) h run e = ground arith

admit_verdict-IsSafe :
    (world : World) (s : AdmitState) (issue : Issue) (v : GateResult)
    → world.is_in_flight issue.number ≡ false
    → holds (world.get_run issue.number) ≡ false
    → (gate_one world.is_dependency_satisfied world.repo issue s.deps).0 ≡ v
    → IsSafe world s
    → IsSafe world (
        admit_verdict
          (record s { deps = (gate_one world.is_dependency_satisfied world.repo issue s.deps).1 })
          issue
          v)
unfolding admit_verdict
admit_verdict-IsSafe world s issue (eligible mode) e k g h =
    let (labels, deps) =
      gate_one-eligible world.is_dependency_satisfied world.repo issue s.deps mode h.faithful g in
    record {
      faithful =
          gate_one-IsFaithful world.is_dependency_satisfied world.repo issue s.deps h.faithful;
      launchable = All-append (IsLaunchable world) s.eligible _ h.launchable (
        record {
          idle = e;
          free = free_of_holds (world.get_run issue.number) k;
          labels = labels;
          dependencies = deps;
        },
        tt,
      );
    }
admit_verdict-IsSafe world s issue (ineligible r) e k g h = exclude-IsSafe world _ issue _ (record {
  faithful = gate_one-IsFaithful world.is_dependency_satisfied world.repo issue s.deps h.faithful;
  launchable = h.launchable;
})
admit_verdict-IsSafe world s issue (blocked b) e k g h = exclude-IsSafe world _ issue _ (record {
  faithful = gate_one-IsFaithful world.is_dependency_satisfied world.repo issue s.deps h.faithful;
  launchable = h.launchable;
})

admit_issue-IsSafe :
    (world : World) (s : AdmitState) (issue : Issue)
    → IsSafe world s
    → IsSafe world (admit_issue world s issue)
unfolding admit_issue
admit_issue-IsSafe world s issue h = elim (Bool-cases (world.is_in_flight issue.number)) [
  | inl e ↦ rw e (exclude-IsSafe world s issue _ h)
  | inr e ↦ rw e (elim (Bool-cases (holds (world.get_run issue.number))) [
    | inl k ↦ rw k (exclude-IsSafe world s issue _ h)
    | inr k ↦ rw k (admit_verdict-IsSafe world s issue _ e k refl h)
  ])
]

admit_loop-IsSafe :
    (world : World) (issues : List Issue) (s : AdmitState)
    → IsSafe world s
    → IsSafe world (admit_loop world s issues)
unfolding admit_loop
admit_loop-IsSafe world [] s h = h
admit_loop-IsSafe world (issue ∷ issues) s h =
    admit_loop-IsSafe world issues (admit_issue world s issue) (admit_issue-IsSafe world s issue h)

pub empty_cache-IsFaithful : (port : Port) → IsFaithful port empty_cache
unfolding cached
empty_cache-IsFaithful port = record { distinct = tt; known = λ n. refl; truthful = λ n b h. cc }

start-IsSafe : (world : World) → IsSafe world admit_start
start-IsSafe world = record {
  faithful = empty_cache-IsFaithful world.is_dependency_satisfied;
  launchable = tt;
}

launch-All :
    (world : World) (queue : List PickedIssue) (excluded : List ExcludedIssue)
    (wait : Option ExclusionReason)
    → All (IsLaunchable world) queue
    → All (IsLaunchable world) (launch world queue excluded wait).eligible
unfolding launch
launch-All world [] excluded wait h = tt
launch-All world (p ∷ ps) excluded (some reason) h = tt
launch-All world (p ∷ ps) excluded none h = h

admit-eligible :
    (issues : List Issue) (world : World) → All (IsLaunchable world) (admit issues world).eligible
unfolding admit
admit-eligible issues world =
    launch-All world (ordered world done.eligible) done.excluded (wait_reason world) (
      unfold ordered in
      All-sort _ (IsLaunchable world) done.eligible
        (admit_loop-IsSafe world issues admit_start (start-IsSafe world)).launchable)
  where
    done : AdmitState
    done = admit_loop world admit_start issues

-- Nothing is launched unless it may be: every picked issue is not executing, is held by no run row
-- of an active or paused status, is open with `ready-for-agent`, `afk` and its mode and with no
-- `hitl`, paused or `[log]` label, and all its listed dependencies are in this repository and were
-- answered satisfied by GitHub during the pass.
pub admit-IsLaunchable :
    (issues : List Issue) (world : World) → All (IsLaunchable world) (admit issues world).picked
admit-IsLaunchable issues world =
    subst (All (IsLaunchable world)) (sym (admit-PicksHead issues world).head) (
      All-take (IsLaunchable world) (max_zero world.open_slots) (admit issues world).eligible
        (admit-eligible issues world))

-- One pass asks GitHub about each distinct dependency at most once, however many issues list it.
pub admit_loop-calls :
    (issues : List Issue) (world : World)
    → IsDistinct same_number (admit_loop world admit_start issues).deps.calls
admit_loop-calls issues world =
    (admit_loop-IsSafe world issues admit_start (start-IsSafe world)).faithful.distinct

launch_waits :
    (world : World) (queue : List PickedIssue) (excluded : List ExcludedIssue)
    (reason : ExclusionReason)
    → ((launch world queue excluded (some reason)).picked ≡ [])
      × ((launch world queue excluded (some reason)).eligible ≡ [])
unfolding launch
launch_waits world [] excluded reason = (refl, refl)
launch_waits world (p ∷ ps) excluded reason = (refl, refl)

wait_reason_given :
    (world : World)
    → (world.has_impl_provider_headroom && world.has_memory_headroom) ≡ false
    → (reason : ExclusionReason) × (wait_reason world ≡ some reason)
unfolding wait_reason
wait_reason_given world h = elim (Bool-cases world.has_impl_provider_headroom) [
  | inr e ↦ (no_provider, ground arith)
  | inl e ↦ (no_memory, ground arith)
]

-- While no provider has headroom, or the box is short of memory, nothing is picked and the
-- eligible queue is empty, whatever the issues.
pub admit_waits :
    (issues : List Issue) (world : World)
    → (world.has_impl_provider_headroom && world.has_memory_headroom) ≡ false
    → ((admit issues world).picked ≡ []) × ((admit issues world).eligible ≡ [])
admit_waits issues world h =
    let (reason, e) = wait_reason_given world h in
    unfold admit in
    subst
      (λ (w : Option ExclusionReason).
        ((launch world (ordered world done.eligible) done.excluded w).picked ≡ [])
        × ((launch world (ordered world done.eligible) done.excluded w).eligible ≡ []))
      (sym e) (launch_waits world (ordered world done.eligible) done.excluded reason)
  where
    done : AdmitState
    done = admit_loop world admit_start issues
