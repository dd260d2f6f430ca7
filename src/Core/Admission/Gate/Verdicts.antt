-- ===== src/Core/Admission/Gate/Verdicts.antt =====
-- What the gate lets through, and the agreement of its two finishers.
use ralph_autopilot.Common.{
  ℕ, ◌≡◌, ◌↔◌, refl, Bool, true, false, not, some, List, [], ◌∷◌, any, All, map, includes,
  starts_with, Text, arith, ap, any-append,
}
use ralph_autopilot.Store.Types.{Mode, BacklogBlockerRef, local, cross}
use ralph_autopilot.Github.Types.{Issue, open_issue}
use ralph_autopilot.Github.Blocked.{parse_blocked_by}
use ralph_autopilot.Core.Labels.{
  label_ready, label_afk, label_hitl, log_label_prefix, is_paused_label, read_mode,
}
use ralph_autopilot.Core.Admission.Gate.{
  Port, DepCache, resolve_refs, GateResult, eligible, ineligible, blocked, gate_labels,
  gate_blockers, gate_one, evaluate_blockers, evaluate_gate, blocked_verdict,
  with_cross_repo_blockers,
}
use ralph_autopilot.Core.Admission.Gate.Cache.{
  IsFaithful, AllAnswer, resolve_refs-AllAnswer, resolve_refs-IsFaithful,
}

-- The labels of an issue that a fresh implementation may pick up, and its mode.
pub record LabelsPass (issue : Issue) (mode : Mode) : Type 0 where
  pub is_open : issue.state ≡ open_issue
  pub ready : includes issue.labels label_ready ≡ true
  pub afk : includes issue.labels label_afk ≡ true
  pub not_hitl : includes issue.labels label_hitl ≡ false
  pub not_paused : any is_paused_label issue.labels ≡ false
  pub not_log : any (λ l. starts_with l log_label_prefix) issue.labels ≡ false
  pub moded : read_mode issue.labels ≡ some mode

-- The label gate passes an issue with a mode exactly when the issue is open, carries
-- `ready-for-agent` and `afk`, carries no `hitl`, paused or `[log]` label, and has that mode.
pub gate_labels_iff :
    (issue : Issue) (mode : Mode) → (gate_labels issue ≡ eligible mode) ↔ LabelsPass issue mode
unfolding gate_labels
gate_labels_iff issue mode = (λ h. ground arith, λ h. ground arith)

-- Every local dependency was reported satisfied, and there is no dependency elsewhere.
pub record DependenciesPass (port : Port) (repo : Text) (issue : Issue) : Type 0 where
  pub local_refs : All (λ n. (t : ℕ) × (port t n ≡ true)) (parse_blocked_by issue.body repo).refs
  pub no_cross_refs : (parse_blocked_by issue.body repo).cross_repo ≡ []

all_satisfied :
    (port : Port) (ns : List ℕ) (bs : List BacklogBlockerRef)
    → AllAnswer port ns bs
    → any (λ b. not b.satisfied) bs ≡ false
    → All (λ n. (t : ℕ) × (port t n ≡ true)) ns
all_satisfied port [] bs a h = tt
all_satisfied port (n ∷ ns) [] a h = absurd a
all_satisfied port (n ∷ ns) (b ∷ bs) a h =
    ((a.0.1.0, ground (arith, a.0.1.1)), all_satisfied port ns bs a.1 (ground arith))

no_cross :
    (bs : List BacklogBlockerRef) (cs : List Text)
    → any (λ b. not b.satisfied) (with_cross_repo_blockers bs cs) ≡ false
    → (any (λ b. not b.satisfied) bs ≡ false) × (cs ≡ [])
unfolding with_cross_repo_blockers
no_cross bs [] h = ground (arith, any-append (λ (b : BacklogBlockerRef). not b.satisfied) bs [])
no_cross bs (c ∷ cs) h = absurd (
    ground (
      arith,
      any-append (λ (b : BacklogBlockerRef). not b.satisfied) bs
          (map (λ ref. record { ref = cross ref; satisfied = false }) (c ∷ cs)),
    ))

blockers_pass :
    (port : Port) (repo : Text) (issue : Issue) (c : DepCache) (v : GateResult) (mode : Mode)
    → IsFaithful port c
    → (gate_blockers port repo issue c v).0 ≡ eligible mode
    → (v ≡ eligible mode) × DependenciesPass port repo issue
unfolding gate_blockers blocked_verdict
blockers_pass port repo issue c (eligible m) mode faithful h = (
  ground arith,
  record { local_refs = all_satisfied port refs bs answers clear.0; no_cross_refs = clear.1 },
)
  where
    refs : List ℕ
    refs = (parse_blocked_by issue.body repo).refs

    bs : List BacklogBlockerRef
    bs = (resolve_refs port c refs).0

    answers : AllAnswer port refs bs
    answers = resolve_refs-AllAnswer port c refs faithful

    clear :
        (any (λ b. not b.satisfied) bs ≡ false)
        × ((parse_blocked_by issue.body repo).cross_repo ≡ [])
    clear = no_cross bs (parse_blocked_by issue.body repo).cross_repo (ground arith)
blockers_pass port repo issue c (ineligible r) mode faithful h = absurd (ground arith)
blockers_pass port repo issue c (blocked b) mode faithful h = absurd (ground arith)

-- An issue that the asynchronous gate finds eligible has passing labels, and each dependency that
-- its body lists was answered satisfied by GitHub at some call of the pass; a dependency in
-- another repository never passes.
pub gate_one-eligible :
    (port : Port) (repo : Text) (issue : Issue) (c : DepCache) (mode : Mode)
    → IsFaithful port c
    → (gate_one port repo issue c).0 ≡ eligible mode
    → LabelsPass issue mode × DependenciesPass port repo issue
unfolding gate_one
gate_one-eligible port repo issue c mode faithful h =
    let (labels, deps) = blockers_pass port repo issue c (gate_labels issue) mode faithful h in
    ((gate_labels_iff issue mode).0 labels, deps)

-- The gate keeps the cache faithful.
pub gate_one-IsFaithful :
    (port : Port) (repo : Text) (issue : Issue) (c : DepCache)
    → IsFaithful port c
    → IsFaithful port (gate_one port repo issue c).1
unfolding gate_one
gate_one-IsFaithful port repo issue c h = go (gate_labels issue)
  where
    go : (v : GateResult) → IsFaithful port (gate_blockers port repo issue c v).1
    go (eligible m) = unfold gate_blockers in resolve_refs-IsFaithful port c _ h
    go (ineligible r) = unfold gate_blockers in h
    go (blocked b) = unfold gate_blockers in h

answers_map :
    (f : ℕ → Bool) (ns : List ℕ) (bs : List BacklogBlockerRef)
    → AllAnswer (λ t n. f n) ns bs
    → bs ≡ map (λ n. record { ref = local n; satisfied = f n }) ns
answers_map f [] [] a = refl
answers_map f [] (b ∷ bs) a = absurd a
answers_map f (n ∷ ns) [] a = absurd a
answers_map f (n ∷ ns) (b ∷ bs) a = ground (arith, answers_map f ns bs a.1, a.0.0, a.0.1.1)

-- Where the answers of GitHub do not change, the lazy gate with its cache decides as the
-- synchronous predicate that the completeness pass uses, blockers included.
pub gate_one-eq-evaluate_gate :
    (f : ℕ → Bool) (repo : Text) (issue : Issue) (c : DepCache)
    → IsFaithful (λ t n. f n) c
    → (gate_one (λ t n. f n) repo issue c).0 ≡ evaluate_gate issue f repo
unfolding gate_one evaluate_gate
gate_one-eq-evaluate_gate f repo issue c h = go (gate_labels issue)
  where
    go :
        (v : GateResult)
        → (gate_blockers (λ t n. f n) repo issue c v).0 ≡ evaluate_blockers f repo issue v
    go (eligible m) =
        unfold gate_blockers evaluate_blockers in
        ap
          (λ (bs : List BacklogBlockerRef).
            blocked_verdict
              (with_cross_repo_blockers bs (parse_blocked_by issue.body repo).cross_repo)
              (eligible m))
          (answers_map f (parse_blocked_by issue.body repo).refs _
            (resolve_refs-AllAnswer (λ t n. f n) c (parse_blocked_by issue.body repo).refs h))
    go (ineligible r) = unfold gate_blockers evaluate_blockers in refl
    go (blocked b) = unfold gate_blockers evaluate_blockers in refl
