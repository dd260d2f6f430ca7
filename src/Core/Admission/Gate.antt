-- ===== src/Core/Admission/Gate.antt =====
-- core/admission.ts: the label gate, the dependency cache, and the two finishers of the gate. The
-- GitHub lookup of a dependency is a parameter, `Port`: its answers may change from call to call, so
-- it is given the number of calls made before.
pub mod Cache
pub mod Verdicts
use ralph_autopilot.Common.{
  ℕ, suc, String, Bool, true, false, not, ◌&&◌, Option, none, some, List, [], ◌∷◌, ◌++◌, map, any,
  take, length, includes, ◌==◌, ◌===◌, ltb, if◌then◌else◌, starts_with, Ordering, compare,
  text_compare, Text, is_some,
}
use ralph_autopilot.Common.Sort.{sort}
use ralph_autopilot.Common.Order.{then_by, not_after, rank_compare}
use ralph_autopilot.Common.Int.{ℤ, max_zero}
use ralph_autopilot.Store.Types.{
  Mode, RunStatus, agent_stuck, merged, closed, Run, BacklogBlockerRef, local, cross,
}
use ralph_autopilot.Github.Types.{Issue, IssueState, open_issue, closed_issue}
use ralph_autopilot.Github.Blocked.{parse_blocked_by}
use ralph_autopilot.Core.Labels.{
  label_ready, label_afk, label_hitl, log_label_prefix, is_paused_label, read_mode,
}

-- The gate's reasons but `blocked`.
pub data GateReason : Type 0 where
  not_open not_ready not_afk hitl paused log_issue no_mode : GateReason

pub data GateResult : Type 0 where
  eligible : Mode → GateResult
  ineligible : GateReason → GateResult
  blocked : List BacklogBlockerRef → GateResult

abbrev pub Port : Type 0
Port = ℕ → ℕ → Bool

-- The memo of `createDepCache`, and the calls that went through to GitHub, oldest first.
pub record DepCache : Type 0 where
  pub cache : List (ℕ × Bool)
  pub calls : List ℕ

abbrev pub empty_cache : DepCache
empty_cache = record { cache = []; calls = [] }

unfoldable pub cached : ℕ → List (ℕ × Bool) → Option Bool
cached n [] = none
cached n ((m, b) ∷ rest) = let later = cached n rest in if m == n then some b else later

remember : Port → DepCache → ℕ → Option Bool → Bool × DepCache
remember port c n (some b) = (b, c)
remember port c n none =
    let satisfied = port (length c.calls) n in
    (satisfied, record { cache = (n, satisfied) ∷ c.cache; calls = c.calls ++ n ∷ [] })

unfoldable pub resolve_dep : Port → DepCache → ℕ → Bool × DepCache
unfolding remember
resolve_dep port c n = remember port c n (cached n c.cache)

is_open : IssueState → Bool
is_open open_issue = true
is_open closed_issue = false

gate_mode : Option Mode → GateResult
gate_mode none = ineligible no_mode
gate_mode (some mode) = eligible mode

unfoldable pub gate_labels : Issue → GateResult
unfolding is_open gate_mode
gate_labels issue =
    if not (is_open issue.state)
    then ineligible not_open
    else if not (includes issue.labels label_ready)
    then ineligible not_ready
    else if not (includes issue.labels label_afk)
    then ineligible not_afk
    else if includes issue.labels label_hitl
    then ineligible hitl
    else if any is_paused_label issue.labels
    then ineligible paused
    else if any (λ l. starts_with l log_label_prefix) issue.labels
    then ineligible log_issue
    else gate_mode (read_mode issue.labels)

unfoldable pub blocked_verdict : List BacklogBlockerRef → GateResult → GateResult
blocked_verdict blockers pass =
    if any (λ b. not b.satisfied) blockers then blocked blockers else pass

unfoldable pub with_cross_repo_blockers :
    List BacklogBlockerRef → List Text → List BacklogBlockerRef
with_cross_repo_blockers blockers cross_repo =
    blockers ++ map (λ ref. record { ref = cross ref; satisfied = false }) cross_repo

-- The loop of `gateOne` over the local references.
unfoldable pub resolve_refs : Port → DepCache → List ℕ → List BacklogBlockerRef × DepCache
resolve_refs port c [] = ([], c)
resolve_refs port c (n ∷ ns) =
    let (satisfied, c') = resolve_dep port c n in
    let (rest, c'') = resolve_refs port c' ns in
    (record { ref = local n; satisfied = satisfied } ∷ rest, c'')

gate_blockers : Port → Text → Issue → DepCache → GateResult → GateResult × DepCache
gate_blockers port repo issue c (eligible mode) =
    let parsed = parse_blocked_by issue.body repo in
    let (blockers, c') = resolve_refs port c parsed.refs in
    (blocked_verdict (with_cross_repo_blockers blockers parsed.cross_repo) (eligible mode), c')
gate_blockers port repo issue c verdict = (verdict, c)

unfoldable pub gate_one : Port → Text → Issue → DepCache → GateResult × DepCache
unfolding gate_blockers
gate_one port repo issue c = gate_blockers port repo issue c (gate_labels issue)

evaluate_blockers : (ℕ → Bool) → Text → Issue → GateResult → GateResult
evaluate_blockers satisfied repo issue (eligible mode) =
    let parsed = parse_blocked_by issue.body repo in
    blocked_verdict
      (with_cross_repo_blockers
        (map (λ n. record { ref = local n; satisfied = satisfied n }) parsed.refs)
        parsed.cross_repo)
      (eligible mode)
evaluate_blockers satisfied repo issue verdict = verdict

-- The synchronous gate, its dependencies resolved beforehand.
pub evaluate_gate : Issue → (ℕ → Bool) → Text → GateResult
unfolding evaluate_blockers
evaluate_gate issue satisfied repo = evaluate_blockers satisfied repo issue (gate_labels issue)
