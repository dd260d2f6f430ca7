-- ===== src/Core/Moding.antt =====
-- core/moding.ts: which issues lack nothing but a mode label. The classifier of the moding pass is
-- not wired in the program; the selection is.
pub mod Sole
pub mod Select
use ralph_autopilot.Common.{
  ℕ, String, Bool, true, false, Option, none, some, List, [], ◌∷◌, ◌++◌, length, leb, if◌then◌else◌,
  Text, Ordering, compare, text_compare, is_some,
}
use ralph_autopilot.Common.Sort.{sort}
use ralph_autopilot.Common.Order.{then_by, not_after}
use ralph_autopilot.Common.Int.{ℤ, max_zero}
use ralph_autopilot.Github.Types.{Issue}
use ralph_autopilot.Core.Labels.{label_mode_tdd, read_mode}
use ralph_autopilot.Core.Admission.Gate.{
  Port, DepCache, empty_cache, GateResult, eligible, ineligible, blocked, gate_one,
}

abbrev pub with_label : Issue → String → Issue
with_label issue label = record issue { labels = issue.labels ++ label ∷ [] }

pub gate_with_synthetic_mode : Port → Text → Issue → DepCache → GateResult × DepCache
gate_with_synthetic_mode port repo issue c = gate_one port repo (with_label issue label_mode_tdd) c

-- Oldest first, then by number.
pub compare_age : Issue → Issue → Ordering
compare_age a b = then_by (text_compare a.created_at b.created_at) (compare a.number b.number)

abbrev pub oldest_first : List Issue → List Issue
oldest_first issues = sort (λ a b. not_after (compare_age a b)) issues

-- The issue joins the candidates if its verdict is eligible.
push_eligible : List Issue → Issue → GateResult → List Issue
push_eligible candidates issue (eligible mode) = candidates ++ issue ∷ []
push_eligible candidates issue (ineligible reason) = candidates
push_eligible candidates issue (blocked blockers) = candidates

-- The loop, with `limit` the positive `maxPerTick`. The budget is tested before each issue.
moding_loop : Port → Text → ℕ → List Issue → DepCache → List Issue → List Issue
unfolding push_eligible gate_with_synthetic_mode
moding_loop port repo limit candidates c [] = candidates
moding_loop port repo limit candidates c (issue ∷ issues) =
    let skip = moding_loop port repo limit candidates c issues in
    let (verdict, c') = gate_with_synthetic_mode port repo issue c in
    let next = moding_loop port repo limit (push_eligible candidates issue verdict) c' issues in
    if leb limit (length candidates)
    then candidates
    else if is_some (read_mode issue.labels)
    then skip
    else next

pub select_moding_candidates : List Issue → Port → ℤ → Text → List Issue
unfolding moding_loop compare_age
select_moding_candidates issues port max_per_tick repo =
    let limit = max_zero max_per_tick in
    let candidates = moding_loop port repo limit [] empty_cache (oldest_first issues) in
    if leb limit 0 then [] else candidates
