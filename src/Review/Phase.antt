-- ===== src/Review/Phase.antt =====
-- review/phase.ts: the phase of an agent and the label that the store keeps for it.
pub mod RoundTrip
use ralph_autopilot.Common.{
  Bool, true, false, Option, none, some, List, [], ◌∷◌, ◌++◌, Text, text_eq, codes, if◌then◌else◌,
}
use ralph_autopilot.Common.Lines.{strip_prefix}
use ralph_autopilot.Store.Types.{Phase, phase0, phase1, phase2}

-- A review is of phase 1 or 2.
pub data ReviewNumber : Type 0 where
  review1 review2 : ReviewNumber

pub data AgentPhase : Type 0 where
  impl ci_gate merge merge_conflict : AgentPhase
  review : ReviewNumber → AgentPhase
  fix : Phase → AgentPhase
  other : Text → AgentPhase

abbrev review_prefix : Text
review_prefix = codes "review-"

abbrev fix_prefix : Text
fix_prefix = codes "fix-"

abbrev digit_of : Phase → Text
digit_of phase0 = codes "0"
digit_of phase1 = codes "1"
digit_of phase2 = codes "2"

pub phase_label : AgentPhase → Text
phase_label impl = codes "impl"
phase_label ci_gate = codes "ci-gate"
phase_label (review review1) = review_prefix ++ codes "1"
phase_label (review review2) = review_prefix ++ codes "2"
phase_label (fix p) = fix_prefix ++ digit_of p
phase_label merge = codes "merge"
phase_label merge_conflict = codes "merge-conflict"
phase_label (other raw) = raw

phase_of_digit : Text → Option Phase
phase_of_digit rest =
    if text_eq rest (codes "0")
    then some phase0
    else if text_eq rest (codes "1")
    then some phase1
    else if text_eq rest (codes "2")
    then some phase2
    else none

suffix_phase : Text → Text → Option Phase
unfolding phase_of_digit
suffix_phase stored prefix = elim (strip_prefix prefix stored) [
  | none ↦ none
  | some rest ↦ phase_of_digit rest
]

fix_or_other : Text → Option Phase → AgentPhase
fix_or_other stored none = other stored
fix_or_other stored (some p) = fix p

-- A review of phase 0 is no review.
review_or_rest : Text → Option Phase → AgentPhase
unfolding fix_or_other suffix_phase
review_or_rest stored (some phase1) = review review1
review_or_rest stored (some phase2) = review review2
review_or_rest stored _ = fix_or_other stored (suffix_phase stored fix_prefix)

decode_label : Text → AgentPhase
unfolding review_or_rest suffix_phase
decode_label stored =
    if text_eq stored (codes "impl")
    then impl
    else if text_eq stored (codes "ci-gate")
    then ci_gate
    else if text_eq stored (codes "merge")
    then merge
    else if text_eq stored (codes "merge-conflict")
    then merge_conflict
    else review_or_rest stored (suffix_phase stored review_prefix)

-- `!stored` holds of null and of the empty label.
unfoldable pub decode_agent_phase : Option Text → AgentPhase
unfolding decode_label
decode_agent_phase none = impl
decode_agent_phase (some []) = impl
decode_agent_phase (some (c ∷ s)) = decode_label (c ∷ s)
