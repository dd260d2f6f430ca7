-- ===== src/Core/Labels.antt =====
-- core/labels.ts: the label names, the readers that scan them, and the tier-one promotion patch.
pub mod Promotion
pub mod Paused
use ralph_autopilot.Common.{
  String, Bool, true, false, not, ◌&&◌, ◌||◌, Option, none, some, List, [], ◌∷◌, ◌++◌, ltb, length,
  filter, includes, ◌===◌, if◌then◌else◌,
}
use ralph_autopilot.Store.Types.{Mode, tdd, infra, ui, ComplexityTier, tier1, tier2, tier3}

abbrev pub label_ready : String
label_ready = "ready-for-agent"

abbrev pub label_afk : String
label_afk = "afk"

abbrev pub label_hitl : String
label_hitl = "hitl"

abbrev pub label_mode_tdd : String
label_mode_tdd = "mode:tdd"

abbrev pub label_mode_infra : String
label_mode_infra = "mode:infra"

abbrev pub label_mode_ui : String
label_mode_ui = "mode:ui"

abbrev pub label_complexity1 : String
label_complexity1 = "complexity:1"

abbrev pub label_complexity2 : String
label_complexity2 = "complexity:2"

abbrev pub label_complexity3 : String
label_complexity3 = "complexity:3"

abbrev pub label_awaiting_answer : String
label_awaiting_answer = "awaiting-answer"

abbrev pub label_review_maxed : String
label_review_maxed = "review-maxed"

abbrev pub label_agent_stuck : String
label_agent_stuck = "agent-stuck"

abbrev label_daemon_anomaly : String
label_daemon_anomaly = "daemon-anomaly"

abbrev label_awaiting_merge : String
label_awaiting_merge = "awaiting-merge"

abbrev label_awaiting_ci : String
label_awaiting_ci = "awaiting-ci"

abbrev label_master_triage : String
label_master_triage = "master-triage"

abbrev pub log_label_prefix : String
log_label_prefix = "[log]"

abbrev pub backlog_paused_states : List String
backlog_paused_states =
    label_awaiting_answer ∷ label_review_maxed ∷ label_agent_stuck ∷ label_daemon_anomaly ∷ []

abbrev paused_labels : List String
paused_labels =
    backlog_paused_states ++ label_awaiting_merge ∷ label_awaiting_ci ∷ label_master_triage ∷ []

unfoldable pub is_paused_label : String → Bool
is_paused_label label = includes paused_labels label

-- The first state of the vocabulary, in its order, that the labels carry.
first_carried : List String → List String → Option String
first_carried labels [] = none
first_carried labels (state ∷ states) =
    let later = first_carried labels states in if includes labels state then some state else later

pub paused_state_of : List String → Option String
unfolding first_carried
paused_state_of labels = first_carried labels backlog_paused_states

unfoldable pub read_mode : List String → Option Mode
read_mode labels =
    if includes labels label_mode_tdd
    then some tdd
    else if includes labels label_mode_infra
    then some infra
    else if includes labels label_mode_ui
    then some ui
    else none

unfoldable pub mode_label_for : Mode → String
mode_label_for tdd = label_mode_tdd
mode_label_for infra = label_mode_infra
mode_label_for ui = label_mode_ui

pub read_tier : List String → Option ComplexityTier
read_tier labels =
    if includes labels label_complexity1
    then some tier1
    else if includes labels label_complexity2
    then some tier2
    else if includes labels label_complexity3
    then some tier3
    else none

pub tier_label_for : ComplexityTier → String
tier_label_for tier1 = label_complexity1
tier_label_for tier2 = label_complexity2
tier_label_for tier3 = label_complexity3

abbrev complexity_labels : List String
complexity_labels = label_complexity1 ∷ label_complexity2 ∷ label_complexity3 ∷ []

pub record LabelPatch : Type 0 where
  pub remove : List String
  pub add : List String

pub promote_to_tier_one_patch : List String → LabelPatch
promote_to_tier_one_patch labels = record {
  remove = filter (λ l. not (l === label_complexity1) && includes labels l) complexity_labels;
  add = if includes labels label_complexity1 then [] else label_complexity1 ∷ [];
}

pub needs_tier_one_promotion : List String → Bool
unfolding promote_to_tier_one_patch
needs_tier_one_promotion labels =
    let patch = promote_to_tier_one_patch labels in
    ltb 0 (length patch.remove) || ltb 0 (length patch.add)
