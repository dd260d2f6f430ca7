-- ===== src/Examples/Labels.antt =====
-- Runs of core/labels.ts and core/moding.ts.
use ralph_autopilot.Common.{
  ◌≡◌, refl, String, true, false, ◌||◌, ◌===◌, List, [], ◌∷◌, includes, take, filter, if◌then◌else◌,
  codes,
}
use ralph_autopilot.Common.Int.{ℤ, max_zero}
use ralph_autopilot.Store.Types.{tdd, infra}
use ralph_autopilot.Github.Types.{Issue, open_issue}
use ralph_autopilot.Core.Labels.{
  label_complexity1, label_complexity2, label_complexity3, read_mode, mode_label_for,
  promote_to_tier_one_patch, needs_tier_one_promotion, is_paused_label, paused_state_of,
}
use ralph_autopilot.Core.Labels.Promotion.{
  apply_patch, includes-promote_to_tier_one_patch, needs_tier_one_promotion-promoted,
}
use ralph_autopilot.Core.Labels.Paused.{IsPausedState, paused_state_of-IsPausedState}
use ralph_autopilot.Core.Admission.Gate.{GateResult, ineligible, no_mode, gate_labels}
use ralph_autopilot.Core.Moding.{with_label, oldest_first, select_moding_candidates}
use ralph_autopilot.Core.Moding.Sole.{moding-sole}
use ralph_autopilot.Core.Moding.Select.{qualifies, select_moding_candidates-take}

abbrev tiered : List String
tiered = "afk" ∷ "complexity:3" ∷ "complexity:2" ∷ "complexity:3" ∷ []

promoted_example :
    includes (apply_patch (promote_to_tier_one_patch tiered) tiered) "complexity:2" ≡ (
      if label_complexity1 === "complexity:2"
      then true
      else if label_complexity2 === "complexity:2" || label_complexity3 === "complexity:2"
      then false
      else includes tiered "complexity:2")
promoted_example = includes-promote_to_tier_one_patch tiered "complexity:2"

promoted_twice_example :
    needs_tier_one_promotion (apply_patch (promote_to_tier_one_patch tiered) tiered) ≡ false
promoted_twice_example = needs_tier_one_promotion-promoted tiered

abbrev unmoded_issue : Issue
unmoded_issue = record {
  number = 4;
  title = "A";
  body = [];
  state = open_issue;
  labels = "ready-for-agent" ∷ "afk" ∷ [];
  created_at = codes "2026-01-02";
}

abbrev older_issue : Issue
older_issue = record unmoded_issue { number = 9; created_at = codes "2026-01-01" }

abbrev moded_issue : Issue
moded_issue = record unmoded_issue {
  number = 5;
  labels = "ready-for-agent" ∷ "afk" ∷ "mode:ui" ∷ [];
}

sole_example :
    (gate_labels unmoded_issue ≡ ineligible no_mode)
    × (gate_labels (with_label unmoded_issue (mode_label_for infra)) ≡ GateResult.eligible infra)
unfolding gate_labels read_mode mode_label_for is_paused_label ◌===◌
sole_example = moding-sole unmoded_issue tdd infra refl refl

select_example :
    select_moding_candidates
      (unmoded_issue ∷ moded_issue ∷ older_issue ∷ [])
      (λ t n. true)
      (ℤ.pos 1)
      (codes "o/r")
    ≡ take (max_zero (ℤ.pos 1)) (
        filter
          (qualifies (λ n. true) (codes "o/r"))
          (oldest_first (unmoded_issue ∷ moded_issue ∷ older_issue ∷ [])))
select_example =
    select_moding_candidates-take (unmoded_issue ∷ moded_issue ∷ older_issue ∷ []) (λ n. true)
      (ℤ.pos 1) (codes "o/r")

paused_example :
    IsPausedState
      ("agent-stuck" ∷ "awaiting-answer" ∷ [])
      (paused_state_of ("agent-stuck" ∷ "awaiting-answer" ∷ []))
paused_example = paused_state_of-IsPausedState ("agent-stuck" ∷ "awaiting-answer" ∷ [])
