-- ===== src/Examples/Review.antt =====
-- Runs of review/phase.ts.
use ralph_autopilot.Common.{◌≡◌, refl, some, codes, text_eq}
use ralph_autopilot.Common.Lines.{strip_prefix}
use ralph_autopilot.Store.Types.{phase2}
use ralph_autopilot.Review.Phase.{fix, other, phase_label, decode_agent_phase}
use ralph_autopilot.Review.Phase.RoundTrip.{
  shown, decode_agent_phase-phase_label, phase_label-decode_agent_phase,
}

unknown_review : decode_agent_phase (some (codes "review-0")) ≡ other (codes "review-0")
unfolding decode_agent_phase text_eq strip_prefix
unknown_review = refl

phase_example : decode_agent_phase (some (phase_label (fix phase2))) ≡ fix phase2
phase_example = decode_agent_phase-phase_label (fix phase2) tt

label_example :
    phase_label (decode_agent_phase (some (codes "review-0"))) ≡ shown (some (codes "review-0"))
label_example = phase_label-decode_agent_phase (some (codes "review-0"))
