-- ===== src/Core/Moding/Sole.antt =====
-- What the synthetic-mode gate says of the issue itself.
use ralph_autopilot.Common.{
  ◌≡◌, refl, Bool, true, false, none, some, List, [], ◌∷◌, ◌++◌, any, any-append, includes,
  starts_with, arith, String, ◌===◌, sym, ◌∙◌,
}
use ralph_autopilot.Store.Types.{Mode, tdd, infra, ui}
use ralph_autopilot.Github.Types.{Issue, open_issue}
use ralph_autopilot.Core.Labels.{
  label_ready, label_afk, label_hitl, label_mode_tdd, label_mode_infra, label_mode_ui,
  log_label_prefix, is_paused_label, read_mode, mode_label_for,
}
use ralph_autopilot.Core.Admission.Gate.{eligible, ineligible, no_mode, gate_labels}
use ralph_autopilot.Core.Admission.Gate.Verdicts.{LabelsPass, gate_labels_iff}
use ralph_autopilot.Core.Moding.{with_label}

-- Adding the label of a mode changes what the gate reads of the mode, and nothing else.
pub record SameButMode (labels : List String) (m : Mode) : Type 0 where
  pub ready : includes (labels ++ mode_label_for m ∷ []) label_ready ≡ includes labels label_ready
  pub afk : includes (labels ++ mode_label_for m ∷ []) label_afk ≡ includes labels label_afk
  pub hitl : includes (labels ++ mode_label_for m ∷ []) label_hitl ≡ includes labels label_hitl
  pub paused : any is_paused_label (labels ++ mode_label_for m ∷ []) ≡ any is_paused_label labels
  pub log :
      any (λ l. starts_with l log_label_prefix) (labels ++ mode_label_for m ∷ [])
      ≡ any (λ l. starts_with l log_label_prefix) labels

any_snoc_false :
    (p : String → Bool) (labels : List String) (l : String)
    → p l ≡ false
    → any p (labels ++ l ∷ []) ≡ any p labels
any_snoc_false p labels l h = ground (arith, any-append p labels (l ∷ []))

any_snoc_true :
    (p : String → Bool) (labels : List String) (l : String)
    → p l ≡ true
    → any p (labels ++ l ∷ []) ≡ true
any_snoc_true p labels l h = ground (arith, any-append p labels (l ∷ []))

-- The tests of the gate, none of which a mode label passes.
record NotGated (l : String) : Type 0 where
  ready : (l === label_ready) ≡ false
  afk : (l === label_afk) ≡ false
  hitl : (l === label_hitl) ≡ false
  paused : is_paused_label l ≡ false
  log : starts_with l log_label_prefix ≡ false

mode_label-NotGated : (m : Mode) → NotGated (mode_label_for m)
unfolding mode_label_for is_paused_label ◌===◌
mode_label-NotGated tdd = record {
  ready = refl;
  afk = refl;
  hitl = refl;
  paused = refl;
  log = refl;
}
mode_label-NotGated infra = record {
  ready = refl;
  afk = refl;
  hitl = refl;
  paused = refl;
  log = refl;
}
mode_label-NotGated ui = record { ready = refl; afk = refl; hitl = refl; paused = refl; log = refl }

mode_label-SameButMode : (labels : List String) (m : Mode) → SameButMode labels m
mode_label-SameButMode labels m =
    let apart = mode_label-NotGated m in
    record {
      ready = any_snoc_false (λ x. x === label_ready) labels (mode_label_for m) apart.ready;
      afk = any_snoc_false (λ x. x === label_afk) labels (mode_label_for m) apart.afk;
      hitl = any_snoc_false (λ x. x === label_hitl) labels (mode_label_for m) apart.hitl;
      paused = any_snoc_false is_paused_label labels (mode_label_for m) apart.paused;
      log =
          any_snoc_false (λ l. starts_with l log_label_prefix) labels (mode_label_for m) apart.log;
    }

unmoded :
    (labels : List String)
    → read_mode labels ≡ none
    → (includes labels label_mode_tdd ≡ false)
      × (includes labels label_mode_infra ≡ false)
      × (includes labels label_mode_ui ≡ false)
unfolding read_mode
unmoded labels h = ground arith

-- On an issue with no mode, the mode label that the daemon writes is read back as that mode.
read_mode-mode_label_for :
    (labels : List String) (m : Mode)
    → read_mode labels ≡ none
    → read_mode (labels ++ mode_label_for m ∷ []) ≡ some m
unfolding mode_label_for read_mode ◌===◌
read_mode-mode_label_for labels tdd h =
    rw (any_snoc_true (λ x. x === label_mode_tdd) labels label_mode_tdd refl)
read_mode-mode_label_for labels infra h =
    let (t, i, u) = unmoded labels h in
    rw (
      any_snoc_false (λ x. x === label_mode_tdd) labels label_mode_infra refl,
      t,
      any_snoc_true (λ x. x === label_mode_infra) labels label_mode_infra refl,
    )
read_mode-mode_label_for labels ui h =
    let (t, i, u) = unmoded labels h in
    rw (
      any_snoc_false (λ x. x === label_mode_tdd) labels label_mode_ui refl,
      t,
      any_snoc_false (λ x. x === label_mode_infra) labels label_mode_ui refl,
      i,
      any_snoc_true (λ x. x === label_mode_ui) labels label_mode_ui refl,
    )

rejected_for_mode :
    (issue : Issue)
    → issue.state ≡ open_issue
    → includes issue.labels label_ready ≡ true
    → includes issue.labels label_afk ≡ true
    → includes issue.labels label_hitl ≡ false
    → any is_paused_label issue.labels ≡ false
    → any (λ l. starts_with l log_label_prefix) issue.labels ≡ false
    → read_mode issue.labels ≡ none
    → gate_labels issue ≡ ineligible no_mode
unfolding gate_labels
rejected_for_mode issue a b c d e f g = ground arith

-- An unmoded issue that the label gate would pass with a mode label is rejected by it today for
-- the missing mode and nothing else; and whichever mode is then stamped, the gate passes it.
pub moding-sole :
    (issue : Issue) (m m' : Mode)
    → read_mode issue.labels ≡ none
    → gate_labels (with_label issue (mode_label_for m)) ≡ eligible m
    → (gate_labels issue ≡ ineligible no_mode)
      × (gate_labels (with_label issue (mode_label_for m')) ≡ eligible m')
moding-sole issue m m' unmoded h = (
  rejected,
  (gate_labels_iff _ m').1 (record {
    is_open = pass.is_open;
    ready = new.ready ∙ ready;
    afk = new.afk ∙ afk;
    not_hitl = new.hitl ∙ not_hitl;
    not_paused = new.paused ∙ not_paused;
    not_log = new.log ∙ not_log;
    moded = read_mode-mode_label_for issue.labels m' unmoded;
  }),
)
  where
    pass : LabelsPass (with_label issue (mode_label_for m)) m
    pass = (gate_labels_iff _ m).0 h

    old : SameButMode issue.labels m
    old = mode_label-SameButMode issue.labels m

    new : SameButMode issue.labels m'
    new = mode_label-SameButMode issue.labels m'

    ready : includes issue.labels label_ready ≡ true
    ready = sym old.ready ∙ pass.ready

    afk : includes issue.labels label_afk ≡ true
    afk = sym old.afk ∙ pass.afk

    not_hitl : includes issue.labels label_hitl ≡ false
    not_hitl = sym old.hitl ∙ pass.not_hitl

    not_paused : any is_paused_label issue.labels ≡ false
    not_paused = sym old.paused ∙ pass.not_paused

    not_log : any (λ l. starts_with l log_label_prefix) issue.labels ≡ false
    not_log = sym old.log ∙ pass.not_log

    rejected : gate_labels issue ≡ ineligible no_mode
    rejected = rejected_for_mode issue pass.is_open ready afk not_hitl not_paused not_log unmoded
