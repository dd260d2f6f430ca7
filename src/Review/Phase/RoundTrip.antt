-- ===== src/Review/Phase/RoundTrip.antt =====
-- Labels and phases agree.
use ralph_autopilot.Common.{
  ◌≡◌, refl, sym, ap, ◌∙◌, Option, none, some, [], ◌∷◌, ◌++◌, Text, text_eq, text_eq_iff, codes,
  if◌then◌else◌, arith, inl, inr, Bool-cases,
}
use ralph_autopilot.Common.Lines.{strip_prefix}
use ralph_autopilot.Store.Types.{Phase, phase0, phase1, phase2}
use ralph_autopilot.Review.Phase.{
  review1, review2, AgentPhase, impl, ci_gate, merge, merge_conflict, review, fix, other,
  review_prefix, fix_prefix, digit_of, phase_label, phase_of_digit, suffix_phase, fix_or_other,
  review_or_rest, decode_label, decode_agent_phase,
}

abbrev IsKnown : AgentPhase → Type 0
IsKnown (other raw) = ⊥
IsKnown _ = Unit

-- Every phase that this build knows is read back from its label.
pub decode_agent_phase-phase_label :
    (p : AgentPhase) → IsKnown p → decode_agent_phase (some (phase_label p)) ≡ p
unfolding decode_agent_phase phase_label text_eq strip_prefix
decode_agent_phase-phase_label impl k = refl
decode_agent_phase-phase_label ci_gate k = refl
decode_agent_phase-phase_label merge k = refl
decode_agent_phase-phase_label merge_conflict k = refl
decode_agent_phase-phase_label (review review1) k = refl
decode_agent_phase-phase_label (review review2) k = refl
decode_agent_phase-phase_label (fix phase0) k = refl
decode_agent_phase-phase_label (fix phase1) k = refl
decode_agent_phase-phase_label (fix phase2) k = refl
decode_agent_phase-phase_label (other raw) k = absurd k

prefix_sound : (prefix s rest : Text) → strip_prefix prefix s ≡ some rest → s ≡ prefix ++ rest
unfolding strip_prefix
prefix_sound [] s rest h = ground arith
prefix_sound (c ∷ prefix) [] rest h = absurd (ground arith)
prefix_sound (c ∷ prefix) (d ∷ s) rest h = ground (arith, prefix_sound prefix s rest)

digit_sound : (rest : Text) (p : Phase) → phase_of_digit rest ≡ some p → rest ≡ digit_of p
unfolding phase_of_digit
digit_sound rest p h = elim (Bool-cases (text_eq rest (codes "0"))) [
  | inl e ↦ let q : phase0 ≡ p = ground arith in (text_eq_iff rest (codes "0")).0 e ∙ ap digit_of q
  | inr e ↦ elim (Bool-cases (text_eq rest (codes "1"))) [
    | inl f ↦
        let q : phase1 ≡ p = ground arith in (text_eq_iff rest (codes "1")).0 f ∙ ap digit_of q
    | inr f ↦ elim (Bool-cases (text_eq rest (codes "2"))) [
      | inl g ↦
          let q : phase2 ≡ p = ground arith in (text_eq_iff rest (codes "2")).0 g ∙ ap digit_of q
      | inr g ↦ absurd (ground arith)
    ]
  ]
]

suffix_sound :
    (s prefix : Text) (p : Phase) → suffix_phase s prefix ≡ some p → s ≡ prefix ++ digit_of p
unfolding suffix_phase
suffix_sound s prefix p h = go (strip_prefix prefix s) refl h
  where
    go :
        (o : Option Text)
        → strip_prefix prefix s ≡ o
        → (elim o [ none ↦ none | some rest ↦ phase_of_digit rest ]) ≡ some p
        → s ≡ prefix ++ digit_of p
    go none e q = absurd (ground arith)
    go (some rest) e q = prefix_sound prefix s rest e ∙ ap (λ t. prefix ++ t) (digit_sound rest p q)

label-fix_or_other :
    (s : Text) (o : Option Phase)
    → suffix_phase s fix_prefix ≡ o
    → phase_label (fix_or_other s o) ≡ s
unfolding fix_or_other phase_label
label-fix_or_other s none e = refl
label-fix_or_other s (some p) e = sym (suffix_sound s fix_prefix p e)

label-review_or_rest :
    (s : Text) (o : Option Phase)
    → suffix_phase s review_prefix ≡ o
    → phase_label (review_or_rest s o) ≡ s
unfolding review_or_rest phase_label
label-review_or_rest s none e = label-fix_or_other s (suffix_phase s fix_prefix) refl
label-review_or_rest s (some phase0) e = label-fix_or_other s (suffix_phase s fix_prefix) refl
label-review_or_rest s (some phase1) e = sym (suffix_sound s review_prefix phase1 e)
label-review_or_rest s (some phase2) e = sym (suffix_sound s review_prefix phase2 e)

-- A test for a literal, and the phase that has it as its label.
literal :
    (s lit : Text) (x y : AgentPhase)
    → phase_label x ≡ lit
    → phase_label y ≡ s
    → phase_label (if text_eq s lit then x else y) ≡ s
literal s lit x y h k = elim (Bool-cases (text_eq s lit)) [
  | inl e ↦ rw e (h ∙ sym ((text_eq_iff s lit).0 e))
  | inr e ↦ rw e k
]

label-decode_label : (s : Text) → phase_label (decode_label s) ≡ s
unfolding decode_label phase_label
label-decode_label s = literal s (codes "impl") impl _ refl (
    literal s (codes "ci-gate") ci_gate _ refl (
      literal s (codes "merge") merge _ refl (
        literal s (codes "merge-conflict") merge_conflict _ refl
          (label-review_or_rest s (suffix_phase s review_prefix) refl))))

-- What the views show for a stored label.
abbrev pub shown : Option Text → Text
shown none = codes "impl"
shown (some []) = codes "impl"
shown (some (c ∷ s)) = c ∷ s

-- Decoding a stored label and printing it again changes no label but the absent and the empty one,
-- which are printed as `impl`: a label of another version is shown as it is.
pub phase_label-decode_agent_phase :
    (stored : Option Text) → phase_label (decode_agent_phase stored) ≡ shown stored
unfolding decode_agent_phase phase_label
phase_label-decode_agent_phase none = refl
phase_label-decode_agent_phase (some []) = refl
phase_label-decode_agent_phase (some (c ∷ s)) = label-decode_label (c ∷ s)
