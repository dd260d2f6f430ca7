-- ===== src/Review/Hosted/Gate/Once.antt =====
-- review/hosted-gate.ts: how often the gate writes through any sequence of passes, faults and
-- restarts of one run.
use mathlib.Core.List.{foldl-append}
use ralph_autopilot.Common.{
  ℕ, ◌+◌, ◌≤◌, ◌≡◌, ◌≢◌, refl, ap, sym, ◌∙◌, Bool, true, false, not, ◌&&◌, some, List, [], ◌∷◌,
  ◌++◌, foldl, Text, text_eq, text_eq_iff, if◌then◌else◌, Bool-cases, inl, inr, arith,
}
use ralph_autopilot.Review.Loop.{bind-leads}
use ralph_autopilot.Review.Hosted.{HostedFinding}
use ralph_autopilot.Review.Hosted.Gate.{
  GateEvent, HostedGateState, empty_gate_state, gate_step, fold_hosted_gate_state,
  already_replied_to, DispositionInput, GateWorld, thread_replied, thread_resolved, WriteOutcome,
  written, lost, unrecorded, GateOutcomes, is_hosted, on_reply, on_resolve, reply_to_finding,
  resolve_finding, then_tell, then_resolve, dispose_hosted, dispose_finding,
}

pub fold-snoc :
    (es : List GateEvent) (e : GateEvent)
    → fold_hosted_gate_state (es ++ e ∷ []) ≡ gate_step (fold_hosted_gate_state es) e
unfolding fold_hosted_gate_state
fold-snoc es e = foldl-append gate_step empty_gate_state es (e ∷ [])

abbrev pub resolved_in : GateWorld → Text → Bool
resolved_in w id = (fold_hosted_gate_state w.stream).resolved id

abbrev pub bit : Bool → ℕ
bit true = 1
bit false = 0

-- How often a conversation was resolved.
pub occurrences : Text → List Text → ℕ
occurrences id [] = 0
occurrences id (r ∷ rs) = bit (text_eq r id) + occurrences id rs

occurrences-snoc :
    (id : Text) (rs : List Text) (r : Text)
    → occurrences id (rs ++ r ∷ []) ≡ occurrences id rs + bit (text_eq r id)
unfolding occurrences
occurrences-snoc id [] r = ground arith
occurrences-snoc id (x ∷ rs) r = ground (arith, occurrences-snoc id rs r)

step_replied-resolved :
    (s : HostedGateState) (id hash : Text) (j : Text)
    → (gate_step s (thread_replied (some id) (some hash))).resolved j ≡ s.resolved j
unfolding gate_step
step_replied-resolved s [] hash j = refl
step_replied-resolved s (c ∷ id) hash j = refl

pub step_resolved-resolved :
    (s : HostedGateState) (id : Text) (j : Text)
    → j ≢ []
    → (gate_step s (thread_resolved (some id))).resolved j
      ≡ (if text_eq id j then true else s.resolved j)
unfolding gate_step text_eq
step_resolved-resolved s [] [] h = absurd (h refl)
step_resolved-resolved s [] (d ∷ j) h = refl
step_resolved-resolved s (c ∷ id) j h = refl

-- A pass of the gate over a finding, with what came of its writes.
pub record Pass : Type 0 where
  pub finding : HostedFinding
  pub input : DispositionInput
  pub outcomes : GateOutcomes

unfoldable pub run_pass : GateWorld → Pass → GateWorld
unfolding dispose_finding
run_pass w p = (dispose_finding p.outcomes p.finding p.input w).1

abbrev is_unrecorded : WriteOutcome → Bool
is_unrecorded (WriteOutcome.unrecorded e) = true
is_unrecorded _ = false

-- The pass is over the conversation, and a resolution that it makes stays without a record.
abbrev pub loses_record : Text → Pass → Bool
loses_record id p = is_unrecorded p.outcomes.of_resolve && text_eq p.finding.thread_id id

pub lost_records : Text → List Pass → ℕ
lost_records id [] = 0
lost_records id (p ∷ ps) = bit (loses_record id p) + lost_records id ps

-- The resolutions made, and one that may still come where none is on record.
abbrev spent : Text → GateWorld → ℕ
spent id w = occurrences id w.resolves + bit (not (resolved_in w id))

module _ (outcome : WriteOutcome) (s : HostedGateState) (f : HostedFinding) where
  pub reply_to_finding-resolved_in :
      (input : DispositionInput) (w : GateWorld) (j : Text)
      → (resolved_in (reply_to_finding outcome s f input w).1 j ≡ resolved_in w j)
        × ((reply_to_finding outcome s f input w).1.resolves ≡ w.resolves)
  unfolding reply_to_finding
  reply_to_finding-resolved_in input w j = elim (Bool-cases (already_replied_to s f)) [
    | inl e ↦ rw e (refl, refl)
    | inr e ↦ rw e (made outcome)
  ]
    where
      made :
          (o : WriteOutcome)
          → (resolved_in (on_reply o f input w).1 j ≡ resolved_in w j)
            × ((on_reply o f input w).1.resolves ≡ w.resolves)
      made (lost e) = (refl, refl)
      made (unrecorded e) = (refl, refl)
      made written = (
        ap (λ (t : HostedGateState). t.resolved j)
              (fold-snoc w.stream (thread_replied (some f.thread_id) (some f.latest_comment_hash)))
            ∙ step_replied-resolved (fold_hosted_gate_state w.stream) f.thread_id
                f.latest_comment_hash j,
        refl,
      )

  on_resolve-spent :
      (id : Text) (w : GateWorld)
      → id ≢ []
      → resolved_in w f.thread_id ≡ false
      → spent id (on_resolve outcome f w).1
        ≤ spent id w + bit (is_unrecorded outcome && text_eq f.thread_id id)
  on_resolve-spent id w ne n = made outcome
    where
      made :
          (o : WriteOutcome)
          → spent id (on_resolve o f w).1
            ≤ spent id w + bit (is_unrecorded o && text_eq f.thread_id id)
      made (lost e) = ground arith
      made (unrecorded e) = ground (arith, occurrences-snoc id w.resolves f.thread_id)
      made written =
          let on_record =
            ap (λ (t : HostedGateState). t.resolved id)
              (fold-snoc w.stream (thread_resolved (some f.thread_id)))
            ∙ step_resolved-resolved (fold_hosted_gate_state w.stream) f.thread_id id ne in
          let count = occurrences-snoc id w.resolves f.thread_id in
          elim (Bool-cases (text_eq f.thread_id id)) [
            | inr k ↦ rw (on_record, count, k) (ground arith)
            | inl k ↦
                let same : f.thread_id ≡ id = (text_eq_iff f.thread_id id).0 k in
                let none_yet : resolved_in w id ≡ false = rw same at n in
                rw (on_record, count, k, none_yet) (ground arith)
          ]

  resolve_finding-spent :
      (id : Text) (w : GateWorld)
      → id ≢ []
      → s.resolved f.thread_id ≡ resolved_in w f.thread_id
      → spent id (resolve_finding outcome s f w).1
        ≤ spent id w + bit (is_unrecorded outcome && text_eq f.thread_id id)
  unfolding resolve_finding
  resolve_finding-spent id w ne e = elim (Bool-cases (s.resolved f.thread_id)) [
    | inl k ↦ rw k (ground arith)
    | inr k ↦ rw k (on_resolve-spent id w ne (sym e ∙ k))
  ]

dispose_hosted-spent :
    (o : GateOutcomes) (f : HostedFinding) (input : DispositionInput) (id : Text) (w : GateWorld)
    → id ≢ []
    → spent id (dispose_hosted o (fold_hosted_gate_state w.stream) f input w).1
      ≤ spent id w + bit (is_unrecorded o.of_resolve && text_eq f.thread_id id)
dispose_hosted-spent o f input id w ne =
    let s = fold_hosted_gate_state w.stream in
    let replied = reply_to_finding-resolved_in o.of_reply s f input w in
    let b = bit (is_unrecorded o.of_resolve && text_eq f.thread_id id) in
    bind-leads
      (λ u. (spent id u ≡ spent id w) × (s.resolved f.thread_id ≡ resolved_in u f.thread_id))
      (λ u. spent id u ≤ spent id w + b) (reply_to_finding o.of_reply s f input)
      (then_resolve o.of_resolve s f) w
      (rw ((replied id).0, (replied id).1) refl, sym (replied f.thread_id).0)
      (λ u r. rw (r.0) (ground arith))
      (λ _ u r.
        bind-leads (λ v. spent id v ≤ spent id w + b) (λ v. spent id v ≤ spent id w + b)
          (resolve_finding o.of_resolve s f) (then_tell s f) u
          (rw (← r.0) (resolve_finding-spent o.of_resolve s f id u ne r.1)) (λ v q. q) (λ _ v q. q))

run_pass-spent :
    (p : Pass) (id : Text) (w : GateWorld)
    → id ≢ []
    → spent id (run_pass w p) ≤ spent id w + bit (loses_record id p)
unfolding run_pass dispose_finding
run_pass-spent p id w ne = elim (Bool-cases (is_hosted p.finding.author_type)) [
  | inr e ↦ rw (e, run_pass, dispose_finding) (ground arith)
  | inl e ↦
      rw (e, run_pass, dispose_finding) (dispose_hosted-spent p.outcomes p.finding p.input id w ne)
]

-- Through any passes, whatever comes of their writes, the gate asks GitHub to resolve a conversation
-- at most once, and once more for each pass over it that could resolve it and not record that it had;
-- with a resolution of it on record at the start, only those passes count. The conversation has an
-- identity.
pub run_pass-occurrences :
    (ps : List Pass) (id : Text) (w : GateWorld)
    → id ≢ []
    → occurrences id (foldl run_pass w ps).resolves
      ≤ occurrences id w.resolves + bit (not (resolved_in w id)) + lost_records id ps
unfolding lost_records
run_pass-occurrences [] id w ne = ground arith
run_pass-occurrences (p ∷ ps) id w ne =
    ground (arith, run_pass-occurrences ps id (run_pass w p) ne, run_pass-spent p id w ne)
