-- ===== src/Review/Hosted/Gate/Recorded.antt =====
-- review/hosted-gate.ts: what is on record behind a disposition that ended well.
use ralph_autopilot.Common.{
  ◌≡◌, ◌≢◌, refl, ap, sym, subst, ◌∙◌, Bool, true, ◌&&◌, Option, none, some, is_some, [], ◌∷◌, Text,
  text_eq, text_eq_refl, Bool-cases, inl, inr, arith,
}
use ralph_autopilot.Review.Loop.{Result, ok, bind-leads, bound}
use ralph_autopilot.Review.Hosted.{HostedFinding}
use ralph_autopilot.Review.Hosted.Gate.{
  HostedGateState, gate_step, fold_hosted_gate_state, already_replied_to, same_hash,
  DispositionInput, GateWorld, DisposeResult, thread_replied, thread_resolved, WriteOutcome,
  written, lost, unrecorded, GateOutcomes, is_hosted, on_reply, on_resolve, reply_to_finding,
  resolve_finding, then_tell, then_resolve, dispose_hosted, dispose_finding,
}
use ralph_autopilot.Review.Hosted.Gate.Once.{
  fold-snoc, resolved_in, step_resolved-resolved, reply_to_finding-resolved_in,
}

step_replied-replied_to :
    (s : HostedGateState) (id hash : Text)
    → id ≢ []
    → (gate_step s (thread_replied (some id) (some hash))).replied_to id ≡ some hash
unfolding gate_step
step_replied-replied_to s [] hash h = absurd (h refl)
step_replied-replied_to s (c ∷ id) hash h = rw (text_eq_refl (c ∷ id)) refl

step_resolved-replied_to :
    (s : HostedGateState) (id j : Text)
    → (gate_step s (thread_resolved (some id))).replied_to j ≡ s.replied_to j
unfolding gate_step
step_resolved-replied_to s [] j = refl
step_resolved-replied_to s (c ∷ id) j = refl

abbrev replied_in : GateWorld → HostedFinding → Bool
replied_in w f = already_replied_to (fold_hosted_gate_state w.stream) f

module _ (f : HostedFinding) (named : f.thread_id ≢ []) where
  -- A reply that was made or was on record is on record.
  reply_to_finding-replied_in :
      (o : WriteOutcome) (input : DispositionInput) (w : GateWorld) {a : Unit {0}} {u : GateWorld}
      → reply_to_finding o (fold_hosted_gate_state w.stream) f input w ≡ (ok a, u)
      → replied_in u f ≡ true
  unfolding reply_to_finding
  reply_to_finding-replied_in o input w {a} {u} e = elim (Bool-cases (replied_in w f)) [
    | inl k ↦ let same : w ≡ u = ap (λ r. r.1) (rw k at e) in rw (← same) k
    | inr k ↦ made o (rw k at e)
  ]
    where
      made : (o : WriteOutcome) → on_reply o f input w ≡ (ok a, u) → replied_in u f ≡ true
      made (lost x) e = absurd (ground arith)
      made (unrecorded x) e = absurd (ground arith)
      made written e =
          subst (λ v. replied_in v f ≡ true) (ap (λ r. r.1) e)
            (ap (λ (t : HostedGateState). already_replied_to t f)
                (fold-snoc w.stream
                  (thread_replied (some f.thread_id) (some f.latest_comment_hash)))
              ∙ rw
                  (step_replied-replied_to (fold_hosted_gate_state w.stream) f.thread_id
                    f.latest_comment_hash named)
                  (text_eq_refl f.latest_comment_hash))

  -- A resolution that was made or was on record is on record, and the reply stays there.
  resolve_finding-recorded :
      (o : WriteOutcome) (s : HostedGateState) (w : GateWorld) {a : Unit {0}} {u : GateWorld}
      → s.resolved f.thread_id ≡ resolved_in w f.thread_id
      → resolve_finding o s f w ≡ (ok a, u)
      → (resolved_in u f.thread_id ≡ true) × (replied_in u f ≡ replied_in w f)
  unfolding resolve_finding
  resolve_finding-recorded o s w {a} {u} h e = elim (Bool-cases (s.resolved f.thread_id)) [
    | inl k ↦
        subst (λ v. (resolved_in v f.thread_id ≡ true) × (replied_in v f ≡ replied_in w f))
          (ap (λ r. r.1) (rw k at e)) (sym h ∙ k, refl)
    | inr k ↦ made o (rw k at e)
  ]
    where
      made :
          (o : WriteOutcome)
          → on_resolve o f w ≡ (ok a, u)
          → (resolved_in u f.thread_id ≡ true) × (replied_in u f ≡ replied_in w f)
      made (lost x) e = absurd (ground arith)
      made (unrecorded x) e = absurd (ground arith)
      made written e =
          let next = fold-snoc w.stream (thread_resolved (some f.thread_id)) in
          subst (λ v. (resolved_in v f.thread_id ≡ true) × (replied_in v f ≡ replied_in w f))
            (ap (λ r. r.1) e)
            (
              ap (λ (t : HostedGateState). t.resolved f.thread_id) next
                  ∙ step_resolved-resolved (fold_hosted_gate_state w.stream) f.thread_id f.thread_id
                      named
                  ∙ rw (text_eq_refl f.thread_id) refl,
              ap (λ (t : HostedGateState). already_replied_to t f) next
                  ∙ rw
                      (step_resolved-replied_to (fold_hosted_gate_state w.stream) f.thread_id
                        f.thread_id)
                      refl,
            )

  -- With both writes on record, a pass makes none.
  dispose_finding-recorded :
      (o : GateOutcomes) (input : DispositionInput) (w : GateWorld)
      → replied_in w f ≡ true
      → resolved_in w f.thread_id ≡ true
      → (dispose_finding o f input w).1 ≡ w
  unfolding dispose_finding reply_to_finding resolve_finding
  dispose_finding-recorded o input w h k = elim (Bool-cases (is_hosted f.author_type)) [
    | inr e ↦ rw (e, dispose_finding) refl
    | inl e ↦ rw (e, dispose_finding, reply_to_finding, resolve_finding, h, k) refl
  ]

  -- Behind a disposition that ended well both writes are on record.
  pub dispose_hosted-recorded :
      (o : GateOutcomes) (input : DispositionInput) (w : GateWorld) {d : DisposeResult}
      {w' : GateWorld}
      → dispose_hosted o (fold_hosted_gate_state w.stream) f input w ≡ (ok d, w')
      → (replied_in w' f ≡ true) × (resolved_in w' f.thread_id ≡ true)
  dispose_hosted-recorded o input w {d} {w'} made =
      let s = fold_hosted_gate_state w.stream in
      let b =
        bound (reply_to_finding o.of_reply s f input) (then_resolve o.of_resolve s f) w made in
      let c = bound (resolve_finding o.of_resolve s f) (then_tell s f) b.between b.then_second in
      let replied = reply_to_finding-replied_in o.of_reply input w b.first in
      let left = reply_to_finding-resolved_in o.of_reply s f input w f.thread_id in
      let stays : s.resolved f.thread_id ≡ resolved_in b.between f.thread_id =
        sym left.0
        ∙ ap (λ (r : Result (Unit {0}) × GateWorld). resolved_in r.1 f.thread_id) b.first in
      let (r, q) = resolve_finding-recorded o.of_resolve s b.between stays c.first in
      subst (λ v. (replied_in v f ≡ true) × (resolved_in v f.thread_id ≡ true))
        (ap (λ r. r.1) c.then_second) (q ∙ replied, r)

  -- Behind a disposition that ended well, a repeated one writes nothing, whatever GitHub would
  -- answer: it neither replies nor resolves, and leaves the record and GitHub as they are.
  pub dispose_finding-again :
      (o again : GateOutcomes) (input next : DispositionInput) (w w' : GateWorld)
      (d : DisposeResult)
      → dispose_finding o f input w ≡ (ok d, w')
      → (dispose_finding again f next w').1 ≡ w'
  unfolding dispose_finding
  dispose_finding-again o again input next w w' d e = elim (Bool-cases (is_hosted f.author_type)) [
    | inr k ↦ rw (k, dispose_finding) refl
    | inl k ↦
        let (r, q) = dispose_hosted-recorded o input w (rw (k, dispose_finding) at e) in
        dispose_finding-recorded again next w' r q
  ]

-- A conversation that the record calls replied to, at any content, and resolved.
abbrev pub is_settled : HostedGateState → Text → Bool
is_settled s id = s.resolved id && is_some (s.replied_to id)

abbrev pub settled_in : GateWorld → Text → Bool
settled_in w id = is_settled (fold_hosted_gate_state w.stream) id

step_replied-is_settled :
    (s : HostedGateState) (i hash id : Text)
    → is_settled s id ≡ true
    → is_settled (gate_step s (thread_replied (some i) (some hash))) id ≡ true
unfolding gate_step
step_replied-is_settled s [] hash id h = h
step_replied-is_settled s (c ∷ i) hash id h = elim (Bool-cases (text_eq (c ∷ i) id)) [
  | inl e ↦ rw e (ground arith)
  | inr e ↦ rw e h
]

step_resolved-is_settled :
    (s : HostedGateState) (i id : Text)
    → is_settled s id ≡ true
    → is_settled (gate_step s (thread_resolved (some i))) id ≡ true
unfolding gate_step
step_resolved-is_settled s [] id h = h
step_resolved-is_settled s (c ∷ i) id h = elim (Bool-cases (text_eq (c ∷ i) id)) [
  | inl e ↦ rw e (ground arith)
  | inr e ↦ rw e h
]

module _ (f : HostedFinding) (id : Text) where
  reply_to_finding-settled_in :
      (o : WriteOutcome) (s : HostedGateState) (input : DispositionInput) (w : GateWorld)
      → settled_in w id ≡ true
      → settled_in (reply_to_finding o s f input w).1 id ≡ true
  unfolding reply_to_finding
  reply_to_finding-settled_in o s input w h = elim (Bool-cases (already_replied_to s f)) [
    | inl e ↦ rw e h
    | inr e ↦ rw e (made o)
  ]
    where
      made : (o : WriteOutcome) → settled_in (on_reply o f input w).1 id ≡ true
      made (lost x) = h
      made (unrecorded x) = h
      made written =
          ap (λ (t : HostedGateState). is_settled t id)
            (fold-snoc w.stream (thread_replied (some f.thread_id) (some f.latest_comment_hash)))
          ∙ step_replied-is_settled (fold_hosted_gate_state w.stream) f.thread_id
              f.latest_comment_hash id h

  resolve_finding-settled_in :
      (o : WriteOutcome) (s : HostedGateState) (w : GateWorld)
      → settled_in w id ≡ true
      → settled_in (resolve_finding o s f w).1 id ≡ true
  unfolding resolve_finding
  resolve_finding-settled_in o s w h = elim (Bool-cases (s.resolved f.thread_id)) [
    | inl e ↦ rw e h
    | inr e ↦ rw e (made o)
  ]
    where
      made : (o : WriteOutcome) → settled_in (on_resolve o f w).1 id ≡ true
      made (lost x) = h
      made (unrecorded x) = h
      made written =
          ap (λ (t : HostedGateState). is_settled t id)
            (fold-snoc w.stream (thread_resolved (some f.thread_id)))
          ∙ step_resolved-is_settled (fold_hosted_gate_state w.stream) f.thread_id id h

  -- What is on record stays on record.
  pub dispose_finding-settled_in :
      (o : GateOutcomes) (input : DispositionInput) (w : GateWorld)
      → settled_in w id ≡ true
      → settled_in (dispose_finding o f input w).1 id ≡ true
  unfolding dispose_finding
  dispose_finding-settled_in o input w h =
      let s = fold_hosted_gate_state w.stream in
      elim (Bool-cases (is_hosted f.author_type)) [
        | inr e ↦ rw (e, dispose_finding) h
        | inl e ↦
            rw (e, dispose_finding)
              (bind-leads (λ v. settled_in v id ≡ true) (λ v. settled_in v id ≡ true)
                (reply_to_finding o.of_reply s f input) (then_resolve o.of_resolve s f) w
                (reply_to_finding-settled_in o.of_reply s input w h) (λ v q. q)
                (λ _ v q.
                  bind-leads (λ u. settled_in u id ≡ true) (λ u. settled_in u id ≡ true)
                    (resolve_finding o.of_resolve s f) (then_tell s f) v
                    (resolve_finding-settled_in o.of_resolve s v q) (λ u r. r) (λ _ u r. r)))
      ]

  -- Both writes on record settle the conversation.
  pub recorded-settled_in :
      (w : GateWorld)
      → f.thread_id ≡ id
      → replied_in w f ≡ true
      → resolved_in w f.thread_id ≡ true
      → settled_in w id ≡ true
  recorded-settled_in w e r q =
      subst (λ i. settled_in w i ≡ true) e
        (replied_somewhere ((fold_hosted_gate_state w.stream).replied_to f.thread_id) r)
    where
      replied_somewhere :
          (o : Option Text)
          → same_hash o f.latest_comment_hash ≡ true
          → resolved_in w f.thread_id && is_some o ≡ true
      replied_somewhere none x = cc
      replied_somewhere (some h) x = ground arith
