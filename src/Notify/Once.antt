-- ===== src/Notify/Once.antt =====
-- notify/decide.ts: one request for each repository, issue and kind of a batch.
use ralph_autopilot.Common.{
  ◌≡◌, refl, subst, sym, Bool, true, false, ◌||◌, Option, none, some, Option-cases, Bool-cases, inl,
  inr, List, [], ◌∷◌, any, All, All-map, Text, text_eq, text_eq_refl, text_eq_sym, arith,
}
use ralph_autopilot.Common.Distinct.{IsDistinct}
use ralph_autopilot.Notify.{
  RecordedLogEvent, NotificationRequest, BatchFacts, batch_facts, mem, plan_notification,
  decide_loop, decide_notifications, request_key,
}

-- The same repository, issue and kind.
abbrev pub same_request : NotificationRequest → NotificationRequest → Bool
same_request a b = text_eq (request_key a) (request_key b)

-- An event that plans a request has one of its key among those that are sent.
abbrev pub IsCovered : Option NotificationRequest → List NotificationRequest → Type 0
IsCovered none sent = Unit
IsCovered (some r) sent = any (λ s. same_request s r) sent ≡ true

Unseen : List Text → NotificationRequest → Type 0
Unseen seen r = mem (request_key r) seen ≡ false

none_of :
    (r : NotificationRequest) (seen : List Text) (sent : List NotificationRequest)
    → All (Unseen (request_key r ∷ seen)) sent
    → (any (λ s. same_request s r) sent ≡ false) × All (Unseen seen) sent
unfolding Unseen
none_of r seen [] h = (refl, tt)
none_of r seen (s ∷ sent) h =
    let ih = none_of r seen sent h.1 in (ground (arith, h.0), (ground (arith, h.0), ih.1))

module _ (at : Text) (facts : BatchFacts) where
  decide_loop-Unseen :
      (seen : List Text) (es : List RecordedLogEvent)
      → All (Unseen seen) (decide_loop at facts seen es)
  unfolding decide_loop Unseen
  decide_loop-Unseen seen [] = tt
  decide_loop-Unseen seen (e ∷ es) = elim (Option-cases (plan_notification e at facts)) [
    | inl n ↦ rw (n, decide_loop) (decide_loop-Unseen seen es)
    | inr (r, s) ↦ elim (Bool-cases (mem (request_key r) seen)) [
      | inl k ↦ rw (s, k, decide_loop) (decide_loop-Unseen seen es)
      | inr k ↦
          rw (s, k, decide_loop)
            (k, (none_of r seen _ (decide_loop-Unseen (request_key r ∷ seen) es)).1)
    ]
  ]

  decide_loop-IsDistinct :
      (seen : List Text) (es : List RecordedLogEvent)
      → IsDistinct same_request (decide_loop at facts seen es)
  unfolding decide_loop
  decide_loop-IsDistinct seen [] = tt
  decide_loop-IsDistinct seen (e ∷ es) = elim (Option-cases (plan_notification e at facts)) [
    | inl n ↦ rw (n, decide_loop) (decide_loop-IsDistinct seen es)
    | inr (r, s) ↦ elim (Bool-cases (mem (request_key r) seen)) [
      | inl k ↦ rw (s, k, decide_loop) (decide_loop-IsDistinct seen es)
      | inr k ↦
          rw (s, k, decide_loop)
            (
              (none_of r seen _ (decide_loop-Unseen (request_key r ∷ seen) es)).0,
              decide_loop-IsDistinct (request_key r ∷ seen) es,
            )
    ]
  ]

  -- What was seen already counts, too.
  Accounted : List Text → List NotificationRequest → Option NotificationRequest → Type 0
  Accounted seen sent none = Unit
  Accounted seen sent (some r) =
      (mem (request_key r) seen || any (λ s. same_request s r) sent) ≡ true

  Accounted-later :
      (seen : List Text) (sent : List NotificationRequest) (r : NotificationRequest)
      (o : Option NotificationRequest)
      → Accounted (request_key r ∷ seen) sent o
      → Accounted seen (r ∷ sent) o
  unfolding Accounted
  Accounted-later seen sent r none h = tt
  Accounted-later seen sent r (some q) h =
      let e = text_eq_sym (request_key r) (request_key q) in ground (arith, h, e)

  -- The loop at one event, by what is planned and seen.
  decide_loop-none :
      (seen : List Text) (e : RecordedLogEvent) (es : List RecordedLogEvent)
      → plan_notification e at facts ≡ none
      → decide_loop at facts seen (e ∷ es) ≡ decide_loop at facts seen es
  unfolding decide_loop
  decide_loop-none seen e es n = rw (n, decide_loop) refl

  loop_at_seen :
      (seen : List Text) (e : RecordedLogEvent) (es : List RecordedLogEvent)
      (r : NotificationRequest)
      → plan_notification e at facts ≡ some r
      → mem (request_key r) seen ≡ true
      → decide_loop at facts seen (e ∷ es) ≡ decide_loop at facts seen es
  unfolding decide_loop
  loop_at_seen seen e es r s k = rw (s, k, decide_loop) refl

  loop_at_new :
      (seen : List Text) (e : RecordedLogEvent) (es : List RecordedLogEvent)
      (r : NotificationRequest)
      → plan_notification e at facts ≡ some r
      → mem (request_key r) seen ≡ false
      → decide_loop at facts seen (e ∷ es) ≡ r ∷ decide_loop at facts (request_key r ∷ seen) es
  unfolding decide_loop
  loop_at_new seen e es r s k = rw (s, k, decide_loop) refl

  AllAccounted : List Text → List NotificationRequest → List RecordedLogEvent → Type 0
  AllAccounted seen sent es = All (λ e. Accounted seen sent (plan_notification e at facts)) es

  with_head :
      (seen : List Text) (sent : List NotificationRequest) (e : RecordedLogEvent)
      (es : List RecordedLogEvent) {o : Option NotificationRequest}
      → plan_notification e at facts ≡ o
      → Accounted seen sent o
      → AllAccounted seen sent es
      → AllAccounted seen sent (e ∷ es)
  unfolding AllAccounted
  with_head seen sent e es q h t = (subst (Accounted seen sent) (sym q) h, t)

  decide_loop-Accounted :
      (seen : List Text) (es : List RecordedLogEvent)
      → AllAccounted seen (decide_loop at facts seen es) es
  unfolding AllAccounted Accounted
  decide_loop-Accounted seen [] = tt
  decide_loop-Accounted seen (e ∷ es) = elim (Option-cases (plan_notification e at facts)) [
    | inl n ↦
        subst (λ sent. AllAccounted seen sent (e ∷ es)) (sym (decide_loop-none seen e es n))
          (with_head seen (decide_loop at facts seen es) e es n tt (decide_loop-Accounted seen es))
    | inr (r, s) ↦ elim (Bool-cases (mem (request_key r) seen)) [
      | inl k ↦
          subst (λ sent. AllAccounted seen sent (e ∷ es)) (sym (loop_at_seen seen e es r s k))
            (with_head seen (decide_loop at facts seen es) e es s (ground (arith, k))
              (decide_loop-Accounted seen es))
      | inr k ↦
          let sent = decide_loop at facts (request_key r ∷ seen) es in
          subst (λ sent'. AllAccounted seen sent' (e ∷ es)) (sym (loop_at_new seen e es r s k))
            (with_head seen (r ∷ sent) e es s (ground (arith, text_eq_refl (request_key r))) (
              All-map es (λ e' h. Accounted-later seen sent r (plan_notification e' at facts) h)
                (decide_loop-Accounted (request_key r ∷ seen) es)))
    ]
  ]

  IsCovered-at_start :
      (sent : List NotificationRequest) (o : Option NotificationRequest)
      → Accounted [] sent o
      → IsCovered o sent
  unfolding Accounted
  IsCovered-at_start sent none h = tt
  IsCovered-at_start sent (some r) h = h

-- A batch sends at most one request for each repository, issue and kind, and every event of it that
-- plans a request has one of its repository, issue and kind among those that are sent.
pub decide_notifications-IsCovered :
    (events : List RecordedLogEvent) (at : Text)
    → IsDistinct same_request (decide_notifications events at)
      × All
          (λ e.
            IsCovered
              (plan_notification e at (batch_facts events))
              (decide_notifications events at))
          events
unfolding decide_notifications AllAccounted
decide_notifications-IsCovered events at =
    let facts = batch_facts events in
    (
      decide_loop-IsDistinct at facts [] events,
      All-map events
          (λ e h.
            IsCovered-at_start at facts (decide_loop at facts [] events)
              (plan_notification e at facts) h)
          (decide_loop-Accounted at facts [] events),
    )
