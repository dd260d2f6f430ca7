-- ===== src/Master/History/Keyed/Growth.antt =====
-- How an event changes the keys of the records.
use ralph_autopilot.Common.{
  ◌≡◌, ◌⊎◌, refl, ap, ◌∙◌, true, false, Option, none, some, [], ◌∷◌, ◌++◌, find, is_some, ◌+◌,
  arith, inl, inr, if-keeps, ◌===◌,
}
use ralph_autopilot.Common.Json.{Json}
use ralph_autopilot.Master.History.{
  RecordedStreamEvent, MasterInterventionRecord, MasterHistory, AwaitingHuman, resumes_of,
  is_attempt, reopen, new_record, str_field, num_field, select, complete, span_started, requested,
  started, open_record, resolution_selected, intervention_completed, fold_master_event,
}
use ralph_autopilot.Master.History.Keys.{
  key_of, keys, is_attempt-key, keys-map, keys-append, keys-replace_first, find-is_attempt,
}
use ralph_autopilot.Master.History.Keyed.{select-key, complete-key, new_record-key}

keys-started_existing :
    (h : MasterHistory) (d : Json) (i : MasterInterventionRecord)
    → find (is_attempt (num_field d "attempt") (str_field d "phase")) h.interventions ≡ some i
    → keys (started h d).interventions ≡ keys h.interventions
unfolding started open_record reopen
keys-started_existing h d i e = rw e (
    keys-replace_first (num_field d "attempt") (str_field d "phase") _ h.interventions (
      is_attempt-key (num_field d "attempt") (str_field d "phase") i
        (find-is_attempt (num_field d "attempt") (str_field d "phase") h.interventions i e)))

keys-started_new :
    (h : MasterHistory) (d : Json)
    → find (is_attempt (num_field d "attempt") (str_field d "phase")) h.interventions ≡ none
    → keys (started h d).interventions
      ≡ keys h.interventions
        ++ record { attempt = num_field d "attempt"; phase = str_field d "phase" } ∷ []
unfolding started open_record
keys-started_new h d e = rw e (
    keys-append h.interventions (new_record d ∷ [])
    ∙ ap (λ k. keys h.interventions ++ k ∷ []) (new_record-key d))

abbrev pub KeepsKeys : MasterHistory → MasterHistory → Type 0
KeepsKeys h h' = (keys h'.interventions ≡ keys h.interventions) ⊎ (keys h'.interventions ≡ [])

-- Any other event keeps the keys or starts a new span.
pub keys-other :
    (h : MasterHistory) (e : RecordedStreamEvent)
    → (e.event_type === "MasterInterventionStarted") ≡ false
    → KeepsKeys h (fold_master_event h e)
unfolding fold_master_event span_started requested resolution_selected intervention_completed
keys-other h e k = if-keeps (KeepsKeys h) (e.event_type === "RunStarted") _ _ (inr refl) (
    if-keeps (KeepsKeys h) (e.event_type === "MasterTriageRequested") _ _ (inl refl) (
      if-keeps (KeepsKeys h) (e.event_type === "ComplexityPromoted") _ _ (inl refl) (
        rw k (
          if-keeps (KeepsKeys h) (e.event_type === "MasterHumanQuestionRequested") _ _ (inl refl) (
            if-keeps (KeepsKeys h) (e.event_type === "MasterResolutionSelected") _ _
              (inl (keys-map (select e.payload) (select-key e.payload) h.interventions))
              (if-keeps (KeepsKeys h) (e.event_type === "MasterInterventionCompleted") _ _
                (inl (keys-map (complete e.payload) (complete-key e.payload) h.interventions))
                (if-keeps (KeepsKeys h) (e.event_type === "DecisionPublished") _ _ (inl refl)
                  (inl refl))))))))

started-fold :
    (h : MasterHistory) (e : RecordedStreamEvent)
    → e.event_type ≡ "MasterInterventionStarted"
    → fold_master_event h e ≡ started h e.payload
unfolding fold_master_event ◌===◌
started-fold h e q = rw q refl

-- The event of a session adds its key where no record has it.
pub keys-started :
    (h : MasterHistory) (e : RecordedStreamEvent)
    → e.event_type ≡ "MasterInterventionStarted"
    → (is_some (
            find
              (is_attempt (num_field e.payload "attempt") (str_field e.payload "phase"))
              h.interventions)
          ≡ true
        → keys (fold_master_event h e).interventions ≡ keys h.interventions)
      × ((keys (fold_master_event h e).interventions ≡ keys h.interventions)
          ⊎ (keys (fold_master_event h e).interventions
              ≡ keys h.interventions
                ++ record {
                  attempt = num_field e.payload "attempt";
                  phase = str_field e.payload "phase";
                }
                  ∷ []))
keys-started h e q = rw (started-fold h e q) (go _ refl)
  where
    go :
        (o : Option MasterInterventionRecord)
        → find
            (is_attempt (num_field e.payload "attempt") (str_field e.payload "phase"))
            h.interventions
          ≡ o
        → (is_some (
                find
                  (is_attempt (num_field e.payload "attempt") (str_field e.payload "phase"))
                  h.interventions)
              ≡ true
            → keys (started h e.payload).interventions ≡ keys h.interventions)
          × ((keys (started h e.payload).interventions ≡ keys h.interventions)
              ⊎ (keys (started h e.payload).interventions
                  ≡ keys h.interventions
                    ++ record {
                      attempt = num_field e.payload "attempt";
                      phase = str_field e.payload "phase";
                    }
                      ∷ []))
    go none f = (λ t. absurd (ground arith), inr (keys-started_new h e.payload f))
    go (some i) f = let k = keys-started_existing h e.payload i f in (λ t. k, inl k)

-- A session that a human's answer resumes is the open attempt, and counts the answer.
pub fold_master_event-resumed :
    (h : MasterHistory) (e : RecordedStreamEvent) (w : AwaitingHuman) (i : MasterInterventionRecord)
    → h.awaiting_human ≡ some w
    → find (is_attempt w.attempt w.phase) h.interventions ≡ some i
    → e.event_type ≡ "MasterInterventionStarted"
    → num_field e.payload "attempt" ≡ w.attempt
    → str_field e.payload "phase" ≡ w.phase
    → (cur : MasterInterventionRecord) × ((fold_master_event h e).in_progress ≡ some cur)
      × (cur.human_resumes ≡ i.human_resumes + 1)
      × (key_of cur ≡ key_of i)
unfolding started open_record reopen resumes_of
fold_master_event-resumed h e w i a f t n p =
    rw (started-fold h e t, n, p, f)
      (reopen h.awaiting_human i, refl, rw a (ap (λ x. i.human_resumes + x) same), refl)
  where
    same : resumes_of (some w) i.attempt ≡ 1
    same =
        unfold resumes_of in ground (arith, find-is_attempt w.attempt w.phase h.interventions i f)
