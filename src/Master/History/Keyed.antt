-- ===== src/Master/History/Keyed.antt =====
-- Every event keeps the records of the history keyed.
pub mod Growth
use ralph_autopilot.Common.{
  ℕ, String, ◌≡◌, refl, sym, ap, ◌∙◌, Bool, true, false, Option, none, some, List, [], ◌∷◌, ◌++◌,
  map, find, foldl, is_some, arith, inl, inr, Bool-cases, if-keeps, if◌then◌else◌, ◌===◌, ===_refl,
}
use ralph_autopilot.Common.Distinct.{IsDistinct, IsDistinct-snoc, foldl_inv}
use ralph_autopilot.Common.Json.{Json}
use ralph_autopilot.Master.History.{
  RecordedStreamEvent, MasterInterventionRecord, MasterHistory, empty_master_history, is_attempt,
  is_open_attempt, reopen, new_record, str_field, num_field, select, complete, span_started,
  requested, started, open_record, resolution_selected, intervention_completed, fold_master_event,
  fold_master_history, is_decided,
}
use ralph_autopilot.Master.History.Keys.{
  Key, key_of, keys, same_key, same_key-sym, is_attempt-key, keys-map, keys-append,
  keys-replace_first, any-keys, find-is_attempt, find-append, find-replace_first, find-map_other,
  found_again, IsKeyed,
}

select-key : (d : Json) (i : MasterInterventionRecord) → key_of (select d i) ≡ key_of i
unfolding select
select-key d i = ground arith

complete-key : (d : Json) (i : MasterInterventionRecord) → key_of (complete d i) ≡ key_of i
unfolding complete
complete-key d i = ground arith

select-other :
    (d : Json) (i : MasterInterventionRecord)
    → is_attempt (num_field d "attempt") (str_field d "phase") i ≡ false
    → select d i ≡ i
unfolding select
select-other d i h = ground arith

complete-other :
    (d : Json) (i : MasterInterventionRecord)
    → is_attempt (num_field d "attempt") (str_field d "phase") i ≡ false
    → complete d i ≡ i
unfolding complete
complete-other d i h = ground arith

-- A record with the key of one that fails a test for a key fails it too.
test_other :
    (a : ℕ) (p : String) (cur i : MasterInterventionRecord)
    → is_attempt a p cur ≡ false
    → is_attempt cur.attempt cur.phase i ≡ true
    → is_attempt a p i ≡ false
test_other a p cur i h k = ground (arith, is_attempt-key cur.attempt cur.phase i k)

-- What an update of one key's records does to the open attempt of another key.
update_other :
    (f : Json → MasterInterventionRecord → MasterInterventionRecord)
    → ((d : Json) (i : MasterInterventionRecord) → key_of (f d i) ≡ key_of i)
    → ((d : Json) (i : MasterInterventionRecord)
        → is_attempt (num_field d "attempt") (str_field d "phase") i ≡ false
        → f d i ≡ i)
    → (d : Json) (cur : MasterInterventionRecord) (is : List MasterInterventionRecord)
    → is_attempt (num_field d "attempt") (str_field d "phase") cur ≡ false
    → find (is_attempt cur.attempt cur.phase) is ≡ some cur
    → find (is_attempt cur.attempt cur.phase) (map (f d) is) ≡ some cur
update_other f k o d cur is h e =
    find-map_other (f d) cur.attempt cur.phase (λ i. ground (arith, k d i))
      (λ i q. o d i (test_other (num_field d "attempt") (str_field d "phase") cur i h q)) is
    ∙ e

resolution_selected-IsKeyed :
    (h : MasterHistory) (d : Json) → IsKeyed h → IsKeyed (resolution_selected h d)
unfolding resolution_selected
resolution_selected-IsKeyed h d k = record {
  distinct = rw (keys-map (select d) (select-key d) h.interventions) k.distinct;
  current = go h.in_progress k.current;
}
  where
    a : ℕ
    a = num_field d "attempt"

    p : String
    p = str_field d "phase"

    go :
        (o : Option MasterInterventionRecord)
        → ((i : MasterInterventionRecord)
            → o ≡ some i
            → find (is_attempt i.attempt i.phase) h.interventions ≡ some i)
        → (i : MasterInterventionRecord)
        → (if is_open_attempt a p o
            then find (is_attempt a p) (map (select d) h.interventions)
            else o)
          ≡ some i
        → find (is_attempt i.attempt i.phase) (map (select d) h.interventions) ≡ some i
    go none c i e = absurd (ground arith)
    go (some cur) c i e = elim (Bool-cases (is_attempt a p cur)) [
      | inl q ↦ found_again a p (map (select d) h.interventions) i (ground arith)
      | inr q ↦
          let s : cur ≡ i = ground arith in
          rw (sym s)
            (update_other select select-key select-other d cur h.interventions q (c cur refl))
    ]

intervention_completed-IsKeyed :
    (h : MasterHistory) (d : Json) → IsKeyed h → IsKeyed (intervention_completed h d)
unfolding intervention_completed
intervention_completed-IsKeyed h d k = record {
  distinct = rw (keys-map (complete d) (complete-key d) h.interventions) k.distinct;
  current = go h.in_progress k.current;
}
  where
    go :
        (o : Option MasterInterventionRecord)
        → ((i : MasterInterventionRecord)
            → o ≡ some i
            → find (is_attempt i.attempt i.phase) h.interventions ≡ some i)
        → (i : MasterInterventionRecord)
        → (if is_open_attempt (num_field d "attempt") (str_field d "phase") o then none else o)
          ≡ some i
        → find (is_attempt i.attempt i.phase) (map (complete d) h.interventions) ≡ some i
    go none c i e = absurd (ground arith)
    go (some cur) c i e =
        elim (Bool-cases (is_attempt (num_field d "attempt") (str_field d "phase") cur)) [
          | inl q ↦ absurd (ground arith)
          | inr q ↦
              let s : cur ≡ i = ground arith in
              rw (sym s) (
                update_other complete complete-key complete-other d cur h.interventions q
                  (c cur refl))
        ]

new_record-key :
    (d : Json)
    → key_of (new_record d)
      ≡ record { attempt = num_field d "attempt"; phase = str_field d "phase" }
unfolding new_record
new_record-key d = refl

started-IsKeyed : (h : MasterHistory) (d : Json) → IsKeyed h → IsKeyed (started h d)
unfolding started
started-IsKeyed h d k = go (find (is_attempt a p) h.interventions) refl
  where
    a : ℕ
    a = num_field d "attempt"

    p : String
    p = str_field d "phase"

    new_test : is_attempt a p (new_record d) ≡ true
    new_test = ground (arith, ===_refl p, new_record-key d)

    reopened-key :
        (i : MasterInterventionRecord)
        → find (is_attempt a p) h.interventions ≡ some i
        → key_of (reopen h.awaiting_human i) ≡ record { attempt = a; phase = p }
    reopened-key i e =
        unfold reopen in is_attempt-key a p i (find-is_attempt a p h.interventions i e)

    reopened_test :
        (i : MasterInterventionRecord)
        → find (is_attempt a p) h.interventions ≡ some i
        → is_attempt a p (reopen h.awaiting_human i) ≡ true
    reopened_test i e = unfold reopen in find-is_attempt a p h.interventions i e

    go :
        (o : Option MasterInterventionRecord)
        → find (is_attempt a p) h.interventions ≡ o
        → IsKeyed (open_record h d o)
    go none e =
        unfold open_record in
        record {
          distinct = rw (keys-append h.interventions (new_record d ∷ [])) (
              IsDistinct-snoc same_key same_key-sym (keys h.interventions) (key_of (new_record d))
                k.distinct (ground (arith, new_record-key d, any-keys a p h.interventions)));
          current = λ i q.
              found_again a p _ i (find-append a p h.interventions (new_record d) e new_test ∙ q);
        }
    go (some existing) e =
        unfold open_record in
        record {
          distinct =
              rw
                (keys-replace_first a p (reopen h.awaiting_human existing) h.interventions
                  (reopened-key existing e))
                k.distinct;
          current = λ i q. found_again a p _ i (
              find-replace_first a p h.interventions (reopen h.awaiting_human existing) existing e
                (reopened_test existing e)
              ∙ q);
        }

requested-IsKeyed : (h : MasterHistory) (d : Json) → IsKeyed h → IsKeyed (requested h d)
unfolding requested
requested-IsKeyed h d k = record {
  distinct = k.distinct;
  current = λ i q. k.current i (ground (arith, Bool-cases (is_decided h.in_progress)));
}

event-IsKeyed :
    (h : MasterHistory) (e : RecordedStreamEvent) → IsKeyed h → IsKeyed (fold_master_event h e)
unfolding fold_master_event span_started
event-IsKeyed h e k =
    if-keeps IsKeyed (e.event_type === "RunStarted") _ _
      (record { distinct = tt; current = λ i q. absurd (ground arith) })
      (if-keeps IsKeyed (e.event_type === "MasterTriageRequested") _ _
        (requested-IsKeyed h e.payload k)
        (if-keeps IsKeyed (e.event_type === "ComplexityPromoted") _ _
          (record { distinct = k.distinct; current = k.current })
          (if-keeps IsKeyed (e.event_type === "MasterInterventionStarted") _ _
            (started-IsKeyed h e.payload k)
            (if-keeps IsKeyed (e.event_type === "MasterHumanQuestionRequested") _ _
              (record { distinct = k.distinct; current = k.current })
              (if-keeps IsKeyed (e.event_type === "MasterResolutionSelected") _ _
                (resolution_selected-IsKeyed h e.payload k)
                (if-keeps IsKeyed (e.event_type === "MasterInterventionCompleted") _ _
                  (intervention_completed-IsKeyed h e.payload k)
                  (if-keeps IsKeyed (e.event_type === "DecisionPublished") _ _
                    (record { distinct = k.distinct; current = k.current }) k)))))))

-- Whatever was recorded, two interventions of a folded history differ in attempt number or phase,
-- and the open one is the record in the list with its number and phase.
pub fold_master_history-IsKeyed :
    (events : List RecordedStreamEvent) → IsKeyed (fold_master_history events)
unfolding fold_master_history
fold_master_history-IsKeyed events =
    foldl_inv IsKeyed fold_master_event event-IsKeyed events empty_master_history
      (record { distinct = tt; current = λ i q. absurd (ground arith) })
