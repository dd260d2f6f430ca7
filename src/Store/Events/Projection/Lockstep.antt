-- ===== src/Store/Events/Projection/Lockstep.antt =====
-- The materialised read model against the log: after any appends, to any streams in any order.
use ralph_autopilot.Common.{
  ℕ, ◌+◌, ◌≡◌, refl, ap, ◌∙◌, sym, String, false, Option, none, some, List, [], ◌∷◌, ◌++◌,
  append_assoc, append-nil, length, length-append, subst, arith, inl, inr, Text, text_eq,
  text_eq_iff, text_eq_refl, Bool-cases, if◌then◌else◌,
}
use mathlib.Core.List.{foldl-append}
use ralph_autopilot.Store.Events.EventTypes.{IssueEvent}
use ralph_autopilot.Store.Events.Streams.{IssueStreamRef, parse_issue_stream_id}
use ralph_autopilot.Store.Events.Decider.{IssueState, initial_issue_state}
use ralph_autopilot.Store.Events.Projection.{
  ProjectionTable, IssueProjectionRowRaw, fold_issue_state, projection_upsert_params,
  decode_projection_state, merge_row, upsert, position_of, handle,
}
use ralph_autopilot.Store.Events.Projection.Columns.{decode-projection_upsert_params}

-- One append: the stream, the events and the clock's reading.
pub record Append : Type 0 where
  pub stream : Text
  pub events : List IssueEvent
  pub now : String

abbrev pub empty_table : ProjectionTable
empty_table stream_id = none

pub materialise : ProjectionTable → List Append → ProjectionTable
materialise table [] = table
materialise table (a ∷ later) = materialise (handle a.now table a.stream a.events) later

-- The log of one stream, in append order.
pub log_of : Text → List Append → List IssueEvent
log_of k [] = []
log_of k (a ∷ later) =
    let rest = log_of k later in if text_eq a.stream k then a.events ++ rest else rest

fold-append :
    (xs ys : List IssueEvent) (s : IssueState)
    → fold_issue_state (xs ++ ys) s ≡ fold_issue_state ys (fold_issue_state xs s)
unfolding fold_issue_state
fold-append xs ys s = foldl-append _ s xs ys

-- A row that reflects a list of events.
abbrev Reflects : Option IssueProjectionRowRaw → List IssueEvent → Type 0
Reflects row es =
    (decode_projection_state row ≡ fold_issue_state es initial_issue_state)
    × (position_of row ≡ length es)

merged_state :
    (old : Option IssueProjectionRowRaw) (row : IssueProjectionRowRaw)
    → (decode_projection_state (some (merge_row old row)) ≡ decode_projection_state (some row))
      × (position_of (some (merge_row old row)) ≡ row.stream_position)
unfolding merge_row decode_projection_state position_of
merged_state none row = (refl, refl)
merged_state (some old) row = (refl, refl)

stream_id-projection_upsert_params :
    (k : Text) (ref : IssueStreamRef) (t : IssueState) (position : ℕ) (now : String)
    → (projection_upsert_params k ref t position now).stream_id ≡ k
unfolding projection_upsert_params
stream_id-projection_upsert_params k ref t position now = refl

module _ (table : ProjectionTable) (row : IssueProjectionRowRaw) (k : Text) where
  upsert_self : row.stream_id ≡ k → upsert table row k ≡ some (merge_row (table k) row)
  unfolding upsert
  upsert_self e = rw (e, text_eq_refl k)

  upsert_ne :
      (stream : Text)
      → row.stream_id ≡ stream
      → text_eq stream k ≡ false
      → upsert table row k ≡ table k
  unfolding upsert
  upsert_ne stream e h = rw (e, h)

handle_issue_stream :
    (now : String) (table : ProjectionTable) (stream : Text) (ref : IssueStreamRef) (e : IssueEvent)
    (es : List IssueEvent)
    → parse_issue_stream_id stream ≡ some ref
    → handle now table stream (e ∷ es)
      ≡ upsert table (
          projection_upsert_params stream ref
            (fold_issue_state (e ∷ es) (decode_projection_state (table stream)))
            (position_of (table stream) + length (e ∷ es))
            now)
unfolding handle
handle_issue_stream now table stream ref e es p = rw (p, handle)

handle_other_stream :
    (now : String) (table : ProjectionTable) (stream : Text) (es : List IssueEvent)
    → parse_issue_stream_id stream ≡ none
    → handle now table stream es ≡ table
unfolding handle
handle_other_stream now table stream [] p = refl
handle_other_stream now table stream (e ∷ es) p = rw (p, handle)

-- The row of the stream that is appended to, and that of any other.
handle_self :
    (now : String) (table : ProjectionTable) (k : Text) (ref : IssueStreamRef)
    (before batch : List IssueEvent)
    → parse_issue_stream_id k ≡ some ref
    → Reflects (table k) before
    → Reflects (handle now table k batch k) (before ++ batch)
unfolding projection_upsert_params
handle_self now table k ref before [] p h = rw append-nil (unfold handle in h)
handle_self now table k ref before (e ∷ es) p h =
    rw
      (
        handle_issue_stream now table k ref e es p,
        upsert_self table row k (stream_id-projection_upsert_params k ref next position now),
      )
      (
        merged.0
            ∙ decode-projection_upsert_params k ref next position now
            ∙ ap (fold_issue_state (e ∷ es)) h.0
            ∙ sym (fold-append before (e ∷ es) initial_issue_state),
        merged.1 ∙ omega (arith, h.1, length-append before (e ∷ es)),
      )
  where
    next : IssueState
    next = fold_issue_state (e ∷ es) (decode_projection_state (table k))

    position : ℕ
    position = position_of (table k) + length (e ∷ es)

    row : IssueProjectionRowRaw
    row = projection_upsert_params k ref next position now

    merged :
        (decode_projection_state (some (merge_row (table k) row))
          ≡ decode_projection_state (some row))
        × (position_of (some (merge_row (table k) row)) ≡ row.stream_position)
    merged = merged_state (table k) row

handle_ne :
    (now : String) (table : ProjectionTable) (stream k : Text) (batch : List IssueEvent)
    → text_eq stream k ≡ false
    → handle now table stream batch k ≡ table k
handle_ne now table stream k [] h = unfold handle in refl
handle_ne now table stream k (e ∷ es) h = go (parse_issue_stream_id stream) refl
  where
    go :
        (r : Option IssueStreamRef)
        → parse_issue_stream_id stream ≡ r
        → handle now table stream (e ∷ es) k ≡ table k
    go none p = rw (handle_other_stream now table stream (e ∷ es) p)
    go (some ref) p =
        rw (handle_issue_stream now table stream ref e es p)
          (upsert_ne table _ k stream (stream_id-projection_upsert_params stream ref _ _ now) h)

materialise-Reflects :
    (k : Text) (ref : IssueStreamRef) (appends : List Append) (table : ProjectionTable)
    (before : List IssueEvent)
    → parse_issue_stream_id k ≡ some ref
    → Reflects (table k) before
    → Reflects (materialise table appends k) (before ++ log_of k appends)
unfolding materialise log_of
materialise-Reflects k ref [] table before p h = rw append-nil h
materialise-Reflects k ref (a ∷ later) table before p h = elim (Bool-cases (text_eq a.stream k)) [
  | inl e ↦
      rw (e, ← append_assoc)
        (materialise-Reflects k ref later _ (before ++ a.events) p (
          subst (λ (s : Text). Reflects (handle a.now table s a.events k) (before ++ a.events))
            (sym ((text_eq_iff a.stream k).0 e))
            (handle_self a.now table k ref before a.events p h)))
  | inr e ↦ rw e (
      materialise-Reflects k ref later (handle a.now table a.stream a.events) before p
        (rw (handle_ne a.now table a.stream k a.events e) h))
]

-- After any sequence of appends to any streams, from an empty table, the row of every stream that
-- is an issue stream decodes to the fold of that stream's whole log from the initial state, and
-- its position is the number of events of the log: the read model never lags behind or diverges.
pub materialise-fold_issue_state :
    (k : Text) (ref : IssueStreamRef) (appends : List Append)
    → parse_issue_stream_id k ≡ some ref
    → (decode_projection_state (materialise empty_table appends k)
        ≡ fold_issue_state (log_of k appends) initial_issue_state)
      × (position_of (materialise empty_table appends k) ≡ length (log_of k appends))
unfolding materialise log_of
materialise-fold_issue_state k ref appends p =
    materialise-Reflects k ref appends empty_table [] p
      (unfold decode_projection_state fold_issue_state position_of in (refl, refl))
