-- ===== src/Notify/Quiet.antt =====
-- notify/decide.ts: which requests a batch may lead to.
use ralph_autopilot.Common.{
  ◌≡◌, Bool, true, false, not, ◌&&◌, Option, none, some, Option-cases, Bool-cases, inl, inr, List,
  [], ◌∷◌, All, Text, arith, ◌===◌, String,
}
use ralph_autopilot.Store.Events.Streams.{IssueStreamRef, parse_issue_stream_id}
use ralph_autopilot.Notify.{
  LogEventType, escalated, review_maxed, run_stuck, anomaly_detected, master_stuck,
  master_triage_requested, question_answered, other_type, RecordedLogEvent, NotificationKind,
  anomaly, NotificationRequest, BatchFacts, batch_facts, is_anomaly_type, is_triage_type, issues_of,
  issue_key, mem, plan_by_type, plan_ref, plan_notification, decide_loop, decide_notifications,
  build_escalated, field, request_key,
}

abbrev is_anomaly_kind : NotificationKind → Bool
is_anomaly_kind anomaly = true
is_anomaly_kind _ = false

abbrev key_of_request : NotificationRequest → Text
key_of_request r = issue_key r.repo r.issue_number

-- No request for an issue that is queued for the master, and none but the anomaly's for an issue
-- with an anomaly.
abbrev pub IsQuiet : List Text → List Text → NotificationRequest → Type 0
IsQuiet triaged anomalous r =
    (mem (key_of_request r) triaged ≡ false)
    × ((mem (key_of_request r) anomalous && not (is_anomaly_kind r.kind)) ≡ false)

build_escalated-key :
    (o : Option String) (e : RecordedLogEvent) (at : Text) (ref : IssueStreamRef)
    (r : NotificationRequest)
    → build_escalated o e at ref ≡ some r
    → key_of_request r ≡ issue_key ref.repo ref.issue_number
build_escalated-key none e at ref r h = cc
build_escalated-key (some kind) e at ref r h = elim (Bool-cases (kind === "escalate")) [
  | inl k ↦ let h' = rw k at h in ground arith
  | inr k ↦ elim (Bool-cases (kind === "heal-card")) [
    | inl l ↦ let h' = rw (k, l) at h in ground arith
    | inr l ↦ absurd (let h' = rw (k, l) at h in ground arith)
  ]
]

plan_by_type-key :
    (t : LogEventType) (e : RecordedLogEvent) (at : Text) (facts : BatchFacts)
    (ref : IssueStreamRef) (r : NotificationRequest)
    → plan_by_type t e at facts ref ≡ some r
    → (key_of_request r ≡ issue_key ref.repo ref.issue_number)
      × (is_anomaly_type t ≡ true → is_anomaly_kind r.kind ≡ true)
plan_by_type-key escalated e at facts ref r h =
    (build_escalated-key (field e.data_of "kind") e at ref r (ground arith), λ k. cc)
plan_by_type-key review_maxed e at facts ref r h = (ground arith, λ k. cc)
plan_by_type-key run_stuck e at facts ref r h = (ground arith, λ k. cc)
plan_by_type-key anomaly_detected e at facts ref r h = (ground arith, λ k. ground arith)
plan_by_type-key master_stuck e at facts ref r h = (ground arith, λ k. cc)
plan_by_type-key master_triage_requested e at facts ref r h = absurd (ground arith)
plan_by_type-key question_answered e at facts ref r h = absurd (ground arith)
plan_by_type-key other_type e at facts ref r h = absurd (ground arith)

plan_ref-IsQuiet :
    (o : Option IssueStreamRef) (e : RecordedLogEvent) (at : Text) (facts : BatchFacts)
    (r : NotificationRequest)
    → plan_ref o e at facts ≡ some r
    → IsQuiet facts.master_triage_issues facts.anomaly_issues r
plan_ref-IsQuiet none e at facts r h = cc
plan_ref-IsQuiet (some ref) e at facts r h =
    let k = issue_key ref.repo ref.issue_number in
    elim (Bool-cases (mem k facts.master_triage_issues)) [
      | inl t ↦ absurd (let h' = rw t at h in ground arith)
      | inr t ↦ elim (Bool-cases (not (is_anomaly_type e.type) && mem k facts.anomaly_issues)) [
        | inl a ↦ absurd (let h' = rw (t, a) at h in ground arith)
        | inr a ↦
            let (same, kind) = plan_by_type-key e.type e at facts ref r (rw (t, a) at h) in
            (rw same t, rw same (ground (arith, kind)))
      ]
    ]

decide_loop-IsQuiet :
    (at : Text) (facts : BatchFacts) (seen : List Text) (es : List RecordedLogEvent)
    → All (IsQuiet facts.master_triage_issues facts.anomaly_issues) (decide_loop at facts seen es)
unfolding decide_loop plan_notification
decide_loop-IsQuiet at facts seen [] = tt
decide_loop-IsQuiet at facts seen (e ∷ es) = elim (Option-cases (plan_notification e at facts)) [
  | inl n ↦ rw (n, decide_loop) (decide_loop-IsQuiet at facts seen es)
  | inr (r, s) ↦ elim (Bool-cases (mem (request_key r) seen)) [
    | inl k ↦ rw (s, k, decide_loop) (decide_loop-IsQuiet at facts seen es)
    | inr k ↦
        rw (s, k, decide_loop)
          (
            plan_ref-IsQuiet (parse_issue_stream_id e.stream_id) e at facts r s,
            decide_loop-IsQuiet at facts (request_key r ∷ seen) es,
          )
  ]
]

-- A batch pages nobody for an issue that one of its events queues for the master, and for an issue
-- with an anomaly it pages for the anomaly alone.
pub decide_notifications-IsQuiet :
    (events : List RecordedLogEvent) (at : Text)
    → All
        (IsQuiet (issues_of is_triage_type events) (issues_of is_anomaly_type events))
        (decide_notifications events at)
unfolding decide_notifications batch_facts
decide_notifications-IsQuiet events at = decide_loop-IsQuiet at (batch_facts events) [] events
