-- ===== src/Examples/Notify.antt =====
-- Runs of notify/decide.ts.
use ralph_autopilot.Common.{◌≡◌, ◌===◌, refl, ℕ, List, [], ◌∷◌, All, codes, Text, text_eq}
use ralph_autopilot.Common.Distinct.{IsDistinct}
use ralph_autopilot.Common.Decimal.{decimal}
use ralph_autopilot.Common.Json.{Json, obj, member, end, str, num, lookup}
use ralph_autopilot.Store.Events.Streams.{parse_issue_stream_id}
use ralph_autopilot.Notify.{
  LogEventType, RecordedLogEvent, is_anomaly_type, is_triage_type, issues_of, walk_back,
  batch_facts, get_member, comment_id, plan_notification, decide_notifications,
}
use ralph_autopilot.Notify.Quiet.{IsQuiet, decide_notifications-IsQuiet}
use ralph_autopilot.Notify.Once.{same_request, IsCovered, decide_notifications-IsCovered}

abbrev event : ℕ → Text → LogEventType → Json → RecordedLogEvent
event n id type payload = record {
  global_position = n;
  stream_id = id;
  type = type;
  data_of = payload;
}

abbrev asked : Json
asked = obj (member "kind" (str "escalate") (member "commentId" (num 5) end))

-- Issue 7 is stuck with an anomaly, twice; of the questions of issue 8 one is answered, and issue 9
-- goes to the master.
abbrev batch : List RecordedLogEvent
batch =
    event 1 (codes "acme/app#7") LogEventType.run_stuck (obj end)
    ∷ event 2 (codes "acme/app#7") LogEventType.anomaly_detected (obj end)
    ∷ event 3 (codes "acme/app#7") LogEventType.anomaly_detected (obj end)
    ∷ event 4 (codes "acme/app#8") LogEventType.escalated asked
    ∷ event 5 (codes "acme/app#8") LogEventType.question_answered
        (obj (member "commentId" (num 5) end))
    ∷ event 6 (codes "acme/app#8") LogEventType.escalated asked
    ∷ event 7 (codes "acme/app#9") LogEventType.review_maxed (obj end)
    ∷ event 8 (codes "acme/app#9") LogEventType.master_triage_requested (obj end)
    ∷ event 9 (codes "$system") LogEventType.master_stuck (obj end)
    ∷ []

-- A question that is answered later in the batch pages nobody; one behind the answer does.
answered_run :
    let answers = walk_back (
      event 4 (codes "a/b#8") LogEventType.escalated asked
      ∷ event 5
          (codes "a/b#8")
          LogEventType.question_answered
          (obj (member "commentId" (num 5) end))
      ∷ event 6 (codes "a/b#8") LogEventType.escalated asked
      ∷ []) in
    answers.escalations ≡ 4 ∷ []
unfolding walk_back comment_id get_member lookup parse_issue_stream_id text_eq decimal ◌===◌
answered_run = refl

quiet_example :
    All
      (IsQuiet (issues_of is_triage_type batch) (issues_of is_anomaly_type batch))
      (decide_notifications batch [])
quiet_example = decide_notifications-IsQuiet batch []

covered_example :
    IsDistinct same_request (decide_notifications batch [])
    × All
        (λ e.
          IsCovered (plan_notification e [] (batch_facts batch)) (decide_notifications batch []))
        batch
covered_example = decide_notifications-IsCovered batch []
