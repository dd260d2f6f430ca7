-- ===== src/Notify.antt =====
-- notify/decide.ts: which events of a committed batch page the operator. The sets of the code are
-- lists, and `at` is the instant that is stamped on every request.
pub mod Quiet
pub mod Once
use ralph_autopilot.Common.{
  ℕ, Bool, true, false, not, ◌&&◌, ◌||◌, ◌==◌, ◌===◌, String, Option, none, some, List, [], ◌∷◌,
  ◌++◌, any, Text, text_eq, codes, if◌then◌else◌,
}
use ralph_autopilot.Common.Decimal.{decimal}
use ralph_autopilot.Common.Lines.{trim}
use ralph_autopilot.Common.Json.{Json, obj, null, num, lookup, as_string, as_number}
use ralph_autopilot.Store.Events.Streams.{IssueStreamRef, parse_issue_stream_id}

-- The types that the decision tells apart.
pub data LogEventType : Type 0 where
  escalated review_maxed run_stuck anomaly_detected master_stuck master_triage_requested
        question_answered other_type :
      LogEventType

pub record RecordedLogEvent : Type 0 where
  pub global_position : ℕ
  pub stream_id : Text
  pub type : LogEventType
  pub data_of : Json

pub data NotificationKind : Type 0 where
  escalation heal stuck anomaly stall : NotificationKind

pub data NotificationSeverity : Type 0 where
  default_severity high_severity max_severity : NotificationSeverity

pub record NotificationRequest : Type 0 where
  pub kind : NotificationKind
  pub severity : NotificationSeverity
  pub title : Text
  pub message : Text
  pub repo : Text
  pub issue_number : ℕ
  pub at : Text

abbrev severity_of : NotificationKind → NotificationSeverity
severity_of anomaly = max_severity
severity_of stall = max_severity
severity_of _ = high_severity

abbrev kind_name : NotificationKind → Text
kind_name escalation = codes "escalation"
kind_name heal = codes "heal"
kind_name stuck = codes "stuck"
kind_name anomaly = codes "anomaly"
kind_name stall = codes "stall"

-- `data[key]`, where the payload is an object.
unfoldable pub get_member : Json → String → Option Json
get_member (obj ms) key = lookup key ms
get_member _ key = none

pub field : Json → String → Option String
unfolding get_member
field payload key = as_string (get_member payload key)

pub number_field : Json → String → Option ℕ
unfolding get_member
number_field payload key = as_number (get_member payload key)

abbrev codes_or_empty : Option String → Text
codes_or_empty none = []
codes_or_empty (some s) = codes s

pub text_of : Json → String → Text
unfolding field trim
text_of payload key = trim (codes_or_empty (field payload key))

-- Absent, `null`, or a number.
abbrev id_of_member : Option Json → Option (Option ℕ)
id_of_member (some null) = some none
id_of_member (some (num n)) = some (some n)
id_of_member _ = none

unfoldable pub comment_id : Json → Option (Option ℕ)
unfolding get_member
comment_id payload = id_of_member (get_member payload "commentId")

abbrev pub issue_key : Text → ℕ → Text
issue_key repo number = repo ++ b'#' ∷ decimal number

abbrev comment_key : Text → ℕ → Text
comment_key stream_id id = stream_id ++ b'#' ∷ decimal id

abbrev pub mem : Text → List Text → Bool
mem k ks = any (λ j. text_eq k j) ks

abbrev mem_position : ℕ → List ℕ → Bool
mem_position n ns = any (λ m. n == m) ns

-- The issues of the events of one type.
abbrev key_of_ref : Option IssueStreamRef → List Text
key_of_ref none = []
key_of_ref (some ref) = issue_key ref.repo ref.issue_number ∷ []

abbrev pub is_anomaly_type : LogEventType → Bool
is_anomaly_type anomaly_detected = true
is_anomaly_type _ = false

abbrev pub is_triage_type : LogEventType → Bool
is_triage_type master_triage_requested = true
is_triage_type _ = false

pub issues_of : (LogEventType → Bool) → List RecordedLogEvent → List Text
unfolding parse_issue_stream_id
issues_of p [] = []
issues_of p (e ∷ es) =
    let rest = issues_of p es in
    if p e.type then key_of_ref (parse_issue_stream_id e.stream_id) ++ rest else rest

-- The walk from the end of the batch.
pub record Answered : Type 0 where
  pub escalations : List ℕ
  pub maxed : List ℕ
  pub all_streams : List Text
  pub by_comment : List Text
  pub any_streams : List Text

abbrev note_answer : Text → Option (Option ℕ) → Answered → Answered
note_answer id (some (some n)) a = record a {
  any_streams = id ∷ a.any_streams;
  by_comment = comment_key id n ∷ a.by_comment;
}
note_answer id _ a = record a { any_streams = id ∷ a.any_streams; all_streams = id ∷ a.all_streams }

abbrev comment_answered : Text → Option (Option ℕ) → Answered → Bool
comment_answered id (some (some n)) a = mem (comment_key id n) a.by_comment
comment_answered id _ a = false

abbrev walk_event : LogEventType → RecordedLogEvent → Answered → Answered
walk_event question_answered e a = note_answer e.stream_id (comment_id e.data_of) a
walk_event review_maxed e a =
    if mem e.stream_id a.any_streams then record a { maxed = e.global_position ∷ a.maxed } else a
walk_event escalated e a =
    if mem e.stream_id a.all_streams || comment_answered e.stream_id (comment_id e.data_of) a
    then record a { escalations = e.global_position ∷ a.escalations }
    else a
walk_event _ e a = a

abbrev if_issue : Option IssueStreamRef → Answered → Answered → Answered
if_issue none a b = a
if_issue (some ref) a b = b

unfoldable pub walk_back : List RecordedLogEvent → Answered
unfolding comment_id parse_issue_stream_id
walk_back [] = record {
  escalations = [];
  maxed = [];
  all_streams = [];
  by_comment = [];
  any_streams = [];
}
walk_back (e ∷ es) =
    let a = walk_back es in if_issue (parse_issue_stream_id e.stream_id) a (walk_event e.type e a)

pub record BatchFacts : Type 0 where
  pub answered_escalations : List ℕ
  pub answered_review_maxed : List ℕ
  pub anomaly_issues : List Text
  pub master_triage_issues : List Text

pub batch_facts : List RecordedLogEvent → BatchFacts
unfolding issues_of walk_back
batch_facts events = record {
  answered_escalations = (walk_back events).escalations;
  answered_review_maxed = (walk_back events).maxed;
  anomaly_issues = issues_of is_anomaly_type events;
  master_triage_issues = issues_of is_triage_type events;
}

abbrev or_title : Text → Text → Text
or_title [] title = title
or_title (c ∷ body) title = c ∷ body

abbrev pub build : NotificationKind → IssueStreamRef → Text → Text → Text → NotificationRequest
build kind ref at title body = record {
  kind = kind;
  severity = severity_of kind;
  title = title;
  message = or_title body title;
  repo = ref.repo;
  issue_number = ref.issue_number;
  at = at;
}

abbrev titled : String → IssueStreamRef → Text
titled words ref = codes words ++ issue_key ref.repo ref.issue_number

abbrev phase_suffix : Option ℕ → Text
phase_suffix none = []
phase_suffix (some n) = codes " (phase " ++ (decimal n ++ codes ")")

abbrev build_escalated :
    Option String → RecordedLogEvent → Text → IssueStreamRef → Option NotificationRequest
build_escalated none e at ref = none
build_escalated (some kind) e at ref =
    if kind === "escalate"
    then some (build escalation ref at (titled "Escalation on " ref) (text_of e.data_of "headline"))
    else if kind === "heal-card"
    then some (build heal ref at (titled "Heal card on " ref) (text_of e.data_of "headline"))
    else none

-- The `switch`.
abbrev pub plan_by_type :
    LogEventType
    → RecordedLogEvent
    → Text
    → BatchFacts
    → IssueStreamRef
    → Option NotificationRequest
plan_by_type escalated e at facts ref =
    if mem_position e.global_position facts.answered_escalations
    then none
    else build_escalated (field e.data_of "kind") e at ref
plan_by_type review_maxed e at facts ref =
    if mem_position e.global_position facts.answered_review_maxed
    then none
    else some (
        build heal ref at (titled "Review maxed on " ref) (
          codes "Review phase exhausted its fix attempts"
          ++ (phase_suffix (number_field e.data_of "phase") ++ codes ".")))
plan_by_type run_stuck e at facts ref =
    some (build stuck ref at (titled "Agent stuck on " ref) (text_of e.data_of "reason"))
plan_by_type anomaly_detected e at facts ref =
    some (build anomaly ref at (titled "Daemon anomaly on " ref) (text_of e.data_of "reason"))
plan_by_type master_stuck e at facts ref =
    some (build stuck ref at (titled "Master concluded stuck on " ref) (text_of e.data_of "reason"))
plan_by_type _ e at facts ref = none

abbrev pub plan_ref :
    Option IssueStreamRef → RecordedLogEvent → Text → BatchFacts → Option NotificationRequest
plan_ref none e at facts = none
plan_ref (some ref) e at facts =
    if mem (issue_key ref.repo ref.issue_number) facts.master_triage_issues
    then none
    else if not (is_anomaly_type e.type)
        && mem (issue_key ref.repo ref.issue_number) facts.anomaly_issues
    then none
    else plan_by_type e.type e at facts ref

pub plan_notification : RecordedLogEvent → Text → BatchFacts → Option NotificationRequest
unfolding field text_of number_field parse_issue_stream_id
plan_notification e at facts = plan_ref (parse_issue_stream_id e.stream_id) e at facts

-- `repo#issue#kind`
abbrev pub request_key : NotificationRequest → Text
request_key r = issue_key r.repo r.issue_number ++ b'#' ∷ kind_name r.kind

-- The rest of the batch, given the keys that were seen.
pub decide_loop : Text → BatchFacts → List Text → List RecordedLogEvent → List NotificationRequest
unfolding plan_notification
decide_loop at facts seen [] = []
decide_loop at facts seen (e ∷ es) = elim (plan_notification e at facts) [
  | none ↦ decide_loop at facts seen es
  | some r ↦ elim (mem (request_key r) seen) [
    | true ↦ decide_loop at facts seen es
    | false ↦ r ∷ decide_loop at facts (request_key r ∷ seen) es
  ]
]

pub decide_notifications : List RecordedLogEvent → Text → List NotificationRequest
unfolding batch_facts decide_loop
decide_notifications events at = decide_loop at (batch_facts events) [] events
