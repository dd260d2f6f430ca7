-- ===== src/Master/History.antt =====
-- master/history.ts: the fold of an issue's raw stream into what a master session and the budget
-- need. The payloads are untrusted JSON, and names that the code only casts (a lane, a resolution)
-- stay strings.
pub mod Keys
pub mod Keyed
use ralph_autopilot.Common.{
  ℕ, String, Bool, true, false, not, ◌&&◌, ◌+◌, ◌==◌, ◌===◌, Option, none, some, List, [], ◌∷◌,
  ◌++◌, map, find, filter, foldl, includes, is_some, if◌then◌else◌,
}
use ralph_autopilot.Common.Json.{Json, obj, arr, Members, lookup, as_string, as_number}

-- The part of `RecordedStreamEvent` that the fold reads; `payload ?? {}` reads as no field.
pub record RecordedStreamEvent : Type 0 where
  pub event_type : String
  pub payload : Json

-- store/types.ts MASTER_REQUEST_SOURCES
abbrev master_request_sources : List String
master_request_sources =
    "escalate" ∷ "stuck" ∷ "review-maxed" ∷ "ci" ∷ "rebase" ∷ "merge" ∷ "hosted-review"
    ∷ "run-wedged" ∷ "session-failed" ∷ "anomaly" ∷ []

pub record PendingMasterRequest : Type 0 where
  pub run_id : String
  pub source : String
  pub phase : String
  pub lane : String
  pub signature : String
  pub headline : String
  pub recommendation : Option String
  pub pr_number : Option ℕ

pub record MasterInterventionRecord : Type 0 where
  pub run_id : String
  pub attempt : ℕ
  pub phase : String
  pub signature : String
  pub source : Option String
  pub lane : Option String
  pub headline : Option String
  pub resolution : Option String
  pub rationale : Option String
  pub conclusion : Option String
  pub outcome : Option Json
  pub completed : Bool
  pub human_resumes : ℕ

pub record AwaitingHuman : Type 0 where
  pub attempt : ℕ
  pub phase : String

-- `in_progress` is a reference into `interventions` in the code, and a copy here.
pub record MasterHistory : Type 0 where
  pub pending : Option PendingMasterRequest
  pub last_request : Option PendingMasterRequest
  pub in_progress : Option MasterInterventionRecord
  pub interventions : List MasterInterventionRecord
  pub awaiting_human : Option AwaitingHuman
  pub promoted : Bool
  pub published_decision_ids : List String

abbrev pub empty_master_history : MasterHistory
empty_master_history = record {
  pending = none;
  last_request = none;
  in_progress = none;
  interventions = [];
  awaiting_human = none;
  promoted = false;
  published_decision_ids = [];
}

abbrev pub field : Json → String → Option Json
unfolding lookup
field (obj ms) k = lookup k ms
field _ k = none

abbrev or_else {ℓ} : {A : Type ℓ} → A → Option A → A
or_else d none = d
or_else d (some a) = a

-- The helpers `str` and `num`.
unfoldable pub str_field : Json → String → String
str_field payload k = or_else "" (as_string (field payload k))

unfoldable pub num_field : Json → String → ℕ
num_field payload k = or_else 0 (as_number (field payload k))

-- The value of `source` where `isMasterRequestSource` holds of it.
source_of : Option String → Option String
source_of none = none
source_of (some s) = if includes master_request_sources s then some s else none

-- `typeof v === "object" && v !== null`
as_object : Option Json → Option Json
as_object (some (obj ms)) = some (obj ms)
as_object (some (arr xs)) = some (arr xs)
as_object _ = none

-- `a || b` on strings.
abbrev or_string : String → String → String
or_string a b = if a === "" then b else a

abbrev pub is_attempt : ℕ → String → MasterInterventionRecord → Bool
is_attempt attempt phase i = (i.attempt == attempt) && (i.phase === phase)

pending_request : Json → PendingMasterRequest
unfolding source_of str_field
pending_request payload = record {
  run_id = str_field payload "runId";
  source = or_else "escalate" (source_of (as_string (field payload "source")));
  phase = str_field payload "phase";
  lane = or_string (str_field payload "lane") "impl";
  signature = str_field payload "signature";
  headline = str_field payload "headline";
  recommendation = as_string (field payload "recommendation");
  pr_number = as_number (field payload "prNumber");
}

-- `history.inProgress?.resolution` is truthy: there is one, and it is not empty.
is_decided : Option MasterInterventionRecord → Bool
is_decided none = false
is_decided (some i) = elim i.resolution [ none ↦ false | some r ↦ not (r === "") ]

requested : MasterHistory → Json → MasterHistory
unfolding is_decided pending_request
requested h payload = record h {
  pending = some (pending_request payload);
  last_request = some (pending_request payload);
  in_progress = if is_decided h.in_progress then none else h.in_progress;
}

-- One more resume where the outstanding question is that of this attempt number.
resumes_of : Option AwaitingHuman → ℕ → ℕ
resumes_of none attempt = 0
resumes_of (some w) attempt = if w.attempt == attempt then 1 else 0

reopen : Option AwaitingHuman → MasterInterventionRecord → MasterInterventionRecord
unfolding resumes_of
reopen waiting i = record i {
  resolution = none;
  rationale = none;
  conclusion = none;
  outcome = none;
  completed = false;
  human_resumes = i.human_resumes + resumes_of waiting i.attempt;
}

new_record : Json → MasterInterventionRecord
unfolding source_of str_field num_field
new_record payload = record {
  run_id = str_field payload "runId";
  attempt = num_field payload "attempt";
  phase = str_field payload "phase";
  signature = str_field payload "signature";
  source = source_of (as_string (field payload "source"));
  lane = as_string (field payload "lane");
  headline = as_string (field payload "headline");
  resolution = none;
  rationale = none;
  conclusion = none;
  outcome = none;
  completed = false;
  human_resumes = 0;
}

-- The first record that passes is replaced: `existing` is what `find` returned, and
-- `i === existing` is identity.
pub replace_first :
    (MasterInterventionRecord → Bool)
    → MasterInterventionRecord
    → List MasterInterventionRecord
    → List MasterInterventionRecord
replace_first p r [] = []
replace_first p r (i ∷ is) = let rest = replace_first p r is in if p i then r ∷ is else i ∷ rest

open_record : MasterHistory → Json → Option MasterInterventionRecord → MasterHistory
unfolding reopen new_record replace_first str_field num_field
open_record h payload (some existing) =
    let reopened = reopen h.awaiting_human existing in
    record h {
      interventions =
          replace_first (is_attempt (num_field payload "attempt") (str_field payload "phase"))
            reopened h.interventions;
      in_progress = some reopened;
      awaiting_human = none;
      pending = none;
    }
open_record h payload none = record h {
  interventions = h.interventions ++ new_record payload ∷ [];
  in_progress = some (new_record payload);
  awaiting_human = none;
  pending = none;
}

started : MasterHistory → Json → MasterHistory
unfolding open_record str_field num_field
started h payload =
    open_record h payload
      (find (is_attempt (num_field payload "attempt") (str_field payload "phase")) h.interventions)

abbrev is_open_attempt : ℕ → String → Option MasterInterventionRecord → Bool
is_open_attempt attempt phase none = false
is_open_attempt attempt phase (some i) = is_attempt attempt phase i

select : Json → MasterInterventionRecord → MasterInterventionRecord
unfolding str_field num_field as_object
select payload i =
    if is_attempt (num_field payload "attempt") (str_field payload "phase") i
    then (record i {
      resolution = some (str_field payload "resolution");
      rationale = some (str_field payload "rationale");
      conclusion = as_string (field payload "conclusion");
      outcome = as_object (field payload "outcome");
    })
    else i

resolution_selected : MasterHistory → Json → MasterHistory
unfolding select str_field num_field
resolution_selected h payload =
    let same = is_attempt (num_field payload "attempt") (str_field payload "phase") in
    let updated = map (select payload) h.interventions in
    record h {
      interventions = updated;
      in_progress =
          if is_open_attempt (num_field payload "attempt") (str_field payload "phase") h.in_progress
          then find same updated
          else h.in_progress;
    }

-- `str(payload, "resolution") || i.resolution`
chosen_or : String → Option String → Option String
chosen_or r kept = if r === "" then kept else some r

complete : Json → MasterInterventionRecord → MasterInterventionRecord
unfolding str_field num_field chosen_or
complete payload i =
    if is_attempt (num_field payload "attempt") (str_field payload "phase") i
    then (record i {
      completed = true;
      resolution = chosen_or (str_field payload "resolution") i.resolution;
    })
    else i

intervention_completed : MasterHistory → Json → MasterHistory
unfolding complete str_field num_field
intervention_completed h payload = record h {
  interventions = map (complete payload) h.interventions;
  in_progress =
      if is_open_attempt (num_field payload "attempt") (str_field payload "phase") h.in_progress
      then none
      else h.in_progress;
}

-- A fresh span; the promotion and the published decisions stay.
span_started : MasterHistory → MasterHistory
span_started h = record h {
  pending = none;
  last_request = none;
  in_progress = none;
  interventions = [];
  awaiting_human = none;
}

pub fold_master_event : MasterHistory → RecordedStreamEvent → MasterHistory
unfolding span_started requested started str_field num_field resolution_selected
    intervention_completed
fold_master_event h e =
    if e.event_type === "RunStarted"
    then span_started h
    else if e.event_type === "MasterTriageRequested"
    then requested h e.payload
    else if e.event_type === "ComplexityPromoted"
    then (record h { promoted = true })
    else if e.event_type === "MasterInterventionStarted"
    then started h e.payload
    else if e.event_type === "MasterHumanQuestionRequested"
    then (record h {
      awaiting_human =
          some (record {
            attempt = num_field e.payload "attempt";
            phase = str_field e.payload "phase";
          });
    })
    else if e.event_type === "MasterResolutionSelected"
    then resolution_selected h e.payload
    else if e.event_type === "MasterInterventionCompleted"
    then intervention_completed h e.payload
    else if e.event_type === "DecisionPublished"
    then (record h {
      published_decision_ids = h.published_decision_ids ++ str_field e.payload "decisionId" ∷ [];
    })
    else h

unfoldable pub fold_master_history : List RecordedStreamEvent → MasterHistory
unfolding fold_master_event
fold_master_history events = foldl fold_master_event empty_master_history events

unfoldable pub interventions_in_phase : MasterHistory → String → List MasterInterventionRecord
interventions_in_phase h phase = filter (λ i. i.phase === phase) h.interventions
