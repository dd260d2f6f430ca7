-- ===== src/Store/Events/Projection.antt =====
-- store/events/projection.ts: the fold of a batch of events, the columns of the read model's row
-- and their decode; and `createIssueProjection` of store/event-log.ts, which materialises a batch
-- in the transaction that appends it.
--
-- A JSON text column is represented by what `JSON.parse` makes of it: `none` is a text that it
-- throws on. The status column is cast, not parsed, so it holds the status itself.
pub mod Span
pub mod Status
pub mod Columns
pub mod Lockstep
use ralph_autopilot.Common.{
  ℕ, zero, ◌+◌, String, Bool, true, false, not, Option, none, some, List, [], ◌∷◌, foldl, length,
  Text, text_eq, ◌==◌, ◌===◌, if◌then◌else◌,
}
use ralph_autopilot.Common.Json.{
  Json, Items, Members, num, str, arr, obj, nil, item, end, member, lookup, as_string, as_number,
}
use ralph_autopilot.Store.Types.{
  ProviderName, claude, openai, zai, provider_name, PhaseRoute, Phase, phase0, phase1, phase2,
}
use ralph_autopilot.Store.Events.EventTypes.{IssueEvent}
use ralph_autopilot.Store.Events.Streams.{IssueStreamRef, parse_issue_stream_id}
use ralph_autopilot.Store.Events.Decider.{
  IssueLifecycle, FixAttempts, no_attempts, set_attempts, IssueState, initial_issue_state, evolve,
}

unfoldable pub fold_issue_state : List IssueEvent → IssueState → IssueState
fold_issue_state events from = foldl evolve from events

abbrev JsonText : Type 0
JsonText = Option Json

pub record IssueProjectionRowRaw : Type 0 where
  pub stream_id : Text
  pub repo : Text
  pub issue_number : ℕ
  pub status : IssueLifecycle
  pub run_id : Option String
  pub pr_number : Option ℕ
  pub fix_attempts : JsonText
  pub anomaly : Option String
  pub ended : ℕ
  pub route : Option JsonText
  pub stream_position : ℕ
  pub updated_at : String

pub serialize_fix_attempts : FixAttempts → JsonText
serialize_fix_attempts f =
    some (obj (member "0" (num f.at0) (member "1" (num f.at1) (member "2" (num f.at2) end))))

route_members : ProviderName → Option String → String → Members
route_members p (some m) a =
    member "provider" (str (provider_name p))
      (member "model" (str m) (member "account" (str a) end))
route_members p none a = member "provider" (str (provider_name p)) (member "account" (str a) end)

pub serialize_route : Option PhaseRoute → Option JsonText
unfolding route_members
serialize_route none = none
serialize_route (some r) = some (some (obj (route_members r.provider r.model r.account)))

-- config/schema.ts `isProviderName`, with the provider that it narrows to.
pub provider_of : String → Option ProviderName
provider_of s =
    if s === "claude"
    then some claude
    else if s === "openai"
    then some openai
    else if s === "zai"
    then some zai
    else none

coerced : Option String → Option String → Option String → Option PhaseRoute
coerced none model account = none
coerced (some p) model none = none
coerced (some p) model (some a) = elim (provider_of p) [
  | none ↦ none
  | some known ↦ some (record { provider = known; model = model; account = a })
]

-- A value that is no object has no string `provider`; an array has none either.
pub coerce_route : Json → Option PhaseRoute
unfolding coerced
coerce_route (obj ms) =
    coerced (as_string (lookup "provider" ms)) (as_string (lookup "model" ms))
      (as_string (lookup "account" ms))
coerce_route _ = none

pub parse_route : Option JsonText → Option PhaseRoute
parse_route none = none
parse_route (some none) = none
parse_route (some (some v)) = coerce_route v

item_at : ℕ → Items → Option Json
item_at i nil = none
item_at zero (item v vs) = some v
item_at (ℕ.suc i) (item v vs) = item_at i vs

phase_key : Phase → String
phase_key phase0 = "0"
phase_key phase1 = "1"
phase_key phase2 = "2"

phase_index : Phase → ℕ
phase_index phase0 = 0
phase_index phase1 = 1
phase_index phase2 = 2

-- `parsed[String(phase)]`: an array is indexed too; on `null` the access throws and is caught.
counted : Json → Phase → Option ℕ
unfolding item_at phase_key phase_index
counted (obj ms) p = as_number (lookup (phase_key p) ms)
counted (arr vs) p = as_number (item_at (phase_index p) vs)
counted _ p = none

put_count : Option ℕ → Phase → FixAttempts → FixAttempts
put_count none p f = f
put_count (some n) p f = set_attempts f p n

pub parse_fix_attempts : JsonText → FixAttempts
unfolding counted put_count
parse_fix_attempts none = no_attempts
parse_fix_attempts (some v) =
    put_count (counted v phase2) phase2
      (put_count (counted v phase1) phase1 (put_count (counted v phase0) phase0 no_attempts))

-- The row as the upsert's parameters write it.
pub projection_upsert_params :
    Text → IssueStreamRef → IssueState → ℕ → String → IssueProjectionRowRaw
projection_upsert_params stream_id ref s stream_position updated_at = record {
  stream_id = stream_id;
  repo = ref.repo;
  issue_number = ref.issue_number;
  status = s.lifecycle;
  run_id = s.run_id;
  pr_number = s.pr_number;
  fix_attempts = serialize_fix_attempts s.fix_attempts;
  anomaly = s.anomaly;
  ended = if s.ended then 1 else 0;
  route = serialize_route s.route;
  stream_position = stream_position;
  updated_at = updated_at;
}

pub decode_projection_state : Option IssueProjectionRowRaw → IssueState
decode_projection_state none = initial_issue_state
decode_projection_state (some raw) = record {
  lifecycle = raw.status;
  run_id = raw.run_id;
  pr_number = raw.pr_number;
  fix_attempts = parse_fix_attempts raw.fix_attempts;
  anomaly = raw.anomaly;
  ended = not (raw.ended == 0);
  route = parse_route raw.route;
}

-- The table by its primary key.
abbrev pub ProjectionTable : Type 0
ProjectionTable = Text → Option IssueProjectionRowRaw

-- `ON CONFLICT(stream_id) DO UPDATE` leaves the repository and the number of a row that is there.
pub merge_row : Option IssueProjectionRowRaw → IssueProjectionRowRaw → IssueProjectionRowRaw
merge_row none excluded = excluded
merge_row (some old) excluded = record excluded { repo = old.repo; issue_number = old.issue_number }

pub upsert : ProjectionTable → IssueProjectionRowRaw → ProjectionTable
unfolding merge_row
upsert table row stream_id =
    if text_eq row.stream_id stream_id
    then some (merge_row (table row.stream_id) row)
    else table stream_id

pub position_of : Option IssueProjectionRowRaw → ℕ
position_of none = 0
position_of (some row) = row.stream_position

-- `handle` on the events of one append, which all stand on one stream. `canHandle` names every type
-- of the union that an append can be of, so the batch is handed over whole.
pub handle : String → ProjectionTable → Text → List IssueEvent → ProjectionTable
unfolding position_of
handle now table stream_id [] = table
handle now table stream_id (e ∷ es) = elim (parse_issue_stream_id stream_id) [
  | none ↦ table
  | some ref ↦
      let current = table stream_id in
      let next = fold_issue_state (e ∷ es) (decode_projection_state current) in
      upsert table
        (projection_upsert_params stream_id ref next (position_of current + length (e ∷ es)) now)
]
