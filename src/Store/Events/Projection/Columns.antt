-- ===== src/Store/Events/Projection/Columns.antt =====
-- What a row's columns keep of the state that they encode.
use ralph_autopilot.Common.{
  ℕ, String, ◌≡◌, refl, Bool, true, false, not, Option, none, some, ◌===◌, ◌==◌, if◌then◌else◌,
  Text,
}
use ralph_autopilot.Common.Json.{lookup}
use ralph_autopilot.Store.Types.{ProviderName, claude, openai, zai, provider_name, PhaseRoute}
use ralph_autopilot.Store.Events.Streams.{IssueStreamRef}
use ralph_autopilot.Store.Events.Decider.{FixAttempts, IssueState}
use ralph_autopilot.Store.Events.Projection.{
  serialize_fix_attempts, parse_fix_attempts, serialize_route, provider_of, coerced, coerce_route,
  parse_route, projection_upsert_params, decode_projection_state,
}

parse-serialize_fix_attempts : (f : FixAttempts) → parse_fix_attempts (serialize_fix_attempts f) ≡ f
unfolding parse_fix_attempts serialize_fix_attempts lookup ◌===◌
parse-serialize_fix_attempts f = refl

provider_of-provider_name : (p : ProviderName) → provider_of (provider_name p) ≡ some p
unfolding provider_of ◌===◌
provider_of-provider_name claude = refl
provider_of-provider_name openai = refl
provider_of-provider_name zai = refl

coerced-provider_name :
    (p : ProviderName) (m : Option String) (a : String)
    → coerced (some (provider_name p)) m (some a)
      ≡ some (record { provider = p; model = m; account = a })
unfolding coerced
coerced-provider_name p m a = rw (provider_of-provider_name p, coerced)

parse-serialize_route : (r : Option PhaseRoute) → parse_route (serialize_route r) ≡ r
unfolding parse_route serialize_route coerce_route lookup ◌===◌
parse-serialize_route none = refl
parse-serialize_route (some r) = go r.provider r.model r.account
  where
    go :
        (p : ProviderName) (m : Option String) (a : String)
        → parse_route (serialize_route (some (record { provider = p; model = m; account = a })))
          ≡ some (record { provider = p; model = m; account = a })
    go p none a = coerced-provider_name p none a
    go p (some m) a = coerced-provider_name p (some m) a

ended_column : (b : Bool) → not ((if b then 1 else 0) == 0) ≡ b
ended_column true = refl
ended_column false = refl

-- Every state is read back whole from the row that it is written to: no status, count, anomaly,
-- end marker or route is lost or changed by the columns.
pub decode-projection_upsert_params :
    (stream_id : Text) (ref : IssueStreamRef) (s : IssueState) (position : ℕ) (now : String)
    → decode_projection_state (some (projection_upsert_params stream_id ref s position now)) ≡ s
unfolding decode_projection_state projection_upsert_params
decode-projection_upsert_params stream_id ref s position now = rw (
  parse-serialize_fix_attempts s.fix_attempts,
  parse-serialize_route s.route,
  ended_column s.ended,
)
