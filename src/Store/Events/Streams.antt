-- ===== src/Store/Events/Streams.antt =====
-- store/events/streams.ts: the id of an issue's event stream, and its parse.
pub mod RoundTrip
use ralph_autopilot.Common.{
  ℕ, Bool, true, false, Option, none, some, [], ◌∷◌, ◌++◌, Text, ◌==◌, if◌then◌else◌,
}
use ralph_autopilot.Common.Decimal.{decimal, all_digits, number_from}

pub issue_stream_id : Text → ℕ → Text
issue_stream_id repo issue_number = repo ++ b'#' ∷ decimal issue_number

pub record IssueStreamRef : Type 0 where
  pub repo : Text
  pub issue_number : ℕ

pub is_system_stream : Text → Bool
is_system_stream [] = false
is_system_stream (c ∷ s) = c == b'$'

-- `lastIndexOf("#")` with the two slices around it; none where there is no `#`.
pub split_last_hash : Text → Option (Text × Text)
split_last_hash [] = none
split_last_hash (c ∷ s) =
    let later = split_last_hash s in
    elim later [
      | some (before, after) ↦ some (c ∷ before, after)
      | none ↦ if c == b'#' then some ([], s) else none
    ]

-- A hash at 0 or at the end, or a part that is no number, is not an issue stream.
ref_of : Text → Text → Option IssueStreamRef
ref_of [] after = none
ref_of (c ∷ repo) [] = none
ref_of (c ∷ repo) (d ∷ digits) =
    if all_digits (d ∷ digits)
    then some (record { repo = c ∷ repo; issue_number = number_from 0 (d ∷ digits) })
    else none

ref_of_split : Option (Text × Text) → Option IssueStreamRef
unfolding ref_of
ref_of_split none = none
ref_of_split (some (before, after)) = ref_of before after

unfoldable pub parse_issue_stream_id : Text → Option IssueStreamRef
unfolding is_system_stream split_last_hash ref_of_split all_digits number_from
parse_issue_stream_id stream_id =
    if is_system_stream stream_id then none else ref_of_split (split_last_hash stream_id)
