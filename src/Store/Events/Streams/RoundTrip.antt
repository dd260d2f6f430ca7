-- ===== src/Store/Events/Streams/RoundTrip.antt =====
-- An issue's stream id parses back to its repository and number.
use ralph_autopilot.Common.{
  ℕ, ◌≡◌, ◌≢◌, refl, true, false, none, some, [], ◌∷◌, ◌++◌, arith, Text, ◌==◌,
}
use ralph_autopilot.Common.Decimal.{
  decimal, all_digits, number_from, all_digits-decimal, decimal-ne-nil, number_from-decimal,
}
use ralph_autopilot.Store.Events.Streams.{
  issue_stream_id, is_system_stream, split_last_hash, ref_of_split, parse_issue_stream_id,
}

-- No digit is a hash, so the last hash is the one that was put before the digits.
split_last_hash-digits : (t : Text) → all_digits t ≡ true → split_last_hash t ≡ none
unfolding all_digits split_last_hash
split_last_hash-digits [] h = refl
split_last_hash-digits (c ∷ t) h = ground (arith, split_last_hash-digits t)

split_last_hash-append :
    (s t : Text) → all_digits t ≡ true → split_last_hash (s ++ 35 ∷ t) ≡ some (s, t)
unfolding split_last_hash
split_last_hash-append [] t h = rw (split_last_hash-digits t h)
split_last_hash-append (c ∷ s) t h = rw (split_last_hash-append s t h)

ref_of_split-some :
    (c : ℕ) (repo t : Text)
    → t ≢ []
    → all_digits t ≡ true
    → ref_of_split (some (c ∷ repo, t))
      ≡ some (record { repo = c ∷ repo; issue_number = number_from 0 t })
unfolding ref_of_split
ref_of_split-some c repo [] p h = absurd (p refl)
ref_of_split-some c repo (d ∷ t) p h = rw h

-- For a repository slug that is not empty and does not start with `$`, and any issue number, the
-- stream id that the program builds is parsed back to that slug and number: no two issues share
-- a stream, and none is taken for the system stream.
pub parse_issue_stream_id-issue_stream_id :
    (c : ℕ) (repo : Text) (n : ℕ)
    → (c == b'$') ≡ false
    → parse_issue_stream_id (issue_stream_id (c ∷ repo) n)
      ≡ some (record { repo = c ∷ repo; issue_number = n })
unfolding parse_issue_stream_id issue_stream_id is_system_stream
parse_issue_stream_id-issue_stream_id c repo n h = rw (
  h,
  split_last_hash-append (c ∷ repo) (decimal n) (all_digits-decimal n),
  ref_of_split-some c repo (decimal n) (decimal-ne-nil n) (all_digits-decimal n),
  number_from-decimal n,
)
