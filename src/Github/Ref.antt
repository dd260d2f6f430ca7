-- ===== src/Github/Ref.antt =====
-- github/ref.ts: the key of a reference to an issue, and when two references are one.
use ralph_autopilot.Common.{ℕ, Bool, ◌&&◌, ◌==◌, ◌∷◌, ◌++◌, Text, text_eq}
use ralph_autopilot.Common.Decimal.{decimal}

pub record IssueRef : Type 0 where
  pub repo : Text
  pub number : ℕ

unfoldable pub ref_key : IssueRef → Text
ref_key ref = ref.repo ++ b'#' ∷ decimal ref.number

unfoldable pub same_ref : IssueRef → IssueRef → Bool
same_ref a b = text_eq a.repo b.repo && a.number == b.number
