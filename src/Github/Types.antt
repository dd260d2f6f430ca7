-- ===== src/Github/Types.antt =====
-- github/types.ts: one issue.
use ralph_autopilot.Common.{ℕ, String, List, Text}

pub data IssueState : Type 0 where
  open_issue closed_issue : IssueState

-- The body and the ISO-8601 time of creation are walked and ordered, so they are code units.
pub record Issue : Type 0 where
  pub number : ℕ
  pub title : String
  pub body : Text
  pub state : IssueState
  pub labels : List String
  pub created_at : Text
