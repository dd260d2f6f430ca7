-- ===== src/Review/Worklist.antt =====
-- review/worklist.ts: the findings of a review and their consolidation. `normalise_title` stands for
-- the folding of case and space, whose case mapping is Unicode's.
pub mod Dedupe
use ralph_autopilot.Common.{
  ℕ, Bool, true, false, not, ltb, leb, String, Option, none, some, List, [], ◌∷◌, any, filter, map,
  foldl, if◌then◌else◌, ◌===◌, Text, text_eq,
}
use ralph_autopilot.Common.Sort.{sort}

pub data Severity : Type 0 where
  severity_p0 severity_p1 nit out_of_scope escalate : Severity

pub data ItemSource : Type 0 where
  review pr_comment : ItemSource

pub record WorklistItem : Type 0 where
  pub severity : Severity
  pub title : Text
  pub detail : Option Text
  pub source : Option ItemSource

abbrev pub is_gating_severity : Severity → Bool
is_gating_severity severity_p0 = true
is_gating_severity severity_p1 = true
is_gating_severity escalate = true
is_gating_severity _ = false

abbrev pub severity_rank : Severity → ℕ
severity_rank severity_p0 = 5
severity_rank severity_p1 = 4
severity_rank escalate = 3
severity_rank nit = 2
severity_rank out_of_scope = 1

abbrev pub is_gating : WorklistItem → Bool
is_gating item = is_gating_severity item.severity

unfoldable pub gating_items : List WorklistItem → List WorklistItem
gating_items items = filter is_gating items

abbrev is_nil : List WorklistItem → Bool
is_nil [] = true
is_nil (x ∷ xs) = false

unfoldable pub is_clean : List WorklistItem → Bool
unfolding gating_items
is_clean items = is_nil (gating_items items)

abbrev is_escalate : Severity → Bool
is_escalate escalate = true
is_escalate _ = false

has_escalation : List WorklistItem → Bool
has_escalation items = any (λ (i : WorklistItem). is_escalate i.severity) items

-- Most severe first; the sort is stable.
abbrev pub by_rank : WorklistItem → WorklistItem → Bool
by_rank a b = leb (severity_rank b.severity) (severity_rank a.severity)

module _ (normalise_title : Text → Text) where
  -- `byTitle.set(key, item)` where the item is new or more severe: a key keeps its place.
  abbrev pub put_item : WorklistItem → List WorklistItem → List WorklistItem
  put_item item [] = item ∷ []
  put_item item (x ∷ xs) =
      let rest = put_item item xs in
      if text_eq (normalise_title x.title) (normalise_title item.title)
      then (if ltb (severity_rank x.severity) (severity_rank item.severity)
          then item ∷ xs
          else x ∷ xs)
      else x ∷ rest

  unfoldable pub by_title : List WorklistItem → List WorklistItem
  by_title items = foldl (λ xs item. put_item item xs) [] items

  unfoldable pub dedupe_worklist : List WorklistItem → List WorklistItem
  unfolding by_title
  dedupe_worklist items = sort by_rank (by_title items)
