-- ===== src/Core/Admission/Order.antt =====
-- The scheduling order is a total preorder, so the sort of the launch plan is well defined.
use ralph_autopilot.Common.{Bool, List, compare, text_compare, String}
use ralph_autopilot.Common.Sort.{IsSorted, sort-IsSorted}
use ralph_autopilot.Common.Order.{
  not_after, rank_compare, IsOrder, nat-IsOrder, text-IsOrder, rank-IsOrder, on-IsOrder,
  then_by-IsOrder, not_after_total, not_after_trans,
}
use ralph_autopilot.Github.Types.{Issue}
use ralph_autopilot.Core.Admission.{PickedIssue, World, priority_rank_of, compare_issues, ordered}

-- Older first, then the more urgent label, then the smaller number: a comparison that is
-- antisymmetric in sign, transitive, and consistent on ties, for any priority labels.
pub compare_issues-IsOrder : (priorities : List String) → IsOrder (compare_issues priorities)
unfolding compare_issues
compare_issues-IsOrder priorities =
    then_by-IsOrder _ _ (on-IsOrder text_compare (λ (i : Issue). i.created_at) text-IsOrder) (
      then_by-IsOrder _ _
        (on-IsOrder rank_compare (λ (i : Issue). priority_rank_of i.labels priorities) rank-IsOrder)
        (on-IsOrder compare (λ (i : Issue). i.number) nat-IsOrder))

-- `a` is scheduled before `b`, or ties with it.
abbrev pub scheduled_before : World → PickedIssue → PickedIssue → Bool
scheduled_before world a b = not_after (compare_issues world.priority_labels a.issue b.issue)

pub ordered-IsSorted :
    (world : World) (picked : List PickedIssue)
    → IsSorted (scheduled_before world) (ordered world picked)
unfolding ordered
ordered-IsSorted world picked =
    sort-IsSorted (scheduled_before world) (λ a b. not_after_total _ by_key a b)
      (λ a b c. not_after_trans _ by_key a b c) picked
  where
    by_key : IsOrder (λ (a b : PickedIssue). compare_issues world.priority_labels a.issue b.issue)
    by_key =
        on-IsOrder _ (λ (p : PickedIssue). p.issue) (compare_issues-IsOrder world.priority_labels)
