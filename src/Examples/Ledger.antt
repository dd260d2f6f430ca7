-- ===== src/Examples/Ledger.antt =====
-- Runs of ledger/fold.ts.
use mathlib.Core.List.{Perm}
use ralph_autopilot.Common.{
  ℕ, ◌≡◌, refl, false, Option, none, some, [], ◌∷◌, ◌++◌, map, filter, All, Text, codes, text_eq,
  text_compare,
}
use ralph_autopilot.Common.Decimal.{decimal}
use ralph_autopilot.Common.Sort.{sort}
use ralph_autopilot.Github.Ref.{IssueRef, ref_key, same_ref}
use ralph_autopilot.Ledger.Groups.{group_by}
use ralph_autopilot.Ledger.Fold.{
  DecisionScope, StoredDecision, DecisionConflict, LedgerFoldInput, dedupe_by_id, is_misplaced,
  fold_decision_ledger,
}
use ralph_autopilot.Ledger.Fold.Partition.{placed, deduped, fold_decision_ledger-perm}
use ralph_autopilot.Ledger.Fold.Active.{IsBinding, fold_decision_ledger-IsBinding}

abbrev node_of : ℕ → IssueRef
node_of n = record { repo = codes "o/r"; number = n }

abbrev entry : ℕ → ℕ → Text → Text → DecisionScope → Option Text → StoredDecision
entry n comment_id id key scope supersedes = record {
  node = node_of n;
  comment_id = comment_id;
  decision = record {
    id = id;
    key = key;
    scope = scope;
    supersedes = supersedes;
    text = id ++ key;
  };
}

-- A tree of two nodes: an initiative decision and its successor, a copy, a contested key, a record of
-- another subtree, and an initiative record below the root.
abbrev input : LedgerFoldInput
input = record {
  path = node_of 1 ∷ node_of 2 ∷ [];
  root = some (node_of 1);
  target = node_of 2;
  stored =
      entry 1 10 (codes "a") (codes "tests") DecisionScope.initiative none
      ∷ entry 2 11 (codes "b") (codes "tests") DecisionScope.issue (some (codes "a"))
      ∷ entry 2 12 (codes "b") (codes "tests") DecisionScope.issue (some (codes "a"))
      ∷ entry 1 13 (codes "c") (codes "style") DecisionScope.subtree none
      ∷ entry 2 14 (codes "d") (codes "style") DecisionScope.issue none
      ∷ entry 3 15 (codes "e") (codes "db") DecisionScope.subtree none
      ∷ entry 2 16 (codes "f") (codes "db") DecisionScope.initiative none
      ∷ [];
  initiative = false;
}

active_comments :
    map (λ (s : StoredDecision). s.comment_id) (fold_decision_ledger input).active ≡ 11 ∷ []
unfolding fold_decision_ledger decimal text_eq text_compare sort ref_key same_ref group_by
    dedupe_by_id
active_comments = refl

contested_comments :
    map
      (λ (c : DecisionConflict). map (λ (s : StoredDecision). s.comment_id) c.claims)
      (fold_decision_ledger input).conflicts
    ≡ (13 ∷ 14 ∷ []) ∷ []
unfolding fold_decision_ledger decimal text_eq text_compare sort ref_key same_ref group_by
    dedupe_by_id
contested_comments = refl

ledger_example :
    Perm
      (placed (fold_decision_ledger input) ++ filter (is_misplaced input.root) (deduped input))
      (deduped input)
ledger_example = fold_decision_ledger-perm input

active_example : All (IsBinding input) (fold_decision_ledger input).active
active_example = fold_decision_ledger-IsBinding input
