-- ===== src/Ledger/Fold.antt =====
-- ledger/fold.ts: the fold of the decision records that were read into the active ledger. A record
-- carries what the fold reads, and `text`, which is its `JSON.stringify`.
pub mod Partition
pub mod Active
use ralph_autopilot.Common.{
  ℕ, Bool, true, false, not, ◌&&◌, ◌||◌, Option, none, some, List, [], ◌∷◌, ◌++◌, map, any, find,
  filter, foldl, is_some, if◌then◌else◌, Text, text_eq, text_compare, Ordering,
}
use ralph_autopilot.Common.Sort.{sort}
use ralph_autopilot.Common.Order.{then_by, not_after}
use ralph_autopilot.Github.Ref.{IssueRef, ref_key, same_ref}
use ralph_autopilot.Ledger.Groups.{Bucket, group_by}

pub data DecisionScope : Type 0 where
  issue subtree initiative : DecisionScope

pub record DecisionRecord : Type 0 where
  pub id : Text
  pub key : Text
  pub scope : DecisionScope
  pub supersedes : Option Text
  pub text : Text

pub record StoredDecision : Type 0 where
  pub node : IssueRef
  pub comment_id : ℕ
  pub decision : DecisionRecord

pub record DecisionConflict : Type 0 where
  pub key : Text
  pub claims : List StoredDecision

-- The diagnostics that the fold itself reports, without their prose.
pub data LedgerDiagnostic : Type 0 where
  scope_node_mismatch : IssueRef → ℕ → LedgerDiagnostic
  dangling_supersedes : IssueRef → ℕ → Text → LedgerDiagnostic
  duplicate_record_id : IssueRef → ℕ → Text → Bool → LedgerDiagnostic

pub record LedgerFold : Type 0 where
  pub active : List StoredDecision
  pub superseded : List StoredDecision
  pub conflicts : List DecisionConflict
  pub inapplicable : List StoredDecision
  pub diagnostics : List LedgerDiagnostic

-- `initiative` is `scope === "initiative"`.
pub record LedgerFoldInput : Type 0 where
  pub path : List IssueRef
  pub root : Option IssueRef
  pub target : IssueRef
  pub stored : List StoredDecision
  pub initiative : Bool

-- The variables of `dedupeById`: the values of `firstById`, in the order of their insertion.
pub record DedupeState : Type 0 where
  pub first_by_id : List StoredDecision
  pub kept : List StoredDecision
  pub diagnostics : List LedgerDiagnostic

dedupe_entry : DedupeState → StoredDecision → Option StoredDecision → DedupeState
dedupe_entry s entry none = record s {
  first_by_id = s.first_by_id ++ entry ∷ [];
  kept = s.kept ++ entry ∷ [];
}
dedupe_entry s entry (some first) =
    let identical = text_eq first.decision.text entry.decision.text in
    record s {
      kept = if identical then s.kept else s.kept ++ entry ∷ [];
      diagnostics =
          s.diagnostics
          ++ duplicate_record_id entry.node entry.comment_id entry.decision.id identical ∷ [];
    }

dedupe_step : DedupeState → StoredDecision → DedupeState
unfolding dedupe_entry
dedupe_step s entry =
    dedupe_entry s entry (find (λ f. text_eq f.decision.id entry.decision.id) s.first_by_id)

unfoldable pub dedupe_by_id : List StoredDecision → DedupeState
unfolding dedupe_step
dedupe_by_id stored =
    foldl dedupe_step (record { first_by_id = []; kept = []; diagnostics = [] }) stored

is_initiative : DecisionScope → Bool
is_initiative initiative = true
is_initiative _ = false

is_issue : DecisionScope → Bool
is_issue issue = true
is_issue _ = false

at_root : Option IssueRef → IssueRef → Bool
at_root none node = false
at_root (some root) node = same_ref node root

-- An initiative record that is not on the proven root.
pub is_misplaced : Option IssueRef → StoredDecision → Bool
unfolding is_initiative at_root
is_misplaced root entry = is_initiative entry.decision.scope && not (at_root root entry.node)

applies_to_target : StoredDecision → IssueRef → List IssueRef → Bool
unfolding is_issue
applies_to_target entry target path =
    if not (any (λ ref. text_eq (ref_key ref) (ref_key entry.node)) path)
    then false
    else if is_issue entry.decision.scope
    then same_ref entry.node target
    else true

pub is_candidate : LedgerFoldInput → StoredDecision → Bool
unfolding applies_to_target
is_candidate input entry = input.initiative || applies_to_target entry input.target input.path

-- The first loop's variables.
pub record ScopeState : Type 0 where
  pub candidates : List StoredDecision
  pub inapplicable : List StoredDecision
  pub diagnostics : List LedgerDiagnostic

scope_step : LedgerFoldInput → ScopeState → StoredDecision → ScopeState
unfolding is_misplaced is_candidate
scope_step input s entry =
    if is_misplaced input.root entry
    then (record s {
      diagnostics = s.diagnostics ++ scope_node_mismatch entry.node entry.comment_id ∷ [];
    })
    else if is_candidate input entry
    then (record s { candidates = s.candidates ++ entry ∷ [] })
    else (record s { inapplicable = s.inapplicable ++ entry ∷ [] })

-- The id that an entry supersedes, where a record with that id was read.
pub superseded_id : List StoredDecision → StoredDecision → Option Text
superseded_id stored entry = elim entry.decision.supersedes [
  | none ↦ none
  | some target ↦ if any (λ s. text_eq s.decision.id target) stored then some target else none
]

dangling : List StoredDecision → StoredDecision → List LedgerDiagnostic
dangling stored entry = elim entry.decision.supersedes [
  | none ↦ []
  | some target ↦
      if any (λ s. text_eq s.decision.id target) stored
      then []
      else dangling_supersedes entry.node entry.comment_id target ∷ []
]

all_dangling : List StoredDecision → List StoredDecision → List LedgerDiagnostic
unfolding dangling
all_dangling stored [] = []
all_dangling stored (entry ∷ entries) = dangling stored entry ++ all_dangling stored entries

pub names : Option Text → Text → Bool
names none id = false
names (some target) id = text_eq target id

-- `supersededIds.has(id)`
pub is_superseded : List StoredDecision → Text → Bool
unfolding superseded_id names
is_superseded stored id = any (λ entry. names (superseded_id stored entry) id) stored

-- The two halves are joined by the character NUL.
pub conflict_key : Bool → StoredDecision → Text
conflict_key whole entry =
    if whole then ref_key entry.node ++ 0 ∷ entry.decision.key else entry.decision.key

by_key_then_id : StoredDecision → StoredDecision → Ordering
by_key_then_id a b =
    then_by (text_compare a.decision.key b.decision.key) (text_compare a.decision.id b.decision.id)

pub sort_stored : List StoredDecision → List StoredDecision
unfolding by_key_then_id
sort_stored entries = sort (λ a b. not_after (by_key_then_id a b)) entries

abbrev pub by_bucket_key : Bucket StoredDecision → Bucket StoredDecision → Bool
by_bucket_key a b = not_after (text_compare a.key b.key)

-- A bucket is never empty, so its first claim is there.
first_key : List StoredDecision → Text
first_key [] = []
first_key (c ∷ cs) = c.decision.key

single : List StoredDecision → Bool
single (c ∷ []) = true
single _ = false

pub active_of : List (Bucket StoredDecision) → List StoredDecision
unfolding single
active_of [] = []
active_of (b ∷ bs) = if single b.claims then b.claims ++ active_of bs else active_of bs

pub conflicts_of : List (Bucket StoredDecision) → List DecisionConflict
unfolding single first_key sort_stored
conflicts_of [] = []
conflicts_of (b ∷ bs) =
    let rest = conflicts_of bs in
    if single b.claims
    then rest
    else record { key = first_key b.claims; claims = sort_stored b.claims } ∷ rest

pub scoped : LedgerFoldInput → List StoredDecision → ScopeState
unfolding scope_step
scoped input stored =
    foldl (scope_step input) (record { candidates = []; inapplicable = []; diagnostics = [] })
      stored

pub live_of : List StoredDecision → List StoredDecision → List StoredDecision
live_of stored candidates = filter (λ c. not (is_superseded stored c.decision.id)) candidates

unfoldable pub fold_decision_ledger : LedgerFoldInput → LedgerFold
unfolding dedupe_by_id scoped all_dangling active_of conflicts_of sort_stored live_of conflict_key
    is_superseded
fold_decision_ledger input =
    let deduped = dedupe_by_id input.stored in
    let s = scoped input deduped.kept in
    let live = live_of deduped.kept s.candidates in
    let buckets = sort by_bucket_key (group_by (conflict_key input.initiative) live) in
    record {
      active = sort_stored (active_of buckets);
      superseded =
          sort_stored (filter (λ c. is_superseded deduped.kept c.decision.id) s.candidates);
      conflicts = conflicts_of buckets;
      inapplicable = sort_stored s.inapplicable;
      diagnostics = deduped.diagnostics ++ s.diagnostics ++ all_dangling deduped.kept deduped.kept;
    }
