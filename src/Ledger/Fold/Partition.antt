-- ===== src/Ledger/Fold/Partition.antt =====
-- Every record that was read is placed once.
use mathlib.Core.List.{Perm, perm_middle}
use mathlib.Core.List.Perm
use ralph_autopilot.Common.{
  ◌≡◌, subst, sym, Bool, not, ◌&&◌, List, [], ◌∷◌, ◌++◌, append_assoc, append-nil, foldl, flat,
  filter, filter-perm, perm_swap, arith, inl, inr, Bool-cases,
}
use ralph_autopilot.Common.Sort.{sort, sort-perm, sort-flat}
use ralph_autopilot.Ledger.Groups.{Bucket, group_by, all_claims, group_by-IsGrouping}
use ralph_autopilot.Ledger.Fold.{
  StoredDecision, DecisionConflict, LedgerFold, LedgerFoldInput, ScopeState, dedupe_by_id,
  is_misplaced, is_candidate, scope_step, scoped, is_superseded, conflict_key, sort_stored,
  by_bucket_key, single, active_of, conflicts_of, live_of, fold_decision_ledger,
}

abbrev pub candidate_test : LedgerFoldInput → StoredDecision → Bool
candidate_test input e = not (is_misplaced input.root e) && is_candidate input e

abbrev outside_test : LedgerFoldInput → StoredDecision → Bool
outside_test input e = not (is_misplaced input.root e) && not (is_candidate input e)

-- The lists that the first loop collects.
pub record Collects (input : LedgerFoldInput) (xs : List StoredDecision) (s t : ScopeState)
    : Type 0 where
  pub candidates : t.candidates ≡ s.candidates ++ filter (candidate_test input) xs
  pub inapplicable : t.inapplicable ≡ s.inapplicable ++ filter (outside_test input) xs

scoped_lists :
    (input : LedgerFoldInput) (xs : List StoredDecision) (s : ScopeState)
    → Collects input xs s (foldl (scope_step input) s xs)
unfolding scope_step
scoped_lists input [] s = record {
  candidates = sym (append-nil s.candidates);
  inapplicable = sym (append-nil s.inapplicable);
}
scoped_lists input (x ∷ xs) s =
    let later = scoped_lists input xs (scope_step input s x) in
    elim (Bool-cases (is_misplaced input.root x)) [
      | inl m ↦ record {
        candidates = ground (arith, later.candidates);
        inapplicable = ground (arith, later.inapplicable);
      }
      | inr m ↦ elim (Bool-cases (is_candidate input x)) [
        | inl c ↦ record {
          candidates = ground (
            arith,
            later.candidates,
            append_assoc s.candidates (x ∷ []) (filter (candidate_test input) xs),
          );
          inapplicable = ground (arith, later.inapplicable);
        }
        | inr c ↦ record {
          candidates = ground (arith, later.candidates);
          inapplicable = ground (
            arith,
            later.inapplicable,
            append_assoc s.inapplicable (x ∷ []) (filter (outside_test input) xs),
          );
        }
      ]
    ]

-- The three ways in which the first loop places a record.
three_ways :
    (input : LedgerFoldInput) (xs : List StoredDecision)
    → Perm
        (filter (candidate_test input) xs
          ++ (filter (outside_test input) xs ++ filter (is_misplaced input.root) xs))
        xs
three_ways input [] = Perm.refl []
three_ways input (x ∷ xs) =
    let c = filter (candidate_test input) xs in
    let o = filter (outside_test input) xs in
    let r = filter (is_misplaced input.root) xs in
    elim (Bool-cases (is_misplaced input.root x)) [
      | inl m ↦ rw m (
          Perm.trans (Perm.append_left c (perm_middle o r))
            (Perm.trans (perm_middle c (o ++ r)) (Perm.cons x (three_ways input xs))))
      | inr m ↦ elim (Bool-cases (is_candidate input x)) [
        | inl k ↦ rw (m, k) (Perm.cons x (three_ways input xs))
        | inr k ↦
            rw (m, k) (Perm.trans (perm_middle c (o ++ r)) (Perm.cons x (three_ways input xs)))
      ]
    ]

sort_stored-perm : (entries : List StoredDecision) → Perm (sort_stored entries) entries
unfolding sort_stored
sort_stored-perm entries = sort-perm _ entries

abbrev conflict_claims : List DecisionConflict → List StoredDecision
conflict_claims cs = flat (λ (c : DecisionConflict). c.claims) cs

-- The buckets are split into the single ones and the contested ones.
split_buckets :
    (bs : List (Bucket StoredDecision))
    → Perm (active_of bs ++ conflict_claims (conflicts_of bs)) (all_claims bs)
unfolding active_of conflicts_of
split_buckets [] = Perm.refl []
split_buckets (b ∷ bs) = elim (Bool-cases (single b.claims)) [
  | inl e ↦
      rw (e, append_assoc b.claims (active_of bs) (conflict_claims (conflicts_of bs)))
        (Perm.append_left b.claims (split_buckets bs))
  | inr e ↦ rw e (
      Perm.trans
        (perm_swap (active_of bs) (sort_stored b.claims) (conflict_claims (conflicts_of bs)))
        (Perm.trans (Perm.append_right _ (sort_stored-perm b.claims))
          (Perm.append_left b.claims (split_buckets bs))))
]

-- The records that share an id with another and are not its copies, or stand alone.
abbrev pub deduped : LedgerFoldInput → List StoredDecision
deduped input = (dedupe_by_id input.stored).kept

-- What the fold places, and what it refuses as misplaced.
abbrev pub placed : LedgerFold → List StoredDecision
placed f = f.active ++ (conflict_claims f.conflicts ++ (f.superseded ++ f.inapplicable))

live_placed :
    (input : LedgerFoldInput) (live : List StoredDecision)
    → Perm
        (sort_stored
            (active_of (sort by_bucket_key (group_by (conflict_key input.initiative) live)))
          ++ conflict_claims
              (conflicts_of (sort by_bucket_key (group_by (conflict_key input.initiative) live))))
        live
live_placed input live =
    let buckets = sort by_bucket_key (group_by (conflict_key input.initiative) live) in
    Perm.trans (Perm.append_right _ (sort_stored-perm (active_of buckets))) (
      Perm.trans (split_buckets buckets) (
        Perm.trans
          (sort-flat by_bucket_key (λ (b : Bucket StoredDecision). b.claims)
            (group_by (conflict_key input.initiative) live))
          (group_by-IsGrouping (conflict_key input.initiative) live).entries))

regroup :
    (active conflicts superseded outside refused : List StoredDecision)
    (live sup candidates xs : List StoredDecision)
    → Perm (active ++ conflicts) live
    → Perm superseded sup
    → Perm (sup ++ live) candidates
    → Perm (candidates ++ (outside ++ refused)) xs
    → Perm ((active ++ (conflicts ++ (superseded ++ outside))) ++ refused) xs
regroup active conflicts superseded outside refused live sup candidates xs a s c x =
    rw
      (
        ← append_assoc active conflicts (superseded ++ outside),
        append_assoc (active ++ conflicts) (superseded ++ outside) refused,
        append_assoc superseded outside refused,
      )
      (Perm.trans (Perm.append_right _ a) (
        Perm.trans (Perm.append_left live (Perm.append_right _ s)) (
          Perm.trans (perm_swap live sup (outside ++ refused)) (
            subst (λ (l : List StoredDecision). Perm l xs)
              (append_assoc sup live (outside ++ refused))
              (Perm.trans (Perm.append_right _ c) x)))))

-- Every record that was read and is no copy of another is placed exactly once: active, a claim of a
-- conflict, superseded, or inapplicable to the target; or it is an initiative record that is not on
-- the proven root, which is refused.
pub fold_decision_ledger-perm :
    (input : LedgerFoldInput)
    → Perm
        (placed (fold_decision_ledger input) ++ filter (is_misplaced input.root) (deduped input))
        (deduped input)
unfolding fold_decision_ledger scoped live_of
fold_decision_ledger-perm input =
    let kept = deduped input in
    let s =
      scoped_lists input kept (record { candidates = []; inapplicable = []; diagnostics = [] }) in
    let cand = filter (candidate_test input) kept in
    let out = filter (outside_test input) kept in
    let sup = λ (c : StoredDecision). is_superseded kept c.decision.id in
    rw (s.candidates, s.inapplicable)
      (regroup _ _ (sort_stored (filter sup cand)) (sort_stored out)
        (filter (is_misplaced input.root) kept) (live_of kept cand) (filter sup cand) cand kept
        (live_placed input (live_of kept cand)) (sort_stored-perm (filter sup cand))
        (unfold live_of in filter-perm sup cand)
        (Perm.trans (Perm.append_left cand (Perm.append_right _ (sort_stored-perm out)))
          (three_ways input kept)))

-- The candidates of the fold.
pub scoped_candidates :
    (input : LedgerFoldInput) (kept : List StoredDecision)
    → (scoped input kept).candidates ≡ filter (candidate_test input) kept
unfolding scoped
scoped_candidates input kept =
    (scoped_lists input kept
      (record { candidates = []; inapplicable = []; diagnostics = [] })).candidates
