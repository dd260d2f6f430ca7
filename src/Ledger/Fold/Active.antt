-- ===== src/Ledger/Fold/Active.antt =====
-- What is active.
use ralph_autopilot.Common.{
  ◌≡◌, refl, subst, sym, Bool, true, false, not, Option, none, some, List, [], ◌∷◌, ◌++◌,
  append_assoc, filter, any, any-append, All, All-append, Text, text_eq, text_eq_iff, text_eq_refl,
  arith, inl, inr, Bool-cases,
}
use ralph_autopilot.Common.Sort.{sort, All-sort}
use ralph_autopilot.Ledger.Groups.{Bucket, group_by, group_by-IsGrouping, bucket_claims}
use ralph_autopilot.Ledger.Fold.{
  StoredDecision, LedgerFoldInput, scoped, is_superseded, superseded_id, names, conflict_key,
  sort_stored, by_bucket_key, single, active_of, live_of, fold_decision_ledger,
}
use ralph_autopilot.Ledger.Fold.Partition.{candidate_test, deduped, scoped_candidates}

-- The candidates that no record supersedes.
abbrev pub live : LedgerFoldInput → List StoredDecision
live input = live_of (deduped input) (scoped input (deduped input)).candidates

-- A record that binds the target: it is in scope, it is the only live record with its key, and no
-- record that was read supersedes it.
pub record IsBinding (input : LedgerFoldInput) (e : StoredDecision) : Type 0 where
  pub in_scope : candidate_test input e ≡ true
  pub sole :
      filter
        (λ c. text_eq (conflict_key input.initiative c) (conflict_key input.initiative e))
        (live input)
      ≡ e ∷ []
  pub unsuperseded : any (λ s. names s.decision.supersedes e.decision.id) (deduped input) ≡ false

filter_passes :
    (p : StoredDecision → Bool) (xs : List StoredDecision) → All (λ x. p x ≡ true) (filter p xs)
filter_passes p [] = tt
filter_passes p (x ∷ xs) = elim (Bool-cases (p x)) [
  | inl e ↦ rw e (e, filter_passes p xs)
  | inr e ↦ rw e (filter_passes p xs)
]

filter_keeps :
    (P : StoredDecision → Type 0) (p : StoredDecision → Bool) (xs : List StoredDecision)
    → All P xs
    → All P (filter p xs)
filter_keeps P p [] h = tt
filter_keeps P p (x ∷ xs) h = elim (Bool-cases (p x)) [
  | inl e ↦ rw e (h.0, filter_keeps P p xs h.1)
  | inr e ↦ rw e (filter_keeps P p xs h.1)
]

-- What holds of all that a test leaves holds of the only one that it leaves.
of_single :
    (P : StoredDecision → Type 0) (xs : List StoredDecision) (e : StoredDecision)
    → xs ≡ e ∷ []
    → All P xs
    → P e
of_single P xs e q h = (subst (All P) q h).0

all_known :
    (before xs : List StoredDecision)
    → All (λ e. any (λ s. text_eq s.decision.id e.decision.id) (before ++ xs) ≡ true) xs
all_known before [] = tt
all_known before (x ∷ xs) = (
  ground (
    arith,
    any-append (λ s. text_eq s.decision.id x.decision.id) before (x ∷ xs),
    text_eq_refl x.decision.id,
  ),
  subst
      (λ (l : List StoredDecision).
        All (λ e. any (λ s. text_eq s.decision.id e.decision.id) l ≡ true) xs)
      (append_assoc before (x ∷ []) xs) (all_known (before ++ x ∷ []) xs),
)

one_named :
    (stored : List StoredDecision) (id : Text) (o : Option Text) (x : StoredDecision)
    → x.decision.supersedes ≡ o
    → any (λ s. text_eq s.decision.id id) stored ≡ true
    → names (superseded_id stored x) id ≡ names x.decision.supersedes id
unfolding superseded_id names
one_named stored id none x e k = rw e refl
one_named stored id (some target) x e k = elim (Bool-cases (text_eq target id)) [
  | inl q ↦
      let t : target ≡ id = (text_eq_iff target id).0 q in
      rw (e, subst (λ (i : Text). any (λ s. text_eq s.decision.id i) stored ≡ true) (sym t) k) refl
  | inr q ↦ ground (arith, e, Bool-cases (any (λ s. text_eq s.decision.id target) stored))
]

-- A known id is superseded exactly if a record names it.
superseded_named :
    (stored : List StoredDecision) (id : Text) (entries : List StoredDecision)
    → any (λ s. text_eq s.decision.id id) stored ≡ true
    → any (λ entry. names (superseded_id stored entry) id) entries
      ≡ any (λ s. names s.decision.supersedes id) entries
superseded_named stored id [] k = refl
superseded_named stored id (x ∷ xs) k =
    ground
      (arith, one_named stored id x.decision.supersedes x refl k, superseded_named stored id xs k)

single-IsBinding :
    (input : LedgerFoldInput) (b : Bucket StoredDecision)
    → b.claims ≡ filter (λ x. text_eq (conflict_key input.initiative x) b.key) (live input)
    → single b.claims ≡ true
    → All (IsBinding input) b.claims
single-IsBinding input b h s = go b.claims h s
  where
    key : StoredDecision → Text
    key x = conflict_key input.initiative x

    in_scope_all : All (λ e. candidate_test input e ≡ true) (live input)
    in_scope_all =
        unfold live_of in
        filter_keeps (λ e. candidate_test input e ≡ true)
          (λ c. not (is_superseded (deduped input) c.decision.id))
          (scoped input (deduped input)).candidates
          (rw (scoped_candidates input (deduped input))
            (filter_passes (candidate_test input) (deduped input)))

    known_all :
        All
          (λ e. any (λ s. text_eq s.decision.id e.decision.id) (deduped input) ≡ true)
          (live input)
    known_all =
        unfold live_of in
        filter_keeps (λ e. any (λ s. text_eq s.decision.id e.decision.id) (deduped input) ≡ true)
          (λ c. not (is_superseded (deduped input) c.decision.id))
          (scoped input (deduped input)).candidates
          (rw (scoped_candidates input (deduped input)) (
            filter_keeps
              (λ e. any (λ s. text_eq s.decision.id e.decision.id) (deduped input) ≡ true)
              (candidate_test input) (deduped input) (all_known [] (deduped input))))

    unsuperseded_all :
        All (λ e. not (is_superseded (deduped input) e.decision.id) ≡ true) (live input)
    unsuperseded_all =
        unfold live_of in
        filter_passes (λ c. not (is_superseded (deduped input) c.decision.id))
          (scoped input (deduped input)).candidates

    go :
        (cs : List StoredDecision)
        → cs ≡ filter (λ x. text_eq (conflict_key input.initiative x) b.key) (live input)
        → single cs ≡ true
        → All (IsBinding input) cs
    go [] h s = tt
    go (e ∷ []) h s =
        let test = λ (x : StoredDecision). text_eq (conflict_key input.initiative x) b.key in
        let has_key =
          of_single (λ x. test x ≡ true) (filter test (live input)) e (sym h)
            (filter_passes test (live input)) in
        let same : conflict_key input.initiative e ≡ b.key = (text_eq_iff _ _).0 has_key in
        let scope =
          of_single (λ x. candidate_test input x ≡ true) (filter test (live input)) e (sym h)
            (filter_keeps _ test (live input) in_scope_all) in
        let known =
          of_single (λ x. any (λ s. text_eq s.decision.id x.decision.id) (deduped input) ≡ true)
            (filter test (live input)) e (sym h) (filter_keeps _ test (live input) known_all) in
        let alive =
          of_single (λ x. not (is_superseded (deduped input) x.decision.id) ≡ true)
            (filter test (live input)) e (sym h)
            (filter_keeps _ test (live input) unsuperseded_all) in
        (
          record {
            in_scope = scope;
            sole = rw same (sym h);
            unsuperseded =
                unfold is_superseded in
                ground (
                  arith,
                  alive,
                  superseded_named (deduped input) e.decision.id (deduped input) known,
                );
          },
          tt,
        )
    go (e ∷ c ∷ cs) h s = absurd (unfold single in ground arith)

active_of-IsBinding :
    (input : LedgerFoldInput) (bs : List (Bucket StoredDecision))
    → All
        (λ (b : Bucket StoredDecision).
          b.claims ≡ filter (λ x. text_eq (conflict_key input.initiative x) b.key) (live input))
        bs
    → All (IsBinding input) (active_of bs)
unfolding active_of
active_of-IsBinding input [] h = tt
active_of-IsBinding input (b ∷ bs) h = elim (Bool-cases (single b.claims)) [
  | inl s ↦ rw s (
      All-append (IsBinding input) b.claims (active_of bs) (single-IsBinding input b h.0 s)
        (active_of-IsBinding input bs h.1))
  | inr s ↦ rw s (active_of-IsBinding input bs h.1)
]

-- Conflicts fail closed: every active decision is in scope for the target, is the only live record
-- that claims its key, and is superseded by no record that was read, wherever that one stands.
pub fold_decision_ledger-IsBinding :
    (input : LedgerFoldInput) → All (IsBinding input) (fold_decision_ledger input).active
unfolding fold_decision_ledger sort_stored
fold_decision_ledger-IsBinding input = All-sort _ (IsBinding input) _ (
    active_of-IsBinding input
      (sort by_bucket_key (group_by (conflict_key input.initiative) (live input)))
      (All-sort by_bucket_key _ (group_by (conflict_key input.initiative) (live input)) (
        bucket_claims (conflict_key input.initiative) (live input)
          (group_by (conflict_key input.initiative) (live input))
          (group_by-IsGrouping (conflict_key input.initiative) (live input)))))
