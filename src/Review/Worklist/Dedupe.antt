-- ===== src/Review/Worklist/Dedupe.antt =====
-- review/worklist.ts: consolidation and the verdict of a phase.
use ralph_autopilot.Common.{
  ◌≡◌, refl, Bool, true, false, not, ◌||◌, ltb, List, [], ◌∷◌, any, All, All-map, foldl, Text,
  text_eq, text_eq_iff, text_eq_refl, leb, ◌&&◌, sym, Bool-cases, inl, inr, arith, ◌∙◌, ap,
}
use ralph_autopilot.Common.Sort.{any-sort}
use ralph_autopilot.Review.Worklist.{
  severity_p0, severity_p1, nit, out_of_scope, escalate, WorklistItem, Severity, severity_rank,
  is_gating, is_gating_severity, is_clean, put_item, by_title, by_rank, dedupe_worklist,
}

is_clean-any : (xs : List WorklistItem) → is_clean xs ≡ not (any is_gating xs)
unfolding is_clean
is_clean-any [] = refl
is_clean-any (x ∷ xs) = ground (arith, is_clean-any xs)

rank-gating : (s : Severity) → is_gating_severity s ≡ leb 3 (severity_rank s)
rank-gating severity_p0 = refl
rank-gating severity_p1 = refl
rank-gating nit = refl
rank-gating out_of_scope = refl
rank-gating escalate = refl

or_mono : (a b c : Bool) → (a || b) ≡ true → (b ≡ true → c ≡ true) → (a || c) ≡ true
or_mono true b c h k = refl
or_mono false b c h k = k h

or_mono_left : (a b c : Bool) → (a || b) ≡ true → (a ≡ true → c ≡ true) → (c || b) ≡ true
or_mono_left true b c h k = rw (k refl) refl
or_mono_left false b true h k = refl
or_mono_left false b false h k = h

module _ (normalise_title : Text → Text) where
  -- The item stands for the other: the same title, and no less severe.
  abbrev pub stands_for : WorklistItem → WorklistItem → Bool
  stands_for item kept =
      text_eq (normalise_title kept.title) (normalise_title item.title)
      && leb (severity_rank item.severity) (severity_rank kept.severity)

  any_gating-put_item :
      (item : WorklistItem) (xs : List WorklistItem)
      → any is_gating (put_item normalise_title item xs) ≡ (is_gating item || any is_gating xs)
  any_gating-put_item item [] = refl
  any_gating-put_item item (x ∷ xs) =
      ground (arith, any_gating-put_item item xs, rank-gating item.severity, rank-gating x.severity)

  any_gating-by_title :
      (items kept : List WorklistItem)
      → any is_gating (foldl (λ xs item. put_item normalise_title item xs) kept items)
        ≡ (any is_gating items || any is_gating kept)
  any_gating-by_title [] kept = refl
  any_gating-by_title (i ∷ is) kept =
      ground (
        arith,
        any_gating-by_title is (put_item normalise_title i kept),
        any_gating-put_item i kept,
      )

  stands_for-more_severe :
      (item other x : WorklistItem)
      → text_eq (normalise_title x.title) (normalise_title item.title) ≡ true
      → ltb (severity_rank x.severity) (severity_rank item.severity) ≡ true
      → stands_for other x ≡ true
      → stands_for other item ≡ true
  stands_for-more_severe item other x e l h =
      let same = (text_eq_iff (normalise_title x.title) (normalise_title item.title)).0 e in
      rw (← same) (ground (arith, e))

  -- What stands for an item is replaced only by what stands for it too.
  stands_for-put_item :
      (item other : WorklistItem) (xs : List WorklistItem)
      → any (stands_for other) xs ≡ true
      → any (stands_for other) (put_item normalise_title item xs) ≡ true
  stands_for-put_item item other [] h = cc
  stands_for-put_item item other (x ∷ xs) h =
      elim (Bool-cases (text_eq (normalise_title x.title) (normalise_title item.title))) [
        | inr e ↦ rw e (
            or_mono (stands_for other x) (any (stands_for other) xs) _ h
              (stands_for-put_item item other xs))
        | inl e ↦ elim (Bool-cases (ltb (severity_rank x.severity) (severity_rank item.severity))) [
          | inr l ↦ rw (e, l) h
          | inl l ↦ rw (e, l) (or_mono_left _ _ _ h (stands_for-more_severe item other x e l))
        ]
      ]

  stands_for-put_self :
      (item : WorklistItem) (xs : List WorklistItem)
      → any (stands_for item) (put_item normalise_title item xs) ≡ true
  stands_for-put_self item [] = ground (arith, text_eq_refl (normalise_title item.title))
  stands_for-put_self item (x ∷ xs) =
      ground (arith, stands_for-put_self item xs, text_eq_refl (normalise_title item.title))

  stands_for-by_title :
      (items kept : List WorklistItem) (other : WorklistItem)
      → any (stands_for other) kept ≡ true
      → any (stands_for other) (foldl (λ xs item. put_item normalise_title item xs) kept items)
        ≡ true
  stands_for-by_title [] kept other h = h
  stands_for-by_title (i ∷ is) kept other h =
      stands_for-by_title is (put_item normalise_title i kept) other
        (stands_for-put_item i other kept h)

  All_stand :
      (items kept : List WorklistItem)
      → All
          (λ (i : WorklistItem).
            any (stands_for i) (foldl (λ xs item. put_item normalise_title item xs) kept items)
            ≡ true)
          items
  All_stand [] kept = tt
  All_stand (i ∷ is) kept = (
    stands_for-by_title is (put_item normalise_title i kept) i (stands_for-put_self i kept),
    All_stand is (put_item normalise_title i kept),
  )

  -- Consolidation loses no finding: each has one of its title that is no less severe. And it leaves
  -- the verdict of the phase as it is: the consolidated list is clean exactly where the list was.
  pub dedupe_worklist-stands_for :
      (items : List WorklistItem)
      → All
          (λ (i : WorklistItem). any (stands_for i) (dedupe_worklist normalise_title items) ≡ true)
          items
        × (is_clean (dedupe_worklist normalise_title items) ≡ is_clean items)
  unfolding dedupe_worklist by_title
  dedupe_worklist-stands_for items = (
    All-map items (λ i h. any-sort by_rank (stands_for i) (by_title normalise_title items) ∙ h)
        (All_stand items []),
    is_clean-any (dedupe_worklist normalise_title items)
        ∙ ap not (
            any-sort by_rank is_gating (by_title normalise_title items)
            ∙ any_gating-by_title items []
            ∙ ground arith)
        ∙ sym (is_clean-any items),
  )
