-- ===== src/Core/Labels/Promotion.antt =====
-- Reading a label back, the precedence of duplicates, and what the promotion patch does.
use ralph_autopilot.Common.{
  String, ◌≡◌, refl, Bool, true, false, not, ◌&&◌, ◌||◌, none, some, List, [], ◌∷◌, ◌++◌,
  any-append, filter, includes, ◌===◌, ===_iff, arith, inl, inr, Bool-cases, if◌then◌else◌, ap, ◌∙◌,
  sym,
}
use ralph_autopilot.Store.Types.{ComplexityTier, tier1, tier2, tier3}
use ralph_autopilot.Core.Labels.{
  label_complexity1, label_complexity2, label_complexity3, read_tier, tier_label_for,
  promote_to_tier_one_patch, needs_tier_one_promotion, LabelPatch,
}

-- What GitHub holds after an atomic label edit: the removed labels gone, the added ones there.
abbrev pub apply_patch : LabelPatch → List String → List String
apply_patch patch labels = filter (λ l. not (includes patch.remove l)) labels ++ patch.add

includes-append :
    (xs ys : List String) (s : String) → includes (xs ++ ys) s ≡ (includes xs s || includes ys s)
includes-append [] ys s = refl
includes-append (x ∷ xs) ys s = ground (arith, includes-append xs ys s)

includes-filter :
    (p : String → Bool) (xs : List String) (s : String)
    → includes (filter p xs) s ≡ (includes xs s && p s)
includes-filter p [] s = refl
includes-filter p (x ∷ xs) s = elim (Bool-cases (x === s)) [
  | inl e ↦ ground (arith, includes-filter p xs s, ap p ((===_iff x s).0 e))
  | inr e ↦ ground (arith, includes-filter p xs s)
]

-- Labels on an issue, in any order and with any others: the three complexity labels afterwards.
promoted_labels :
    (labels : List String) (s : String)
    → includes (apply_patch (promote_to_tier_one_patch labels) labels) s ≡ (
        includes labels s && not (includes (promote_to_tier_one_patch labels).remove s)
        || includes (promote_to_tier_one_patch labels).add s)
promoted_labels labels s =
    includes-append _ _ s
    ∙ ap (λ (b : Bool). b || includes (promote_to_tier_one_patch labels).add s)
        (includes-filter _ labels s)

same_label :
    (labels : List String) (c s : String) → (c === s) ≡ true → includes labels s ≡ includes labels c
same_label labels c s h = ap (λ (l : String). includes labels l) (sym ((===_iff c s).0 h))

removes :
    (labels : List String) (s : String)
    → includes (promote_to_tier_one_patch labels).remove s ≡ (
        label_complexity2 === s && includes labels label_complexity2
        || label_complexity3 === s && includes labels label_complexity3)
unfolding promote_to_tier_one_patch ◌===◌
removes labels s = ground arith

distinct_labels :
    ((label_complexity2 === label_complexity1) ≡ false)
    × ((label_complexity3 === label_complexity1) ≡ false)
unfolding ◌===◌
distinct_labels = (refl, refl)

-- Whatever labels an issue carries, in any order and with duplicates, after the promotion patch it
-- carries `complexity:1`, carries neither `complexity:2` nor `complexity:3`, and carries every
-- other label exactly if it did before.
pub includes-promote_to_tier_one_patch :
    (labels : List String) (s : String)
    → includes (apply_patch (promote_to_tier_one_patch labels) labels) s ≡ (
        if label_complexity1 === s
        then true
        else if label_complexity2 === s || label_complexity3 === s
        then false
        else includes labels s)
unfolding promote_to_tier_one_patch
includes-promote_to_tier_one_patch labels s =
    promoted_labels labels s
    ∙ ground (
      arith,
      removes labels s,
      same_label labels label_complexity1 s,
      same_label labels label_complexity2 s,
      same_label labels label_complexity3 s,
      ===_iff label_complexity1 s,
      ===_iff label_complexity2 s,
      ===_iff label_complexity3 s,
      distinct_labels,
      ===_iff label_complexity2 label_complexity1,
      ===_iff label_complexity3 label_complexity1,
    )

needs_tier_one_promotion_lem :
    (labels : List String)
    → includes labels label_complexity1 ≡ true
    → includes labels label_complexity2 ≡ false
    → includes labels label_complexity3 ≡ false
    → needs_tier_one_promotion labels ≡ false
unfolding needs_tier_one_promotion ◌===◌
needs_tier_one_promotion_lem labels a b c = ground arith

-- A second promotion finds nothing to do: the patch of a promoted issue is empty.
pub needs_tier_one_promotion-promoted :
    (labels : List String)
    → needs_tier_one_promotion (apply_patch (promote_to_tier_one_patch labels) labels) ≡ false
needs_tier_one_promotion-promoted labels =
    needs_tier_one_promotion_lem (apply_patch (promote_to_tier_one_patch labels) labels)
      (at label_complexity1 ∙ unfold ◌===◌ in refl) (at label_complexity2 ∙ unfold ◌===◌ in refl)
      (at label_complexity3 ∙ unfold ◌===◌ in refl)
  where
    at :
        (s : String)
        → includes (apply_patch (promote_to_tier_one_patch labels) labels) s ≡ (
            if label_complexity1 === s
            then true
            else if label_complexity2 === s || label_complexity3 === s
            then false
            else includes labels s)
    at = includes-promote_to_tier_one_patch labels

-- On an issue with no complexity label, the tier label that the daemon writes is read back as that
-- tier.
read_tier-tier_label_for :
    (labels : List String) (t : ComplexityTier)
    → read_tier labels ≡ none
    → read_tier (labels ++ tier_label_for t ∷ []) ≡ some t
unfolding read_tier tier_label_for ◌===◌
read_tier-tier_label_for labels tier1 h = ground (
  arith,
  any-append (λ x. x === label_complexity1) labels (label_complexity1 ∷ []),
  any-append (λ x. x === label_complexity2) labels (label_complexity1 ∷ []),
  any-append (λ x. x === label_complexity3) labels (label_complexity1 ∷ []),
)
read_tier-tier_label_for labels tier2 h = ground (
  arith,
  any-append (λ x. x === label_complexity1) labels (label_complexity2 ∷ []),
  any-append (λ x. x === label_complexity2) labels (label_complexity2 ∷ []),
  any-append (λ x. x === label_complexity3) labels (label_complexity2 ∷ []),
)
read_tier-tier_label_for labels tier3 h = ground (
  arith,
  any-append (λ x. x === label_complexity1) labels (label_complexity3 ∷ []),
  any-append (λ x. x === label_complexity2) labels (label_complexity3 ∷ []),
  any-append (λ x. x === label_complexity3) labels (label_complexity3 ∷ []),
)
