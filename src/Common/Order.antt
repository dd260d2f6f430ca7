-- ===== src/Common/Order.antt =====
-- Comparators: what `Array.prototype.sort` asks of one, and how the program builds its own, by
-- comparing one key and, on a tie, the next.
use Prim.Native.Nat.{ℕ, compare, Ordering}
use mathlib.Core.Path.{◌≡◌, ap}
use mathlib.Core.Bool.{Bool, true, false}
use mathlib.Core.Option.{Option, none, some}
use native.Mathlib.Omega.{arith}
use ralph_autopilot.Common.Texts.{
  Text, swap, text_compare, text_compare-swap, text_compare_eq, text_compare_trans,
}

-- `c || d` on comparison results: the second decides a tie of the first.
abbrev pub then_by : Ordering → Ordering → Ordering
then_by Ordering.lt d = Ordering.lt
then_by Ordering.eq d = d
then_by Ordering.gt d = Ordering.gt

-- `compare(a, b) <= 0`
abbrev pub not_after : Ordering → Bool
not_after Ordering.gt = false
not_after _ = true

-- A total preorder, as the sign of a comparison.
pub record IsOrder {ℓ} {A : Type ℓ} (cmp : A → A → Ordering) : Type ℓ where
  pub swaps : (a b : A) → cmp b a ≡ swap (cmp a b)
  pub trans : (a b c : A) → cmp a b ≡ Ordering.lt → cmp b c ≡ Ordering.lt → cmp a c ≡ Ordering.lt
  pub ties : (a b c : A) → cmp a b ≡ Ordering.eq → cmp a c ≡ cmp b c

pub nat-IsOrder : IsOrder compare
nat-IsOrder = record {
  swaps = λ a b. ground arith;
  trans = λ a b c h k. ground arith;
  ties = λ a b c h. ground arith;
}

pub text-IsOrder : IsOrder text_compare
text-IsOrder = record {
  swaps = text_compare-swap;
  trans = text_compare_trans;
  ties = λ a b c h. ap (λ (s : Text). text_compare s c) (text_compare_eq a b h);
}

-- A rank that may be infinite, which `none` is.
abbrev pub rank_compare : Option ℕ → Option ℕ → Ordering
rank_compare none none = Ordering.eq
rank_compare none (some b) = Ordering.gt
rank_compare (some a) none = Ordering.lt
rank_compare (some a) (some b) = compare a b

pub rank-IsOrder : IsOrder rank_compare
rank-IsOrder = record {
  swaps = λ a b. ground arith;
  trans = λ a b c h k. ground arith;
  ties = λ a b c h. ground arith;
}

module _ {ℓ} {A : Type ℓ} where
  -- Comparing by a key.
  pub on-IsOrder {κ} :
      {B : Type κ} (cmp : B → B → Ordering) (key : A → B)
      → IsOrder cmp
      → IsOrder (λ (a b : A). cmp (key a) (key b))
  on-IsOrder cmp key h = record {
    swaps = λ a b. h.swaps (key a) (key b);
    trans = λ a b c. h.trans (key a) (key b) (key c);
    ties = λ a b c. h.ties (key a) (key b) (key c);
  }

  pub then_by-IsOrder :
      (cmp later : A → A → Ordering)
      → IsOrder cmp
      → IsOrder later
      → IsOrder (λ a b. then_by (cmp a b) (later a b))
  then_by-IsOrder cmp later h k = record {
    swaps = λ a b. ground (arith, h.swaps a b, k.swaps a b);
    trans = λ a b c p q. ground (
      arith,
      h.trans a b c,
      k.trans a b c,
      h.ties a b c,
      h.swaps b c,
      h.swaps a b,
      h.swaps a c,
      h.ties c b a,
    );
    ties = λ a b c p. ground (arith, h.ties a b c, k.ties a b c);
  }

  module _ (cmp : A → A → Ordering) (h : IsOrder cmp) where
    pub not_after_total : (a b : A) → not_after (cmp a b) ≡ false → not_after (cmp b a) ≡ true
    not_after_total a b p = ground (arith, h.swaps a b)

    pub not_after_trans :
        (a b c : A)
        → not_after (cmp a b) ≡ true
        → not_after (cmp b c) ≡ true
        → not_after (cmp a c) ≡ true
    not_after_trans a b c p q =
        ground
          (arith, h.trans a b c, h.ties a b c, h.ties c b a, h.swaps b c, h.swaps a b, h.swaps a c)
