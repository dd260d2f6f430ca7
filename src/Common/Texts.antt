-- ===== src/Common/Texts.antt =====
-- Strings that the program walks or orders, as their UTF-16 code units.
use Prim.Native.Nat.{ℕ, compare, Ordering}
use Prim.Native.Char.{code}
use Prim.Native.String.{String}
use mathlib.Core.Path.{◌≡◌, refl, subst}
use mathlib.Core.Logic.{◌↔◌}
use mathlib.Core.Bool.{Bool, true, false, ◌&&◌}
use mathlib.Core.List.{List, [], ◌∷◌}
use native.Mathlib.Omega.{arith}
use ralph_autopilot.Common.Tests.{◌==◌}

abbrev pub Text : Type 0
Text = List ℕ

-- A literal, as its code units (it holds no character beyond the basic plane).
abbrev pub codes : String → Text
codes String.[] = []
codes (String.◌∷◌ c s) = code c ∷ codes s

-- `<` and `>` between two strings: lexicographic by code unit.
unfoldable pub text_compare : Text → Text → Ordering
text_compare [] [] = Ordering.eq
text_compare [] (b ∷ t) = Ordering.lt
text_compare (a ∷ s) [] = Ordering.gt
text_compare (a ∷ s) (b ∷ t) =
    let rest = text_compare s t in
    elim (compare a b) [
      | Ordering.lt ↦ Ordering.lt
      | Ordering.eq ↦ rest
      | Ordering.gt ↦ Ordering.gt
    ]

abbrev pub swap : Ordering → Ordering
swap Ordering.lt = Ordering.gt
swap Ordering.eq = Ordering.eq
swap Ordering.gt = Ordering.lt

text_compare_refl : (s : Text) → text_compare s s ≡ Ordering.eq
unfolding text_compare
text_compare_refl [] = refl
text_compare_refl (a ∷ s) = ground (arith, text_compare_refl s)

pub text_compare-swap : (s t : Text) → text_compare t s ≡ swap (text_compare s t)
unfolding text_compare
text_compare-swap [] [] = refl
text_compare-swap [] (b ∷ t) = refl
text_compare-swap (a ∷ s) [] = refl
text_compare-swap (a ∷ s) (b ∷ t) = ground (arith, text_compare-swap s t)

pub text_compare_eq : (s t : Text) → text_compare s t ≡ Ordering.eq → s ≡ t
unfolding text_compare
text_compare_eq [] [] h = refl
text_compare_eq [] (b ∷ t) h = cc
text_compare_eq (a ∷ s) [] h = cc
text_compare_eq (a ∷ s) (b ∷ t) h = ground (arith, text_compare_eq s t)

pub text_compare_trans :
    (s t u : Text)
    → text_compare s t ≡ Ordering.lt
    → text_compare t u ≡ Ordering.lt
    → text_compare s u ≡ Ordering.lt
unfolding text_compare
text_compare_trans [] [] u h k = cc
text_compare_trans [] (b ∷ t) [] h k = cc
text_compare_trans [] (b ∷ t) (c ∷ u) h k = refl
text_compare_trans (a ∷ s) [] u h k = cc
text_compare_trans (a ∷ s) (b ∷ t) [] h k = cc
text_compare_trans (a ∷ s) (b ∷ t) (c ∷ u) h k = ground (arith, text_compare_trans s t u)

-- `===` between two such strings.
unfoldable pub text_eq : Text → Text → Bool
text_eq [] [] = true
text_eq (a ∷ s) (b ∷ t) = a == b && text_eq s t
text_eq _ _ = false

text_eq_sound : (s t : Text) → text_eq s t ≡ true → s ≡ t
unfolding text_eq
text_eq_sound [] [] h = refl
text_eq_sound [] (b ∷ t) h = cc
text_eq_sound (a ∷ s) [] h = cc
text_eq_sound (a ∷ s) (b ∷ t) h = ground (arith, text_eq_sound s t)

pub text_eq_refl : (s : Text) → text_eq s s ≡ true
unfolding text_eq
text_eq_refl [] = refl
text_eq_refl (a ∷ s) = ground (arith, text_eq_refl s)

pub text_eq_iff : (s t : Text) → (text_eq s t ≡ true) ↔ (s ≡ t)
text_eq_iff s t = (text_eq_sound s t, λ e. subst (λ u. text_eq s u ≡ true) e (text_eq_refl s))

pub text_eq_sym : (s t : Text) → text_eq s t ≡ text_eq t s
text_eq_sym s t = ground (arith, text_eq_iff s t, text_eq_iff t s)
