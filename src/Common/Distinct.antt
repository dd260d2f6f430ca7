-- ===== src/Common/Distinct.antt =====
-- Lists without repetition up to a Boolean equality, and invariants of a fold.
use mathlib.Core.Path.{◌≡◌, refl, ◌∙◌}
use mathlib.Core.Bool.{Bool, false}
use mathlib.Core.List.{List, [], ◌∷◌, ◌++◌, foldl}
use native.Mathlib.Omega.{arith}
use ralph_autopilot.Common.Lists.{any, any-append}

module _ {ℓ} {A : Type ℓ} (eq : A → A → Bool) where
  -- No element equals a later one.
  abbrev pub IsDistinct : List A → Type 0
  IsDistinct [] = Unit
  IsDistinct (x ∷ xs) = (any (λ y. eq y x) xs ≡ false) × IsDistinct xs

  pub IsDistinct-snoc :
      ((a b : A) → eq a b ≡ eq b a)
      → (xs : List A) (n : A) → IsDistinct xs
      → any (λ m. eq m n) xs ≡ false
      → IsDistinct (xs ++ n ∷ [])
  IsDistinct-snoc sym [] n d h = (refl, tt)
  IsDistinct-snoc sym (x ∷ xs) n d h = (
    any-append (λ y. eq y x) xs (n ∷ []) ∙ ground (arith, d.0, h, sym x n),
    IsDistinct-snoc sym xs n d.1 (ground arith),
  )

module _ {ℓ} {A : Type ℓ} (eq : A → A → Bool) where
  -- In a list without repetition an element is new to what stands before it.
  pub new_of_distinct :
      ((a b : A) → eq a b ≡ eq b a)
      → (before : List A) (n : A) (after : List A) → IsDistinct eq (before ++ n ∷ after)
      → any (λ m. eq m n) before ≡ false
  new_of_distinct sym [] n after d = refl
  new_of_distinct sym (x ∷ xs) n after d = ground (
    arith,
    any-append (λ y. eq y x) xs (n ∷ after),
    sym x n,
    new_of_distinct sym xs n after d.1,
    d.0,
  )

-- What every step keeps, the whole fold keeps.
pub foldl_inv {ℓ κ ν} :
    {A : Type ℓ} {S : Type κ} (P : S → Type ν) (f : S → A → S)
    → ((s : S) (a : A) → P s → P (f s a))
    → (xs : List A) (s : S) → P s
    → P (foldl f s xs)
foldl_inv P f keep [] s h = h
foldl_inv P f keep (x ∷ xs) s h = foldl_inv P f keep xs (f s x) (keep s x h)
