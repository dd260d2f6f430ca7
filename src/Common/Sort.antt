-- ===== src/Common/Sort.antt =====
-- `Array.prototype.sort` with a comparator: stable, so for a comparator that is a total preorder
-- its result is the one that insertion computes.
use mathlib.Core.Path.{◌≡◌, refl, ap, ◌∙◌}
use mathlib.Core.Logic.{inl, inr}
use mathlib.Core.Bool.{Bool, true, false, ◌||◌}
use native.Mathlib.Omega.{arith}
use mathlib.Core.List.{List, [], ◌∷◌, ◌++◌, Perm}
use mathlib.Core.List.Perm
use ralph_autopilot.Common.Tests.{if◌then◌else◌, Bool-cases}
use ralph_autopilot.Common.Lists.{All, All-map, any, flat, perm_swap}

module _ {ℓ} {A : Type ℓ} (le : A → A → Bool) where
  pub insert : A → List A → List A
  insert x [] = x ∷ []
  insert x (y ∷ ys) = let rest = insert x ys in if le x y then x ∷ y ∷ ys else y ∷ rest

  unfoldable pub sort : List A → List A
  unfolding insert
  sort [] = []
  sort (x ∷ xs) = insert x (sort xs)

  -- Every element comes before, or ties with, each one after it.
  abbrev pub IsSorted : List A → Type ℓ
  IsSorted [] = Unit
  IsSorted (x ∷ xs) = All (λ y. le x y ≡ true) xs × IsSorted xs

  insert-perm : (x : A) (ys : List A) → Perm (insert x ys) (x ∷ ys)
  unfolding insert
  insert-perm x [] = Perm.refl (x ∷ [])
  insert-perm x (y ∷ ys) = elim (Bool-cases (le x y)) [
    | inl e ↦ rw e (Perm.refl (x ∷ y ∷ ys))
    | inr e ↦ rw e (Perm.trans (Perm.cons y (insert-perm x ys)) (Perm.swap x y ys))
  ]

  -- Sorting keeps the elements.
  pub sort-perm : (xs : List A) → Perm (sort xs) xs
  unfolding sort
  sort-perm [] = Perm.refl []
  sort-perm (x ∷ xs) = Perm.trans (insert-perm x (sort xs)) (Perm.cons x (sort-perm xs))

  pub any-insert : (p : A → Bool) (x : A) (ys : List A) → any p (insert x ys) ≡ (p x || any p ys)
  unfolding insert
  any-insert p x [] = refl
  any-insert p x (y ∷ ys) = ground (arith, any-insert p x ys)

  -- A sort keeps what some element passes.
  pub any-sort : (p : A → Bool) (xs : List A) → any p (sort xs) ≡ any p xs
  unfolding sort
  any-sort p [] = refl
  any-sort p (x ∷ xs) = any-insert p x (sort xs) ∙ ap (λ b. p x || b) (any-sort p xs)

  pub All-insert {κ} : (P : A → Type κ) (x : A) (ys : List A) → P x → All P ys → All P (insert x ys)
  unfolding insert
  All-insert P x [] hx h = (hx, tt)
  All-insert P x (y ∷ ys) hx h = elim (Bool-cases (le x y)) [
    | inl e ↦ rw e (hx, h)
    | inr e ↦ rw e (h.0, All-insert P x ys hx h.1)
  ]

  pub All-sort {κ} : (P : A → Type κ) (xs : List A) → All P xs → All P (sort xs)
  unfolding sort
  All-sort P [] h = tt
  All-sort P (x ∷ xs) h = All-insert P x (sort xs) h.0 (All-sort P xs h.1)

  -- What the elements hold is kept, in some order.
  insert-flat {κ} :
      {B : Type κ} (f : A → List B) (x : A) (ys : List A)
      → Perm (flat f (insert x ys)) (f x ++ flat f ys)
  unfolding insert
  insert-flat f x [] = Perm.refl (f x ++ [])
  insert-flat f x (y ∷ ys) = elim (Bool-cases (le x y)) [
    | inl e ↦ rw e (Perm.refl (f x ++ (f y ++ flat f ys)))
    | inr e ↦ rw e (
        Perm.trans (Perm.append_left (f y) (insert-flat f x ys))
          (perm_swap (f y) (f x) (flat f ys)))
  ]

  pub sort-flat {κ} :
      {B : Type κ} (f : A → List B) (xs : List A) → Perm (flat f (sort xs)) (flat f xs)
  unfolding sort
  sort-flat f [] = Perm.refl []
  sort-flat f (x ∷ xs) =
      Perm.trans (insert-flat f x (sort xs)) (Perm.append_left (f x) (sort-flat f xs))

  module _ (total : (x y : A) → le x y ≡ false → le y x ≡ true)
      (trans : (x y z : A) → le x y ≡ true → le y z ≡ true → le x z ≡ true) where
    insert-IsSorted : (x : A) (ys : List A) → IsSorted ys → IsSorted (insert x ys)
    unfolding insert
    insert-IsSorted x [] h = (tt, tt)
    insert-IsSorted x (y ∷ ys) h = elim (Bool-cases (le x y)) [
      | inl e ↦ rw e ((e, All-map ys (λ z p. trans x y z e p) h.0), h)
      | inr e ↦
          rw e (All-insert (λ z. le y z ≡ true) x ys (total x y e) h.0, insert-IsSorted x ys h.1)
    ]

    -- The result is in order.
    pub sort-IsSorted : (xs : List A) → IsSorted (sort xs)
    unfolding sort
    sort-IsSorted [] = tt
    sort-IsSorted (x ∷ xs) = insert-IsSorted x (sort xs) (sort-IsSorted xs)
