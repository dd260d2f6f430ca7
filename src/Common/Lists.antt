-- ===== src/Common/Lists.antt =====
-- Lists measured and searched by Boolean tests: `length`, `slice(0, n)`, `some`, `filter`,
-- `includes` of JavaScript arrays.
use Prim.Native.Nat.{ℕ, zero, suc, ◌+◌, min}
use Prim.Native.String.{String}
use mathlib.Core.Path.{◌≡◌, refl, subst}
use mathlib.Core.Logic.{inl, inr}
use mathlib.Core.Bool.{Bool, false, not, ◌||◌}
use mathlib.Core.Option.{Option, none, some}
use mathlib.Core.List.{List, [], ◌∷◌, ◌++◌, Perm, perm_middle, perm_append_comm, append_assoc}
use mathlib.Core.List.Perm
use native.Mathlib.Omega.{arith}
use ralph_autopilot.Common.Tests.{if◌then◌else◌, Bool-cases, ◌===◌}

module _ {ℓ} {A : Type ℓ} where
  abbrev pub length : List A → ℕ
  length [] = 0
  length (x ∷ xs) = suc (length xs)

  abbrev pub take : ℕ → List A → List A
  take zero xs = []
  take (suc n) [] = []
  take (suc n) (x ∷ xs) = x ∷ take n xs

  -- `xs.some(p)`
  abbrev pub any : (A → Bool) → List A → Bool
  any p [] = false
  any p (x ∷ xs) = p x || any p xs

  -- `xs.filter(p)`
  abbrev pub filter : (A → Bool) → List A → List A
  filter p [] = []
  filter p (x ∷ xs) = let rest = filter p xs in if p x then x ∷ rest else rest

  -- `xs.find(p)`
  abbrev pub find : (A → Bool) → List A → Option A
  find p [] = none
  find p (x ∷ xs) = let rest = find p xs in if p x then some x else rest

  -- `P` holds of every element.
  abbrev pub All {κ} : (A → Type κ) → List A → Type κ
  All P [] = Unit
  All P (x ∷ xs) = P x × All P xs

module _ {ℓ} {A : Type ℓ} where
  pub length-append : (xs ys : List A) → length (xs ++ ys) ≡ length xs + length ys
  length-append [] ys = omega arith
  length-append (x ∷ xs) ys = omega (arith, length-append xs ys)

  pub length-take : (n : ℕ) (xs : List A) → length (take n xs) ≡ min n (length xs)
  length-take zero xs = omega arith
  length-take (suc n) [] = omega arith
  length-take (suc n) (x ∷ xs) = omega (arith, length-take n xs)

  pub any-append : (p : A → Bool) (xs ys : List A) → any p (xs ++ ys) ≡ (any p xs || any p ys)
  any-append p [] ys = refl
  any-append p (x ∷ xs) ys = ground (arith, any-append p xs ys)

  pub All-append {κ} : (P : A → Type κ) (xs ys : List A) → All P xs → All P ys → All P (xs ++ ys)
  All-append P [] ys hx hy = hy
  All-append P (x ∷ xs) ys hx hy = (hx.0, All-append P xs ys hx.1 hy)

  pub All-map {κ ν} :
      {P : A → Type κ} {Q : A → Type ν} (xs : List A) → ((x : A) → P x → Q x) → All P xs → All Q xs
  All-map [] h a = tt
  All-map (x ∷ xs) h a = (h x a.0, All-map xs h a.1)

  pub All-take {κ} : (P : A → Type κ) (n : ℕ) (xs : List A) → All P xs → All P (take n xs)
  All-take P zero xs h = tt
  All-take P (suc n) [] h = tt
  All-take P (suc n) (x ∷ xs) h = (h.0, All-take P n xs h.1)

  -- A split by a test loses and repeats nothing.
  pub filter-perm :
      (p : A → Bool) (xs : List A) → Perm (filter p xs ++ filter (λ x. not (p x)) xs) xs
  filter-perm p [] = Perm.refl []
  filter-perm p (x ∷ xs) = elim (Bool-cases (p x)) [
    | inl e ↦ rw e (Perm.cons x (filter-perm p xs))
    | inr e ↦ rw e (
        Perm.trans (perm_middle (filter p xs) (filter (λ y. not (p y)) xs))
          (Perm.cons x (filter-perm p xs)))
  ]

-- `xs.includes(s)` on an array of strings.
abbrev pub includes : List String → String → Bool
includes xs s = any (λ x. x === s) xs

-- `xs.flatMap(f)`
abbrev pub flat {ℓ κ} : {A : Type ℓ} {B : Type κ} → (A → List B) → List A → List B
flat f [] = []
flat f (x ∷ xs) = f x ++ flat f xs

-- Two parts in front of each other change places.
pub perm_swap {ℓ} : {A : Type ℓ} (xs ys zs : List A) → Perm (xs ++ (ys ++ zs)) (ys ++ (xs ++ zs))
perm_swap xs ys zs =
    subst (λ (l : List _). Perm l (ys ++ (xs ++ zs))) (append_assoc xs ys zs)
      (subst (λ (l : List _). Perm ((xs ++ ys) ++ zs) l) (append_assoc ys xs zs)
        (Perm.append_right zs (perm_append_comm xs ys)))
