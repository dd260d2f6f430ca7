-- ===== src/Ledger/Groups.antt =====
-- A JavaScript `Map` from a key to the list of the entries that have it, filled in one pass: the
-- buckets stand in the order in which their keys came.
use mathlib.Core.List.{Perm, perm_middle, perm_append_singleton}
use mathlib.Core.List.Perm
use ralph_autopilot.Common.{
  ◌≡◌, refl, sym, ap, ◌∙◌, Bool, false, ◌||◌, List, [], ◌∷◌, ◌++◌, append_assoc, append-nil, foldl,
  flat, filter, any, All, All-map, subst, Text, text_eq, text_eq_iff, text_eq_refl, arith, inl, inr,
  Bool-cases, if◌then◌else◌,
}
use ralph_autopilot.Common.Distinct.{IsDistinct}

pub record Bucket {ℓ} (A : Type ℓ) : Type ℓ where
  pub key : Text
  pub claims : List A

module _ {ℓ} {A : Type ℓ} where
  abbrev pub all_claims : List (Bucket A) → List A
  all_claims bs = flat (λ (b : Bucket A). b.claims) bs

module _ {ℓ} {A : Type ℓ} (key_of : A → Text) where
  pub add_to : List (Bucket A) → A → List (Bucket A)
  add_to [] x = record { key = key_of x; claims = x ∷ [] } ∷ []
  add_to (b ∷ bs) x =
      let rest = add_to bs x in
      if text_eq b.key (key_of x) then record b { claims = b.claims ++ x ∷ [] } ∷ bs else b ∷ rest

  unfoldable pub group_by : List A → List (Bucket A)
  unfolding add_to
  group_by xs = foldl add_to [] xs

  -- What stands in the first bucket with a key.
  pub claims_at : Text → List (Bucket A) → List A
  claims_at k [] = []
  claims_at k (b ∷ bs) = let rest = claims_at k bs in if text_eq b.key k then b.claims else rest

  abbrev pub same_bucket : Bucket A → Bucket A → Bool
  same_bucket a b = text_eq a.key b.key

  text_eq_swap : (s t : Text) → text_eq s t ≡ text_eq t s
  text_eq_swap s t = ground (arith, text_eq_iff s t, text_eq_iff t s)

  added :
      (k : Text) (bs : List (Bucket A)) (x : A)
      → claims_at k (add_to bs x)
        ≡ (if text_eq (key_of x) k then claims_at k bs ++ x ∷ [] else claims_at k bs)
  unfolding claims_at add_to
  added k [] x = ground arith
  added k (b ∷ bs) x = elim (Bool-cases (text_eq b.key (key_of x))) [
    | inl e ↦
        let s : text_eq b.key k ≡ text_eq (key_of x) k =
          ap (λ t. text_eq t k) ((text_eq_iff b.key (key_of x)).0 e) in
        ground (arith, s)
    | inr e ↦ ground (
      arith,
      added k bs x,
      text_eq_iff b.key k,
      text_eq_iff (key_of x) k,
      text_eq_iff b.key (key_of x),
    )
  ]

  filter_snoc :
      (k : Text) (xs : List A) (x : A)
      → filter (λ y. text_eq (key_of y) k) (xs ++ x ∷ []) ≡ (
          if text_eq (key_of x) k
          then filter (λ y. text_eq (key_of y) k) xs ++ x ∷ []
          else filter (λ y. text_eq (key_of y) k) xs)
  filter_snoc k [] x = refl
  filter_snoc k (y ∷ xs) x = ground (arith, filter_snoc k xs x)

  keys_added :
      (k : Text) (bs : List (Bucket A)) (x : A)
      → any (λ b. text_eq b.key k) (add_to bs x)
        ≡ (any (λ b. text_eq b.key k) bs || text_eq (key_of x) k)
  unfolding add_to
  keys_added k [] x = ground arith
  keys_added k (b ∷ bs) x = elim (Bool-cases (text_eq b.key (key_of x))) [
    | inl e ↦
        let s : text_eq b.key k ≡ text_eq (key_of x) k =
          ap (λ t. text_eq t k) ((text_eq_iff b.key (key_of x)).0 e) in
        ground (arith, s)
    | inr e ↦ ground (arith, keys_added k bs x)
  ]

  add_to-IsDistinct :
      (bs : List (Bucket A)) (x : A)
      → IsDistinct same_bucket bs
      → IsDistinct same_bucket (add_to bs x)
  unfolding add_to
  add_to-IsDistinct [] x d = (refl, tt)
  add_to-IsDistinct (b ∷ bs) x d = elim (Bool-cases (text_eq b.key (key_of x))) [
    | inl e ↦ ground (arith, d)
    | inr e ↦ rw e (
      ground (arith, keys_added b.key bs x, text_eq_swap b.key (key_of x), d.0),
      add_to-IsDistinct bs x d.1,
    )
  ]

  add_to-perm : (bs : List (Bucket A)) (x : A) → Perm (all_claims (add_to bs x)) (x ∷ all_claims bs)
  unfolding add_to
  add_to-perm [] x = Perm.refl (x ∷ [])
  add_to-perm (b ∷ bs) x = elim (Bool-cases (text_eq b.key (key_of x))) [
    | inl e ↦
        rw (e, append_assoc b.claims (x ∷ []) (all_claims bs))
          (perm_middle b.claims (all_claims bs))
    | inr e ↦ rw e (
        Perm.trans (Perm.append_left b.claims (add_to-perm bs x))
          (perm_middle b.claims (all_claims bs)))
  ]

  -- The buckets are those of a list: each key once, with the entries that have it in their order,
  -- and no entry lost.
  pub record IsGrouping (xs : List A) (bs : List (Bucket A)) : Type ℓ where
    pub finds : (k : Text) → claims_at k bs ≡ filter (λ x. text_eq (key_of x) k) xs
    pub distinct : IsDistinct same_bucket bs
    pub entries : Perm (all_claims bs) xs

  add_to-IsGrouping :
      (xs : List A) (bs : List (Bucket A)) (x : A)
      → IsGrouping xs bs
      → IsGrouping (xs ++ x ∷ []) (add_to bs x)
  add_to-IsGrouping xs bs x g = record {
    finds = λ k. ground (arith, added k bs x, filter_snoc k xs x, g.finds k);
    distinct = add_to-IsDistinct bs x g.distinct;
    entries =
        Perm.trans (add_to-perm bs x)
          (Perm.trans (Perm.cons x g.entries) (Perm.symm (perm_append_singleton x xs)));
  }

  pub group_by-IsGrouping : (xs : List A) → IsGrouping xs (group_by xs)
  unfolding group_by claims_at
  group_by-IsGrouping xs =
      go [] xs [] (record { finds = λ k. refl; distinct = tt; entries = Perm.refl [] })
    where
      go :
          (before xs : List A) (bs : List (Bucket A))
          → IsGrouping before bs
          → IsGrouping (before ++ xs) (foldl add_to bs xs)
      go before [] bs g = rw (append-nil before) g
      go before (x ∷ xs) bs g =
          subst (λ (l : List A). IsGrouping l (foldl add_to (add_to bs x) xs))
            (append_assoc before (x ∷ []) xs)
            (go (before ++ x ∷ []) xs (add_to bs x) (add_to-IsGrouping before bs x g))

  apart :
      (b : Bucket A) (bs : List (Bucket A))
      → any (λ c. text_eq c.key b.key) bs ≡ false
      → All (λ (c : Bucket A). text_eq b.key c.key ≡ false) bs
  apart b [] h = tt
  apart b (c ∷ bs) h = (ground (arith, text_eq_swap b.key c.key), apart b bs (ground arith))

  at_key :
      (bs : List (Bucket A))
      → IsDistinct same_bucket bs
      → All (λ (b : Bucket A). claims_at b.key bs ≡ b.claims) bs
  unfolding claims_at
  at_key [] d = tt
  at_key (b ∷ bs) d = (rw (text_eq_refl b.key) refl, both bs (apart b bs d.0) (at_key bs d.1))
    where
      both :
          (cs : List (Bucket A))
          → All (λ (c : Bucket A). text_eq b.key c.key ≡ false) cs
          → All (λ (c : Bucket A). claims_at c.key bs ≡ c.claims) cs
          → All (λ (c : Bucket A). claims_at c.key (b ∷ bs) ≡ c.claims) cs
      both [] p q = tt
      both (c ∷ cs) p q = (rw (p.0) (q.0), both cs p.1 q.1)

  -- A bucket holds every entry with its key.
  pub bucket_claims :
      (xs : List A) (bs : List (Bucket A))
      → IsGrouping xs bs
      → All (λ (b : Bucket A). b.claims ≡ filter (λ x. text_eq (key_of x) b.key) xs) bs
  bucket_claims xs bs g = All-map bs (λ b e. sym e ∙ g.finds b.key) (at_key bs g.distinct)
