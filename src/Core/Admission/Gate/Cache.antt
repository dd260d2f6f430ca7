-- ===== src/Core/Admission/Gate/Cache.antt =====
-- The dependency cache: what it answers, and how often it asks.
use ralph_autopilot.Common.{
  ℕ, ◌≡◌, refl, Bool, some, List, [], ◌∷◌, any, any-append, length, is_some, arith, ◌==◌, inl, inr,
  Bool-cases, Option-cases,
}
use ralph_autopilot.Common.Distinct.{IsDistinct, IsDistinct-snoc}
use ralph_autopilot.Store.Types.{BacklogBlockerRef, local}
use ralph_autopilot.Core.Admission.Gate.{Port, DepCache, cached, resolve_dep, resolve_refs}

abbrev pub same_number : ℕ → ℕ → Bool
same_number m n = m == n

-- No number was asked twice, an answer is known exactly for the numbers that were asked, and it is
-- an answer that GitHub gave.
pub record IsFaithful (port : Port) (c : DepCache) : Type 0 where
  pub distinct : IsDistinct same_number c.calls
  pub known : (n : ℕ) → is_some (cached n c.cache) ≡ any (λ m. m == n) c.calls
  pub truthful : (n : ℕ) (b : Bool) → cached n c.cache ≡ some b → (t : ℕ) × (port t n ≡ b)

resolve_dep-IsFaithful :
    (port : Port) (c : DepCache) (n : ℕ)
    → IsFaithful port c
    → IsFaithful port (resolve_dep port c n).1
unfolding resolve_dep cached
resolve_dep-IsFaithful port c n h = elim (Option-cases (cached n c.cache)) [
  | inr (b, e) ↦ rw e h
  | inl e ↦ rw e (record {
    distinct =
        IsDistinct-snoc same_number (λ a b. ground arith) c.calls n h.distinct
          (ground (arith, h.known n));
    known = λ k. ground (arith, h.known k, any-append (λ m. m == k) c.calls (n ∷ []));
    truthful = λ k b p. elim (Bool-cases (n == k)) [
      | inl q ↦ (length c.calls, ground arith)
      | inr q ↦ h.truthful k b (ground arith)
    ];
  })
]

pub resolve_refs-IsFaithful :
    (port : Port) (c : DepCache) (ns : List ℕ)
    → IsFaithful port c
    → IsFaithful port (resolve_refs port c ns).1
unfolding resolve_refs
resolve_refs-IsFaithful port c [] h = h
resolve_refs-IsFaithful port c (n ∷ ns) h =
    resolve_refs-IsFaithful port (resolve_dep port c n).1 ns (resolve_dep-IsFaithful port c n h)

-- The answer for a number is one that GitHub gave.
answer_given :
    (port : Port) (c : DepCache) (n : ℕ)
    → IsFaithful port c
    → (t : ℕ) × (port t n ≡ (resolve_dep port c n).0)
unfolding resolve_dep
answer_given port c n h = elim (Option-cases (cached n c.cache)) [
  | inr (b, e) ↦ rw e (h.truthful n b e)
  | inl e ↦ rw e (length c.calls, refl)
]

-- What a resolved blocker says, for the reference that it is about.
abbrev Answers : Port → ℕ → BacklogBlockerRef → Type 0
Answers port n b = (b.ref ≡ local n) × ((t : ℕ) × (port t n ≡ b.satisfied))

abbrev pub AllAnswer : Port → List ℕ → List BacklogBlockerRef → Type 0
AllAnswer port [] [] = Unit
AllAnswer port [] (b ∷ bs) = ⊥
AllAnswer port (n ∷ ns) [] = ⊥
AllAnswer port (n ∷ ns) (b ∷ bs) = Answers port n b × AllAnswer port ns bs

pub resolve_refs-AllAnswer :
    (port : Port) (c : DepCache) (ns : List ℕ)
    → IsFaithful port c
    → AllAnswer port ns (resolve_refs port c ns).0
unfolding resolve_refs
resolve_refs-AllAnswer port c [] h = tt
resolve_refs-AllAnswer port c (n ∷ ns) h = (
  (refl, answer_given port c n h),
  resolve_refs-AllAnswer port (resolve_dep port c n).1 ns (resolve_dep-IsFaithful port c n h),
)
