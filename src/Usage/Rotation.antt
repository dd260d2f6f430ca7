-- ===== src/Usage/Rotation.antt =====
-- core/usage.ts `pickActiveToken`: which login new sessions bind to.
use ralph_autopilot.Common.{
  ℕ, zero, suc, ◌+◌, ◌-◌, ◌%◌, ◌≤◌, ◌<◌, ◌≡◌, refl, subst, ap, ◌∙◌, Option-cases, Bool, true, false,
  not, ◌&&◌, ◌||◌, ltb, leb, ◌===◌, String, Option, none, some, List, [], ◌∷◌, All, length, inl,
  inr, if◌then◌else◌, arith,
}
use native.Mathlib.Decide.{dec_le}
use ralph_autopilot.Usage.{UsageState, is_token_gated, holds_of}

pub record RotationInput : Type 0 where
  pub ids : List String
  pub states : String → Option UsageState
  pub active_id : String
  pub last_rotate_ms : ℕ
  pub now_ms : ℕ
  pub admit_below_percent : ℕ
  pub rotate_every_ms : Option ℕ

pub record Rotation : Type 0 where
  pub active_id : String
  pub last_rotate_ms : ℕ

abbrev id_at : List String → ℕ → String
id_at [] n = ""
id_at (x ∷ xs) zero = x
id_at (x ∷ xs) (suc n) = id_at xs n

-- `ids.indexOf(id) + 1`
abbrev place_of : String → List String → ℕ
place_of id [] = 0
place_of id (x ∷ xs) =
    let rest = place_of id xs in if x === id then 1 else if ltb 0 rest then rest + 1 else 0

abbrev pub token_gated : RotationInput → String → Bool
token_gated r id = is_token_gated (r.states id) r.now_ms r.admit_below_percent

abbrev timer_elapsed : RotationInput → Bool
timer_elapsed r = holds_of (λ every. leb (every + r.last_rotate_ms) r.now_ms) r.rotate_every_ms

-- The round robin: `rounds` of its steps are left, and `n` is the next place to look at.
unfoldable pub next_token : RotationInput → ℕ → ℕ → Option String
next_token r zero n = none
next_token r (suc rounds) n =
    let rest = next_token r rounds (n + 1) in
    let cand = id_at r.ids (n % length r.ids) in
    if not (cand === r.active_id) && not (token_gated r cand) then some cand else rest

abbrev rotate : RotationInput → Option String → Rotation
rotate r (some cand) = record { active_id = cand; last_rotate_ms = r.now_ms }
rotate r none = record {
  active_id = r.active_id;
  last_rotate_ms = if timer_elapsed r then r.now_ms else r.last_rotate_ms;
}

abbrev pick_among : RotationInput → Rotation
pick_among r =
    if token_gated r r.active_id || timer_elapsed r
    then rotate r (next_token r (length r.ids) (place_of r.active_id r.ids))
    else (record { active_id = r.active_id; last_rotate_ms = r.last_rotate_ms })

abbrev pick_by_ids : List String → RotationInput → Rotation
pick_by_ids [] r = record { active_id = r.active_id; last_rotate_ms = r.last_rotate_ms }
pick_by_ids (id ∷ []) r = record { active_id = id; last_rotate_ms = r.last_rotate_ms }
pick_by_ids (id ∷ id' ∷ ids) r = pick_among r

unfoldable pub pick_active_token : RotationInput → Rotation
unfolding next_token
pick_active_token r = pick_by_ids r.ids r

abbrev unusable : RotationInput → String → Bool
unusable r id = id === r.active_id || token_gated r id

next_token-none :
    (r : RotationInput) (rounds n k : ℕ)
    → next_token r rounds n ≡ none
    → k < rounds
    → unusable r (id_at r.ids ((n + k) % length r.ids)) ≡ true
unfolding next_token
next_token-none r zero n k h l = elim l [ ]
next_token-none r (suc rounds) n zero h l = ground arith
next_token-none r (suc rounds) n (suc k) h l =
    let e : n + suc k ≡ n + 1 + k = omega arith in
    rw e (next_token-none r rounds (n + 1) k (ground arith) (omega arith))

next_token-some :
    (r : RotationInput) (rounds n : ℕ) (id : String)
    → next_token r rounds n ≡ some id
    → unusable r id ≡ false
unfolding next_token
next_token-some r zero n id h = cc
next_token-some r (suc rounds) n id h = ground (arith, next_token-some r rounds (n + 1) id)

place_of-le : (id : String) (ids : List String) → place_of id ids ≤ length ids
place_of-le id [] = omega arith
place_of-le id (x ∷ xs) = ground (arith, place_of-le id xs)

All_of_id_at :
    (p : String → Bool) (xs : List String)
    → ((j : ℕ) → j < length xs → p (id_at xs j) ≡ true)
    → All (λ x. p x ≡ true) xs
All_of_id_at p [] h = tt
All_of_id_at p (x ∷ xs) h = (h 0 (omega arith), All_of_id_at p xs (λ j l. h (suc j) (omega arith)))

place_mod : {n j len : ℕ} → n ≡ j → j < len → n % len ≡ j
place_mod e l = rw e (grind arith)

place_mod_again : {n j len : ℕ} → n ≡ j + len → j < len → n % len ≡ j
place_mod_again e l = rw e (grind arith)

-- From any place, the steps of the round robin reach every index.
round_reaches :
    (start len j : ℕ) → start ≤ len → j < len → (k : ℕ) × (k < len) × ((start + k) % len ≡ j)
round_reaches start len j s l = elim (dec_le start j) [
  | yes h ↦ (j - start, omega arith, place_mod (omega arith) l)
  | no h ↦ (j + len - start, omega arith, place_mod_again (omega arith) l)
]

next_token-none-All :
    (r : RotationInput)
    → next_token r (length r.ids) (place_of r.active_id r.ids) ≡ none
    → All (λ id. unusable r id ≡ true) r.ids
next_token-none-All r h = All_of_id_at (unusable r) r.ids λ j l.
    let (k, kl, e) =
      round_reaches (place_of r.active_id r.ids) (length r.ids) j (place_of-le r.active_id r.ids)
        l in
    subst (λ i. unusable r (id_at r.ids i) ≡ true) e
      (next_token-none r (length r.ids) (place_of r.active_id r.ids) k h kl)

pick_by_ids-among :
    (ids : List String) (r : RotationInput) → 2 ≤ length ids → pick_by_ids ids r ≡ pick_among r
pick_by_ids-among [] r h = absurd (omega arith)
pick_by_ids-among (x ∷ []) r h = absurd (omega arith)
pick_by_ids-among (x ∷ y ∷ ids) r h = refl

pick_among-gated :
    (r : RotationInput)
    → token_gated r (pick_among r).active_id ≡ true
    → (next_token r (length r.ids) (place_of r.active_id r.ids) ≡ none)
      × ((pick_among r).active_id ≡ r.active_id)
pick_among-gated r h =
    elim (Option-cases (next_token r (length r.ids) (place_of r.active_id r.ids))) [
      | inl e ↦ (e, ground arith)
      | inr (cand, e) ↦
          absurd
            (ground (arith, next_token-some r (length r.ids) (place_of r.active_id r.ids) cand))
    ]

-- Among several logins one without headroom is picked only where it is the active one already and
-- every other login of the list has none either.
pub pick_active_token-gated :
    (r : RotationInput)
    → 2 ≤ length r.ids
    → token_gated r (pick_active_token r).active_id ≡ true
    → ((pick_active_token r).active_id ≡ r.active_id)
      × All (λ id. (id === r.active_id || token_gated r id) ≡ true) r.ids
unfolding pick_active_token
pick_active_token-gated r two h =
    let e = pick_by_ids-among r.ids r two in
    let (empty, same) =
      pick_among-gated r (subst (λ (o : Rotation). token_gated r o.active_id ≡ true) e h) in
    (ap (λ (o : Rotation). o.active_id) e ∙ same, next_token-none-All r empty)
