-- ===== src/Usage/Reset.antt =====
-- core/usage.ts `soonestReset`: the time at which a refused login could have headroom again.
use ralph_autopilot.Common.{
  ℕ, ◌≤◌, ◌<◌, ◌≡◌, refl, true, false, ◌&&◌, ltb, Option, none, some, List, [], ◌∷◌, foldl, any,
  All, if◌then◌else◌, arith,
}
use ralph_autopilot.Usage.{
  Windows, UsageState, at_limit, holds_of, usage_gate, get_or, state_or_empty,
}
use ralph_autopilot.Usage.Gate.{is_live, gates, cooldown_runs, usage_gate-admit}

abbrev min : ℕ → ℕ → ℕ
min a b = if ltb b a then b else a

-- The resets of the windows at the threshold that lie ahead.
unfoldable pub window_resets : ℕ → ℕ → Windows → List ℕ
window_resets now threshold [] = []
window_resets now threshold ((k, w) ∷ ws) =
    let rest = window_resets now threshold ws in
    if at_limit threshold w && holds_of (λ t. ltb now t) w.resets_at_ms
    then get_or w.resets_at_ms 0 ∷ rest
    else rest

unfoldable pub candidates : UsageState → ℕ → ℕ → List ℕ
unfolding window_resets
candidates s now threshold =
    let rest = window_resets now threshold s.windows in
    if cooldown_runs s now then get_or s.cooldown_until_ms 0 ∷ rest else rest

unfoldable pub earliest : List ℕ → Option ℕ
earliest [] = none
earliest (c ∷ cs) = some (foldl min c cs)

unfoldable pub soonest_reset : Option UsageState → ℕ → ℕ → Option ℕ
unfolding candidates earliest
soonest_reset state now threshold = earliest (candidates (state_or_empty state) now threshold)

-- `u` comes before the reported time, or none is reported.
abbrev IsBefore : ℕ → Option ℕ → Type 0
IsBefore u none = Unit
IsBefore u (some t) = u < t

lt-foldl-min : (u c : ℕ) (cs : List ℕ) → u < foldl min c cs → (u < c) × All (λ d. u < d) cs
lt-foldl-min u c [] h = (h, tt)
lt-foldl-min u c (d ∷ cs) h =
    let (p, q) = lt-foldl-min u (min c d) cs h in (ground arith, (ground arith, q))

earliest-All : (u : ℕ) (cs : List ℕ) → IsBefore u (earliest cs) → All (λ d. u < d) cs
unfolding earliest
earliest-All u [] h = tt
earliest-All u (c ∷ cs) h = lt-foldl-min u c cs h

gates_still :
    (now u threshold : ℕ) (ws : Windows)
    → now ≤ u
    → All (λ d. u < d) (window_resets now threshold ws)
    → any (gates now threshold) ws ≡ true
    → any (gates u threshold) ws ≡ true
unfolding window_resets
gates_still now u threshold [] l a h = h
gates_still now u threshold ((k, w) ∷ ws) l a h = ground (arith, gates_still now u threshold ws l)

dead_still :
    (now u : ℕ) (ws : Windows) → now ≤ u → any (is_live now) ws ≡ false → any (is_live u) ws ≡ false
dead_still now u [] l h = refl
dead_still now u ((k, w) ∷ ws) l h = ground (arith, dead_still now u ws l)

-- Without a new signal, a login that is refused at one time is refused at every later time before
-- the reset that is reported then, and for ever where none is reported.
pub soonest_reset-usage_gate :
    (s : UsageState) (now u threshold : ℕ)
    → now ≤ u
    → (usage_gate s now threshold).admit ≡ false
    → IsBefore u (soonest_reset (some s) now threshold)
    → (usage_gate s u threshold).admit ≡ false
unfolding soonest_reset candidates
soonest_reset-usage_gate s now u threshold l refused b = ground (
  arith,
  usage_gate-admit s now threshold,
  usage_gate-admit s u threshold,
  gates_still now u threshold s.windows l,
  dead_still now u s.windows l,
  earliest-All u (candidates s now threshold) b,
)
