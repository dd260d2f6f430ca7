-- ===== src/Usage/Cooldown.antt =====
-- core/usage.ts: the cooldown over a stream of signals and of thrown limit errors.
use ralph_autopilot.Common.{
  ℕ, ◌+◌, ◌≡◌, refl, ap, ◌∙◌, Option, List, [], ◌∷◌, map, foldl, if◌then◌else◌, arith,
}
use ralph_autopilot.Usage.{
  UsageState, RateLimitSignal, record_rate_limit, trip_cooldown, get_or, is_rejected, reset_to_ms,
  default_cooldown_ms, max,
}

-- What reaches a login's usage picture.
pub data UsageInput : Type 0 where
  signal : RateLimitSignal → ℕ → UsageInput
  limit_error : Option ℕ → ℕ → UsageInput

pub fold_usage : UsageState → List UsageInput → UsageState
unfolding record_rate_limit trip_cooldown
fold_usage s [] = s
fold_usage s (signal r now ∷ is) = fold_usage (record_rate_limit s r now) is
fold_usage s (limit_error at now ∷ is) = fold_usage (trip_cooldown s at now) is

abbrev pub cooldown_end : UsageState → ℕ
cooldown_end s = get_or s.cooldown_until_ms 0

-- Until when one input asks for a pause: not at all, or to its reset, or for the default time.
abbrev pub asked_pause : UsageInput → ℕ
asked_pause (signal r now) =
    if is_rejected r.status then get_or (reset_to_ms r.resets_at) (now + default_cooldown_ms) else 0
asked_pause (limit_error at now) = get_or at (now + default_cooldown_ms)

record_rate_limit-cooldown_end :
    (s : UsageState) (r : RateLimitSignal) (now : ℕ)
    → cooldown_end (record_rate_limit s r now) ≡ max (cooldown_end s) (asked_pause (signal r now))
unfolding record_rate_limit
record_rate_limit-cooldown_end s r now = ground arith

trip_cooldown-cooldown_end :
    (s : UsageState) (at : Option ℕ) (now : ℕ)
    → cooldown_end (trip_cooldown s at now)
      ≡ max (cooldown_end s) (asked_pause (limit_error at now))
unfolding trip_cooldown
trip_cooldown-cooldown_end s at now = ground arith

-- After any sequence of signals and limit errors the cooldown ends at the latest of its old end
-- and of the times that the rejections and errors ask for: none of them shortens it, and each is
-- honoured.
pub fold_usage-max :
    (is : List UsageInput) (s : UsageState)
    → cooldown_end (fold_usage s is) ≡ foldl max (cooldown_end s) (map asked_pause is)
unfolding fold_usage
fold_usage-max [] s = refl
fold_usage-max (signal r now ∷ is) s =
    fold_usage-max is (record_rate_limit s r now)
    ∙ ap (λ m. foldl max m (map asked_pause is)) (record_rate_limit-cooldown_end s r now)
fold_usage-max (limit_error at now ∷ is) s =
    fold_usage-max is (trip_cooldown s at now)
    ∙ ap (λ m. foldl max m (map asked_pause is)) (trip_cooldown-cooldown_end s at now)
