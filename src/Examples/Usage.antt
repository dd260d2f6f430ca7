-- ===== src/Examples/Usage.antt =====
-- Runs of core/usage.ts.
use ralph_autopilot.Common.{
  ◌≡◌, refl, true, false, not, ◌||◌, ◌&&◌, ◌===◌, none, some, List, [], ◌∷◌, map, foldl, any, All,
  arith,
}
use ralph_autopilot.Usage.{
  UsageState, RateLimitSignal, SignalStatus, record_rate_limit, usage_gate, resolve_windows,
  is_token_gated, max,
}
use ralph_autopilot.Usage.Cooldown.{
  UsageInput, signal, limit_error, fold_usage, cooldown_end, asked_pause, fold_usage-max,
}
use ralph_autopilot.Usage.Gate.{is_live, gates, cooldown_runs, usage_gate-admit}
use ralph_autopilot.Usage.Reset.{
  window_resets, candidates, earliest, soonest_reset, soonest_reset-usage_gate,
}
use ralph_autopilot.Usage.Rotation.{
  RotationInput, token_gated, next_token, pick_active_token, pick_active_token-gated,
}

-- The five-hour window at its limit until 900, the weekly one at a third, and a cooldown.
abbrev used : UsageState
used = record {
  windows =
      ("five_hour", record { utilization = some 97; resets_at_ms = some 900 })
      ∷ ("seven_day", record { utilization = some 30; resets_at_ms = some 5000 })
      ∷ [];
  cooldown_until_ms = some 700;
}

abbrev rejection : RateLimitSignal
rejection = record {
  status = some SignalStatus.rejected;
  utilization = none;
  resets_at = none;
  rate_limit_type = some "five_hour";
}

-- A rejection without a reset fills its window and pauses for the default time.
rejected_run : record_rate_limit used rejection 1000 ≡ record {
  windows =
      ("five_hour", record { utilization = some 100; resets_at_ms = some 900 })
      ∷ ("seven_day", record { utilization = some 30; resets_at_ms = some 5000 })
      ∷ [];
  cooldown_until_ms = some 301000;
}
unfolding record_rate_limit ◌===◌
rejected_run = refl

abbrev inputs : List UsageInput
inputs = signal rejection 1000 ∷ limit_error (some 2000) 1500 ∷ limit_error none 1600 ∷ []

pause_example : cooldown_end (fold_usage used inputs) ≡ foldl max 700 (map asked_pause inputs)
pause_example = fold_usage-max inputs used

admit_example :
    (usage_gate used 950 90).admit
    ≡ not (
        any (gates 950 90) used.windows
        || (cooldown_runs used 950 && not (any (is_live 950) used.windows)))
admit_example = usage_gate-admit used 950 90

refused_still_example : (usage_gate used 899 90).admit ≡ false
unfolding usage_gate resolve_windows soonest_reset candidates earliest window_resets
refused_still_example = soonest_reset-usage_gate used 100 699 90 (omega arith) refl (ground arith)

abbrev logins : RotationInput
logins = record {
  ids = "a" ∷ "b" ∷ "c" ∷ [];
  states = λ id. some used;
  active_id = "b";
  last_rotate_ms = 0;
  now_ms = 800;
  admit_below_percent = 90;
  rotate_every_ms = some 600;
}

rotation_example :
    ((pick_active_token logins).active_id ≡ "b")
    × All (λ id. (id === "b" || token_gated logins id) ≡ true) ("a" ∷ "b" ∷ "c" ∷ [])
unfolding is_token_gated usage_gate resolve_windows pick_active_token next_token
rotation_example = pick_active_token-gated logins (omega arith) refl
