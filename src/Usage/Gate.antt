-- ===== src/Usage/Gate.antt =====
-- core/usage.ts `usageGate`: when new work is refused.
use ralph_autopilot.Common.{
  ℕ, ◌+◌, ◌≡◌, Bool, not, ◌&&◌, ◌||◌, ltb, ◌==◌, String, none, some, is_some, [], ◌∷◌, any,
  if◌then◌else◌, arith,
}
use ralph_autopilot.Usage.{
  RateLimitWindowState, Windows, UsageState, Resolved, lapsed, at_limit, holds_of, or_else,
  resolve_windows, usage_gate,
}

-- A window that has not ended.
abbrev pub is_live : ℕ → String × RateLimitWindowState → Bool
is_live now (k, w) = not (lapsed now w)

-- Such a window, used up to the threshold.
abbrev pub gates : ℕ → ℕ → String × RateLimitWindowState → Bool
gates now threshold (k, w) = not (lapsed now w) && at_limit threshold w

abbrev pub cooldown_runs : UsageState → ℕ → Bool
cooldown_runs s now = holds_of (λ t. ltb now t) s.cooldown_until_ms

resolve_windows-gating :
    (now threshold : ℕ) (ws : Windows) (r : Resolved)
    → is_some (resolve_windows now threshold ws r).gating
      ≡ (is_some r.gating || any (gates now threshold) ws)
unfolding resolve_windows
resolve_windows-gating now threshold [] r = ground arith
resolve_windows-gating now threshold ((k, w) ∷ ws) r = ground (
  arith,
  resolve_windows-gating now threshold ws (
      if lapsed now w then r else (record {
        gating = or_else r.gating (if at_limit threshold w then some (k, w.utilization) else none);
        live_windows = r.live_windows + 1;
      })),
)

resolve_windows-live :
    (now threshold : ℕ) (ws : Windows) (r : Resolved)
    → ((resolve_windows now threshold ws r).live_windows == 0)
      ≡ (r.live_windows == 0 && not (any (is_live now) ws))
unfolding resolve_windows
resolve_windows-live now threshold [] r = ground arith
resolve_windows-live now threshold ((k, w) ∷ ws) r = ground (
  arith,
  resolve_windows-live now threshold ws (
      if lapsed now w then r else (record {
        gating = or_else r.gating (if at_limit threshold w then some (k, w.utilization) else none);
        live_windows = r.live_windows + 1;
      })),
)

-- New work is refused exactly when a window that has not ended is used up to the threshold, or a
-- cooldown runs and no window that has not ended can contradict it.
pub usage_gate-admit :
    (s : UsageState) (now threshold : ℕ)
    → (usage_gate s now threshold).admit
      ≡ not (
          any (gates now threshold) s.windows
          || (cooldown_runs s now && not (any (is_live now) s.windows)))
unfolding usage_gate
usage_gate-admit s now threshold = ground (
  arith,
  resolve_windows-gating now threshold s.windows (record { gating = none; live_windows = 0 }),
  resolve_windows-live now threshold s.windows (record { gating = none; live_windows = 0 }),
)
