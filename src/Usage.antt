-- ===== src/Usage.antt =====
-- core/usage.ts: the usage picture of a login, its two levers and the rotation among logins. Times
-- are milliseconds since the epoch and a utilization is a whole percentage; a number that is not
-- finite does not occur.
pub mod Cooldown
pub mod Gate
pub mod Reset
pub mod Rotation
use ralph_autopilot.Common.{
  ℕ, suc, ◌+◌, ◌-◌, ◌*◌, ◌%◌, String, Bool, true, false, not, ◌&&◌, ◌||◌, ltb, leb, ◌==◌, ◌===◌,
  Option, none, some, List, [], ◌∷◌, if◌then◌else◌,
}

abbrev pub default_cooldown_ms : ℕ
default_cooldown_ms = 5 * 60 * 1000

-- Seconds below 10^12 are scaled up.
abbrev pub reset_to_ms : Option ℕ → Option ℕ
reset_to_ms none = none
reset_to_ms (some epoch) = some (if ltb epoch 1000000000000 then epoch * 1000 else epoch)

pub record RateLimitWindowState : Type 0 where
  pub utilization : Option ℕ
  pub resets_at_ms : Option ℕ

abbrev pub Windows : Type 0
Windows = List (String × RateLimitWindowState)

pub record UsageState : Type 0 where
  pub windows : Windows
  pub cooldown_until_ms : Option ℕ

abbrev empty_usage : UsageState
empty_usage = record { windows = []; cooldown_until_ms = none }

pub data SignalStatus : Type 0 where
  allowed allowed_warning rejected : SignalStatus

pub record RateLimitSignal : Type 0 where
  pub status : Option SignalStatus
  pub utilization : Option ℕ
  pub resets_at : Option ℕ
  pub rate_limit_type : Option String

-- `a ?? b`, with a second operand that may be absent, and with one that may not.
abbrev pub or_else {ℓ} : {A : Type ℓ} → Option A → Option A → Option A
or_else none b = b
or_else (some a) b = some a

abbrev pub get_or {ℓ} : {A : Type ℓ} → Option A → A → A
get_or none b = b
get_or (some a) b = a

-- `Math.max`
abbrev pub max : ℕ → ℕ → ℕ
max a b = if ltb a b then b else a

abbrev pub is_rejected : Option SignalStatus → Bool
is_rejected (some SignalStatus.rejected) = true
is_rejected _ = false

-- The window object: a key keeps its place.
abbrev get_window : String → Windows → Option RateLimitWindowState
get_window k [] = none
get_window k ((j, w) ∷ ws) = let rest = get_window k ws in if j === k then some w else rest

abbrev set_window : String → RateLimitWindowState → Windows → Windows
set_window k v [] = (k, v) ∷ []
set_window k v ((j, w) ∷ ws) =
    let rest = set_window k v ws in if j === k then (k, v) ∷ ws else (j, w) ∷ rest

abbrev utilization_of : Option RateLimitWindowState → Option ℕ
utilization_of none = none
utilization_of (some w) = w.utilization

abbrev reset_of : Option RateLimitWindowState → Option ℕ
reset_of none = none
reset_of (some w) = w.resets_at_ms

abbrev next_window : RateLimitSignal → Option RateLimitWindowState → RateLimitWindowState
next_window signal prev = record {
  utilization =
      or_else signal.utilization
        (if is_rejected signal.status then some 100 else utilization_of prev);
  resets_at_ms = or_else (reset_to_ms signal.resets_at) (reset_of prev);
}

abbrev record_window : Option String → RateLimitSignal → Windows → Windows
record_window none signal ws = ws
record_window (some type) signal ws =
    if type === "" then ws else set_window type (next_window signal (get_window type ws)) ws

unfoldable pub record_rate_limit : UsageState → RateLimitSignal → ℕ → UsageState
record_rate_limit state signal now = record {
  windows = record_window signal.rate_limit_type signal state.windows;
  cooldown_until_ms =
      if is_rejected signal.status
      then some (
          max (get_or state.cooldown_until_ms 0)
            (get_or (reset_to_ms signal.resets_at) (now + default_cooldown_ms)))
      else state.cooldown_until_ms;
}

pub trip_cooldown : UsageState → Option ℕ → ℕ → UsageState
trip_cooldown state until now = record state {
  cooldown_until_ms =
      some (max (get_or state.cooldown_until_ms 0) (get_or until (now + default_cooldown_ms)));
}

-- `x != null && p(x)`
abbrev pub holds_of : (ℕ → Bool) → Option ℕ → Bool
holds_of p none = false
holds_of p (some n) = p n

-- The window has ended.
abbrev pub lapsed : ℕ → RateLimitWindowState → Bool
lapsed now w = holds_of (λ t. leb t now) w.resets_at_ms

abbrev pub at_limit : ℕ → RateLimitWindowState → Bool
at_limit threshold w = holds_of (λ u. leb threshold u) w.utilization

-- The text of a refusal, before it is rendered.
pub data UsageDetail : Type 0 where
  until : ℕ → UsageDetail
  window : String → Option ℕ → UsageDetail

pub data GateReason : Type 0 where
  cooldown utilization : GateReason

pub record UsageGateResult : Type 0 where
  pub admit : Bool
  pub reason : Option GateReason
  pub detail : Option UsageDetail

-- What the loop over the windows leaves: the first gating window, and how many have not ended.
pub record Resolved : Type 0 where
  pub gating : Option (String × Option ℕ)
  pub live_windows : ℕ

unfoldable pub resolve_windows : ℕ → ℕ → Windows → Resolved → Resolved
resolve_windows now threshold [] r = r
resolve_windows now threshold ((type, w) ∷ ws) r = resolve_windows now threshold ws (
    if lapsed now w then r else (record {
      gating = or_else r.gating (if at_limit threshold w then some (type, w.utilization) else none);
      live_windows = r.live_windows + 1;
    }))

abbrev cooldown_gate : Option ℕ → ℕ → ℕ → Option (String × Option ℕ) → UsageGateResult
cooldown_gate cd now live none =
    if holds_of (λ t. ltb now t) cd && live == 0
    then (record {
      admit = false;
      reason = some GateReason.cooldown;
      detail = some (until (get_or cd 0));
    })
    else (record { admit = true; reason = none; detail = none })
cooldown_gate cd now live (some (type, u)) =
    if holds_of (λ t. ltb now t) cd
    then (record {
      admit = false;
      reason = some GateReason.cooldown;
      detail = some (until (get_or cd 0));
    })
    else (record {
      admit = false;
      reason = some GateReason.utilization;
      detail = some (window type u);
    })

unfoldable pub usage_gate : UsageState → ℕ → ℕ → UsageGateResult
unfolding resolve_windows
usage_gate state now threshold =
    let r =
      resolve_windows now threshold state.windows (record { gating = none; live_windows = 0 }) in
    cooldown_gate state.cooldown_until_ms now r.live_windows r.gating

-- A login that is not known yet has the empty picture.
abbrev pub state_or_empty : Option UsageState → UsageState
state_or_empty s = get_or s empty_usage

unfoldable pub is_token_gated : Option UsageState → ℕ → ℕ → Bool
unfolding usage_gate
is_token_gated state now threshold = not (usage_gate (state_or_empty state) now threshold).admit
