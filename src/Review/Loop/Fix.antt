-- ===== src/Review/Loop/Fix.antt =====
-- review/review-loop.ts `boundedFixLoop` and `degradeContainerFault`: assess, fix, assess again.
pub mod Bound
pub mod Sound
use ralph_autopilot.Common.{
  ℕ, zero, suc, ◌+◌, ◌-◌, ltb, leb, Bool, true, false, not, ◌||◌, Option, none, some, List, Text,
  if◌then◌else◌,
}
use ralph_autopilot.Store.Types.{Phase}
use ralph_autopilot.Review.Loop.{
  Fault, wall_clock_exceeded, runner_infra, output_unparseable, Result, ok, thrown, Act, Worklist,
  of_wall_clock, of_infra, PhaseOutcome, clean, maxed, escalated,
}

pub data Assessment : Type 0 where
  assessed_clean : Assessment
  hard_stop : Worklist → Assessment
  blocked : Worklist → Assessment

pub data FixResult : Type 0 where
  fixed : FixResult
  fix_escalated : Text → FixResult

-- The loop-specific steps; the fix is given the worklist.
pub record BoundedFixLoopSpec (W : Type 0) : Type 0 where
  pub max_fix_attempts : ℕ
  pub max_container_retries : ℕ
  pub enter : Act W (Unit {0})
  pub assess : Act W Assessment
  pub reconfirm : Option (Act W Bool)
  pub record_fix_attempt : Act W (Unit {0})
  pub fix : Worklist → Act W FixResult
  pub parse_worklist : Text → Worklist

-- One turn ends the loop, or goes on with the attempts and the retries so far.
pub data Turn : Type 0 where
  stop : Result PhaseOutcome → Turn
  again : ℕ → ℕ → Turn

-- `degradeContainerFault`
unfoldable pub degrade : ℕ → (Text → Worklist) → Fault → ℕ → ℕ → Turn
degrade max_retries on_parse (wall_clock_exceeded s) attempts retries =
    stop (ok (maxed (of_wall_clock s) attempts false))
degrade max_retries on_parse (runner_infra detail) attempts retries =
    if ltb retries max_retries
    then again attempts (retries + 1)
    else stop (ok (maxed (of_infra detail) retries true))
degrade max_retries on_parse (output_unparseable detail) attempts retries =
    stop (ok (maxed (on_parse detail) attempts false))
degrade max_retries on_parse fault attempts retries = stop (thrown fault)

module _ {W : Type 0} (spec : BoundedFixLoopSpec W) where
  -- The `catch` of the loop.
  abbrev caught : {A : Type 0} → Result A → ℕ → ℕ → W → (A → W → Turn × W) → Turn × W
  caught (ok a) attempts retries w k = k a w
  caught (thrown e) attempts retries w k =
      (degrade spec.max_container_retries spec.parse_worklist e attempts retries, w)

  abbrev after_fix : FixResult → ℕ → ℕ → W → Turn × W
  after_fix fixed attempts retries w = (again attempts retries, w)
  after_fix (fix_escalated q) attempts retries w = (stop (ok (escalated q)), w)

  -- The last read before the phase is given up.
  abbrev give_up : Option (Act W Bool) → Worklist → ℕ → ℕ → W → Turn × W
  give_up none wl attempts retries w = (stop (ok (maxed wl attempts false)), w)
  give_up (some check) wl attempts retries w =
      let (r, w') = check w in
      caught r attempts retries w'
        λ passed w''. (stop (ok (if passed then clean else maxed wl attempts false)), w'')

  abbrev try_fix : Worklist → ℕ → ℕ → W → Turn × W
  try_fix wl attempts retries w =
      let (r, w1) = spec.record_fix_attempt w in
      caught r attempts retries w1 λ _ w2.
        let (f, w3) = spec.fix wl w2 in
        caught f (attempts + 1) retries w3 λ result w4. after_fix result (attempts + 1) retries w4

  abbrev on_assessment : Assessment → ℕ → ℕ → W → Turn × W
  on_assessment assessed_clean attempts retries w = (stop (ok clean), w)
  on_assessment (hard_stop wl) attempts retries w = give_up spec.reconfirm wl attempts retries w
  on_assessment (blocked wl) attempts retries w =
      if leb spec.max_fix_attempts attempts
      then give_up spec.reconfirm wl attempts retries w
      else try_fix wl attempts retries w

  unfoldable pub fix_turn : ℕ → ℕ → W → Turn × W
  unfolding degrade
  fix_turn attempts retries w =
      let (r, w') = spec.assess w in
      caught r attempts retries w' λ a w''. on_assessment a attempts retries w''

  -- None where the fuel runs out.
  unfoldable pub fix_loop : ℕ → ℕ → ℕ → W → Option (Result PhaseOutcome × W)
  unfolding fix_turn
  fix_loop zero attempts retries w = none
  fix_loop (suc fuel) attempts retries w =
      let (turn, w') = fix_turn attempts retries w in
      elim turn [
        | stop r ↦ some (r, w')
        | again attempts' retries' ↦ fix_loop fuel attempts' retries' w'
      ]

  -- The fuel that a phase needs.
  abbrev pub enough_turns : ℕ
  enough_turns = suc (spec.max_fix_attempts + spec.max_container_retries)

  -- Behind `recordReviewPhaseEntered`, which resets the count of attempts.
  abbrev pub entered : Result (Unit {0}) → W → Option (Result PhaseOutcome × W)
  entered (ok _) w = fix_loop enough_turns 0 0 w
  entered (thrown e) w = some (thrown e, w)

  unfoldable pub bounded_fix_loop : W → Option (Result PhaseOutcome × W)
  unfolding fix_loop
  bounded_fix_loop w = let (r, w') = spec.enter w in entered r w'
