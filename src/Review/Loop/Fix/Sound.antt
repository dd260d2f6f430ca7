-- ===== src/Review/Loop/Fix/Sound.antt =====
-- review/review-loop.ts `boundedFixLoop`: what its outcomes rest on.
use ralph_autopilot.Common.{
  ℕ, zero, suc, ◌+◌, ◌≤◌, ◌≡◌, refl, ltb, leb, Bool, true, false, Option, none, some, Bool-cases,
  inl, inr, if◌then◌else◌, arith,
}
use ralph_autopilot.Review.Loop.{
  Fault, wall_clock_exceeded, runner_infra, output_unparseable, Result, ok, thrown, Act, Worklist,
  PhaseOutcome, clean, maxed, escalated,
}
use ralph_autopilot.Review.Loop.Fix.{
  Assessment, assessed_clean, hard_stop, blocked, FixResult, fixed, fix_escalated,
  BoundedFixLoopSpec, Turn, stop, again, degrade, caught, after_fix, give_up, on_assessment,
  fix_turn, fix_loop, enough_turns, entered, bounded_fix_loop,
}
use ralph_autopilot.Review.Loop.Fix.Bound.{fix_turn-Spends, Turn-cases}

module _ {W : Type 0} (spec : BoundedFixLoopSpec W) where
  -- The phase was read clean, and nothing was done behind that read: by an assessment, or by the
  -- last read before the phase would be given up.
  pub data IsReadClean (w' : W) : Type 0 where
    by_assessment :
        (w : W) → (spec.assess w).0 ≡ ok assessed_clean → (spec.assess w).1 ≡ w' → IsReadClean w'
    by_reconfirm :
        (check : Act W Bool) (w : W)
        → spec.reconfirm ≡ some check
        → (check w).0 ≡ ok true
        → (check w).1 ≡ w'
        → IsReadClean w'

  -- What an outcome claims: clean, the read; given up, that the attempts are within their budget, or
  -- the retries within theirs.
  abbrev pub Claims : Result PhaseOutcome → W → Type 0
  Claims (ok clean) w = IsReadClean w
  Claims (ok (maxed wl n infra)) w =
      n ≤ (if infra then spec.max_container_retries else spec.max_fix_attempts)
  Claims (ok (escalated q)) w = Unit
  Claims (thrown e) w = Unit

  abbrev TurnClaims : Turn → W → Type 0
  TurnClaims (stop r) w = Claims r w
  TurnClaims (again a n) w = Unit

  degrade-Claims :
      (e : Fault) (attempts retries : ℕ) (w : W)
      → attempts ≤ spec.max_fix_attempts
      → retries ≤ spec.max_container_retries
      → TurnClaims (degrade spec.max_container_retries spec.parse_worklist e attempts retries) w
  unfolding degrade
  degrade-Claims (runner_infra detail) attempts retries w h k =
      elim (Bool-cases (ltb retries spec.max_container_retries)) [
        | inl l ↦ rw l tt
        | inr l ↦ rw l k
      ]
  degrade-Claims (wall_clock_exceeded s) attempts retries w h k = h
  degrade-Claims (output_unparseable s) attempts retries w h k = h
  degrade-Claims _ attempts retries w h k = tt

  give_up-Claims :
      (o : Option (Act W Bool)) (wl : Worklist) (attempts retries : ℕ) (w : W)
      → spec.reconfirm ≡ o
      → attempts ≤ spec.max_fix_attempts
      → retries ≤ spec.max_container_retries
      → TurnClaims (give_up spec o wl attempts retries w).0 (give_up spec o wl attempts retries w).1
  give_up-Claims none wl attempts retries w e h k = h
  give_up-Claims (some check) wl attempts retries w e h k = checked (check w).0 refl
    where
      checked :
          (r : Result Bool)
          → (check w).0 ≡ r
          → TurnClaims
              (caught spec r attempts retries (check w).1 λ passed w''.
                (stop (ok (if passed then clean else maxed wl attempts false)), w'')).0
              (caught spec r attempts retries (check w).1 λ passed w''.
                (stop (ok (if passed then clean else maxed wl attempts false)), w'')).1
      checked (ok true) q = by_reconfirm check w e q refl
      checked (ok false) q = h
      checked (thrown f) q = degrade-Claims f attempts retries (check w).1 h k

  caught-Claims :
      {A : Type 0} (r : Result A) (attempts retries : ℕ) (w : W) (k : A → W → Turn × W)
      → attempts ≤ spec.max_fix_attempts
      → retries ≤ spec.max_container_retries
      → ((a : A) → TurnClaims (k a w).0 (k a w).1)
      → TurnClaims (caught spec r attempts retries w k).0 (caught spec r attempts retries w k).1
  caught-Claims (ok a) attempts retries w k h l next = next a
  caught-Claims (thrown e) attempts retries w k h l next = degrade-Claims e attempts retries w h l

  after_fix-Claims :
      (r : FixResult) (attempts retries : ℕ) (w : W)
      → TurnClaims (after_fix spec r attempts retries w).0 (after_fix spec r attempts retries w).1
  after_fix-Claims fixed attempts retries w = tt
  after_fix-Claims (fix_escalated q) attempts retries w = tt

  blocked-Claims :
      (wl : Worklist) (attempts retries : ℕ) (w : W)
      → attempts ≤ spec.max_fix_attempts
      → retries ≤ spec.max_container_retries
      → TurnClaims
          (on_assessment spec (blocked wl) attempts retries w).0
          (on_assessment spec (blocked wl) attempts retries w).1
  blocked-Claims wl attempts retries w h l =
      elim (Bool-cases (leb spec.max_fix_attempts attempts)) [
        | inl e ↦ rw e (give_up-Claims spec.reconfirm wl attempts retries w refl h l)
        | inr e ↦ rw e (
            caught-Claims (spec.record_fix_attempt w).0 attempts retries
              (spec.record_fix_attempt w).1 _ h l
              λ u.
                caught-Claims (spec.fix wl (spec.record_fix_attempt w).1).0 (attempts + 1) retries
                  (spec.fix wl (spec.record_fix_attempt w).1).1 _ (ground arith) l
                  λ result. after_fix-Claims result (attempts + 1) retries _)
      ]

  assessed-Claims :
      (r : Result Assessment) (attempts retries : ℕ) (w : W)
      → (spec.assess w).0 ≡ r
      → attempts ≤ spec.max_fix_attempts
      → retries ≤ spec.max_container_retries
      → TurnClaims
          (caught spec r attempts retries
            (spec.assess w).1
            λ a w''. on_assessment spec a attempts retries w'').0
          (caught spec r attempts retries
            (spec.assess w).1
            λ a w''. on_assessment spec a attempts retries w'').1
  assessed-Claims (thrown e) attempts retries w q h l =
      degrade-Claims e attempts retries (spec.assess w).1 h l
  assessed-Claims (ok assessed_clean) attempts retries w q h l = by_assessment w q refl
  assessed-Claims (ok (hard_stop wl)) attempts retries w q h l =
      give_up-Claims spec.reconfirm wl attempts retries (spec.assess w).1 refl h l
  assessed-Claims (ok (blocked wl)) attempts retries w q h l =
      blocked-Claims wl attempts retries (spec.assess w).1 h l

  fix_turn-Claims :
      (attempts retries : ℕ) (w : W)
      → attempts ≤ spec.max_fix_attempts
      → retries ≤ spec.max_container_retries
      → TurnClaims (fix_turn spec attempts retries w).0 (fix_turn spec attempts retries w).1
  unfolding fix_turn
  fix_turn-Claims attempts retries w h l =
      assessed-Claims (spec.assess w).0 attempts retries w refl h l

  -- A result of the loop, where it has one.
  abbrev pub ClaimsOf : Option (Result PhaseOutcome × W) → Type 0
  ClaimsOf none = Unit
  ClaimsOf (some (r, w)) = Claims r w

  fix_loop-Claims :
      (fuel attempts retries : ℕ) (w : W)
      → attempts ≤ spec.max_fix_attempts
      → retries ≤ spec.max_container_retries
      → ClaimsOf (fix_loop spec fuel attempts retries w)
  unfolding fix_loop
  fix_loop-Claims zero attempts retries w h l = tt
  fix_loop-Claims (suc fuel) attempts retries w h l =
      let turn = fix_turn spec attempts retries w in
      elim (Turn-cases turn.0) [
        | inl (r, e) ↦ rw (e, fix_loop) (rw e at (fix_turn-Claims attempts retries w h l))
        | inr (a, n, e) ↦
            let spends = rw e at (fix_turn-Spends spec attempts retries w h l) in
            rw (e, fix_loop) (fix_loop-Claims fuel a n turn.1 spends.0 spends.1)
      ]

  -- A phase counts as clean only on a read that found it clean with nothing done since, and is given
  -- up with its attempts, or its container retries, within their budget.
  pub bounded_fix_loop-Claims : (w : W) → ClaimsOf (bounded_fix_loop spec w)
  unfolding bounded_fix_loop
  bounded_fix_loop-Claims w =
      elim (spec.enter w).0 as (λ r. ClaimsOf (entered spec r (spec.enter w).1)) [
        | ok _ ↦
            fix_loop-Claims (enough_turns spec) 0 0 (spec.enter w).1 (omega arith) (omega arith)
        | thrown e ↦ tt
      ]
