-- ===== src/Review/Loop/Fix/Bound.antt =====
-- review/review-loop.ts `boundedFixLoop`: it ends, within its budgets, and clean means clean.
use ralph_autopilot.Common.{
  ℕ, zero, suc, ◌+◌, ◌≤◌, ◌<◌, ◌≡◌, refl, ◌⊎◌, ltb, leb, Bool, Option, none, some, Bool-cases, inl,
  inr, Text, arith,
}
use ralph_autopilot.Review.Loop.{
  Fault, wall_clock_exceeded, runner_infra, output_unparseable, Result, ok, thrown, Act, Worklist,
  PhaseOutcome,
}
use ralph_autopilot.Review.Loop.Fix.{
  Assessment, assessed_clean, hard_stop, blocked, FixResult, fixed, fix_escalated,
  BoundedFixLoopSpec, Turn, stop, again, degrade, caught, after_fix, give_up, on_assessment,
  fix_turn, fix_loop, enough_turns, entered, bounded_fix_loop,
}

-- A turn that goes on spends an attempt or a retry, within the budgets.
abbrev Spends : ℕ → ℕ → ℕ → ℕ → Turn → Type 0
Spends most_fixes most_retries attempts retries (stop r) = Unit
Spends most_fixes most_retries attempts retries (again attempts' retries') =
    (attempts' ≤ most_fixes)
    × (retries' ≤ most_retries)
    × (attempts + retries < attempts' + retries')

degrade-Spends :
    (most_fixes most_retries : ℕ) (on_parse : Text → Worklist) (e : Fault)
    (spent attempts retries : ℕ)
    → attempts ≤ most_fixes
    → spent ≤ attempts
    → Spends most_fixes most_retries spent retries
        (degrade most_retries on_parse e attempts retries)
unfolding degrade
degrade-Spends most_fixes most_retries on_parse (runner_infra detail) spent attempts retries h k =
    elim (Bool-cases (ltb retries most_retries)) [
      | inl l ↦ rw l (h, ground arith, omega arith)
      | inr l ↦ rw l tt
    ]
degrade-Spends most_fixes most_retries on_parse (wall_clock_exceeded s) spent attempts retries h k =
    tt
degrade-Spends most_fixes most_retries on_parse (output_unparseable s) spent attempts retries h k =
    tt
degrade-Spends most_fixes most_retries on_parse _ spent attempts retries h k = tt

module _ {W : Type 0} (spec : BoundedFixLoopSpec W) where
  abbrev pub SpendsWithin : ℕ → ℕ → Turn × W → Type 0
  SpendsWithin attempts retries t =
      Spends spec.max_fix_attempts spec.max_container_retries attempts retries t.0

  caught-Spends :
      {A : Type 0} (r : Result A) (spent attempts retries : ℕ) (w : W) (k : A → W → Turn × W)
      → attempts ≤ spec.max_fix_attempts
      → spent ≤ attempts
      → ((a : A) (w' : W) → SpendsWithin spent retries (k a w'))
      → SpendsWithin spent retries (caught spec r attempts retries w k)
  caught-Spends (ok a) spent attempts retries w k h l next = next a w
  caught-Spends (thrown e) spent attempts retries w k h l next =
      degrade-Spends spec.max_fix_attempts spec.max_container_retries spec.parse_worklist e spent
        attempts retries h l

  give_up-Spends :
      (o : Option (Act W Bool)) (wl : Worklist) (attempts retries : ℕ) (w : W)
      → attempts ≤ spec.max_fix_attempts
      → SpendsWithin attempts retries (give_up spec o wl attempts retries w)
  give_up-Spends none wl attempts retries w h = tt
  give_up-Spends (some check) wl attempts retries w h =
      caught-Spends (check w).0 attempts attempts retries (check w).1 _ h (omega arith) (λ b w'. tt)

  after_fix-Spends :
      (r : FixResult) (attempts retries : ℕ) (w : W)
      → attempts + 1 ≤ spec.max_fix_attempts
      → retries ≤ spec.max_container_retries
      → SpendsWithin attempts retries (after_fix spec r (attempts + 1) retries w)
  after_fix-Spends fixed attempts retries w h l = (h, l, omega arith)
  after_fix-Spends (fix_escalated q) attempts retries w h l = tt

  on_assessment-Spends :
      (a : Assessment) (attempts retries : ℕ) (w : W)
      → attempts ≤ spec.max_fix_attempts
      → retries ≤ spec.max_container_retries
      → SpendsWithin attempts retries (on_assessment spec a attempts retries w)
  on_assessment-Spends assessed_clean attempts retries w h l = tt
  on_assessment-Spends (hard_stop wl) attempts retries w h l =
      give_up-Spends spec.reconfirm wl attempts retries w h
  on_assessment-Spends (blocked wl) attempts retries w h l =
      elim (Bool-cases (leb spec.max_fix_attempts attempts)) [
        | inl e ↦ rw e (give_up-Spends spec.reconfirm wl attempts retries w h)
        | inr e ↦ rw e (
            caught-Spends (spec.record_fix_attempt w).0 attempts attempts retries _ _ h
              (omega arith)
              λ u w2.
                caught-Spends (spec.fix wl w2).0 attempts (attempts + 1) retries _ _ (ground arith)
                  (omega arith)
                  λ result w4. after_fix-Spends result attempts retries w4 (ground arith) l)
      ]

  pub fix_turn-Spends :
      (attempts retries : ℕ) (w : W)
      → attempts ≤ spec.max_fix_attempts
      → retries ≤ spec.max_container_retries
      → SpendsWithin attempts retries (fix_turn spec attempts retries w)
  unfolding fix_turn
  fix_turn-Spends attempts retries w h l =
      caught-Spends (spec.assess w).0 attempts attempts retries _ _ h (omega arith)
        λ a w'. on_assessment-Spends a attempts retries w' h l

pub Turn-cases :
    (t : Turn)
    → ((r : Result PhaseOutcome) × (t ≡ stop r))
      ⊎ ((attempts : ℕ) × (retries : ℕ) × (t ≡ again attempts retries))
Turn-cases (stop r) = inl (r, refl)
Turn-cases (again a r) = inr (a, r, refl)

module _ {W : Type 0} (spec : BoundedFixLoopSpec W) where
  fix_loop-returns :
      (fuel attempts retries : ℕ) (w : W)
      → attempts ≤ spec.max_fix_attempts
      → retries ≤ spec.max_container_retries
      → spec.max_fix_attempts + spec.max_container_retries < attempts + retries + fuel
      → (r : Result PhaseOutcome × W) × (fix_loop spec fuel attempts retries w ≡ some r)
  unfolding fix_loop
  fix_loop-returns zero attempts retries w h l m = absurd (omega arith)
  fix_loop-returns (suc fuel) attempts retries w h l m =
      let turn = fix_turn spec attempts retries w in
      elim (Turn-cases turn.0) [
        | inl (r, e) ↦ ((r, turn.1), rw (e, fix_loop) refl)
        | inr (a, n, e) ↦
            let spends = rw e at (fix_turn-Spends spec attempts retries w h l) in
            rw (e, fix_loop) (fix_loop-returns fuel a n turn.1 spends.0 spends.1 (omega arith))
      ]

  entered-returns :
      (r : Result (Unit {0})) (w : W) → (o : Result PhaseOutcome × W) × (entered spec r w ≡ some o)
  entered-returns (thrown e) w = ((thrown e, w), refl)
  entered-returns (ok _) w =
      fix_loop-returns (enough_turns spec) 0 0 w (omega arith) (omega arith) (omega arith)

  -- The loop of a phase ends, whatever the agents, the checks and the containers do: in at most one
  -- turn more than there are fix attempts and container retries.
  pub bounded_fix_loop-returns :
      (w : W) → (r : Result PhaseOutcome × W) × (bounded_fix_loop spec w ≡ some r)
  unfolding bounded_fix_loop
  bounded_fix_loop-returns w = entered-returns (spec.enter w).0 (spec.enter w).1
