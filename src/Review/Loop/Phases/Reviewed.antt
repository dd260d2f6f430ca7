-- ===== src/Review/Loop/Phases/Reviewed.antt =====
-- review/review-loop.ts: what a run that is handed to the merge queue has behind it.
use ralph_autopilot.Common.{◌≡◌, refl, ap, subst, Bool, true, false, Option, none, some, arith}
use ralph_autopilot.Store.Types.{Phase, phase1, phase2}
use ralph_autopilot.Review.Phase.{ReviewNumber, review1, review2}
use ralph_autopilot.Review.Loop.{
  Result, ok, thrown, Act, ◌>>=◌, pure, PhaseOutcome, clean, maxed, escalated, ReviewLoopOutcome,
  merged, awaiting_merge, parked,
}
use ralph_autopilot.Review.Loop.Fix.{BoundedFixLoopSpec, bounded_fix_loop}
use ralph_autopilot.Review.Loop.Fix.Sound.{IsReadClean, ClaimsOf, bounded_fix_loop-Claims}
use ralph_autopilot.Review.Loop.Phases.{
  LoopDeps, or_out_of_fuel, settle, settled, or_carry_on, run_fix_loop, review_spec, run_phase,
  run_review_phases,
}

-- The outcome hands the run on, and parks it nowhere.
abbrev hands_on : ReviewLoopOutcome → Bool
hands_on (parked outcome) = false
hands_on _ = true

-- A step that returned, and where.
pub record Returned {W A : Type 0} (p : Result A × W) (a : A) (w : W) : Type 0 where
  pub value : p.0 ≡ ok a
  pub world : p.1 ≡ w

module _ {W : Type 0} (deps : LoopDeps W) where
  -- Where a phase is settled and the run goes on, the phase was clean and the rest came behind it.
  settle-hands_on :
      (phase : Phase) (outcome : PhaseOutcome) (next : Act W ReviewLoopOutcome) (w : W)
      {o : ReviewLoopOutcome}
      → hands_on o ≡ true
      → ((settle deps phase outcome >>= λ done. or_carry_on deps done next) w).0 ≡ ok o
      → outcome ≡ clean
  settle-hands_on phase clean next w h e = refl
  settle-hands_on phase (maxed wl attempts infra) next w h e = ground arith
  settle-hands_on phase (escalated question) next w h e = ground arith

  -- What a settled step that hands the run on has done: its own part was clean, and the rest
  -- followed on the world it left.
  pub record Settled (m : Act W PhaseOutcome) (next : Act W ReviewLoopOutcome) (w : W)
      (o : ReviewLoopOutcome) (w' : W) : Type 0 where
    pub between : W
    pub was_clean : m w ≡ (ok clean, between)
    pub followed : next between ≡ (ok o, w')

  Settled-cases :
      (phase : Phase) (p : Result PhaseOutcome × W) (next : Act W ReviewLoopOutcome) (w : W)
      (m : Act W PhaseOutcome) {o : ReviewLoopOutcome} {w' : W}
      → m w ≡ p
      → hands_on o ≡ true
      → elim p.0 [
        | ok a ↦ (settle deps phase a >>= λ done. or_carry_on deps done next) p.1
        | thrown e ↦ (thrown e, p.1)
      ]
        ≡ (ok o, w')
      → Settled m next w o w'
  Settled-cases phase (thrown e, w1) next w m q h k = absurd (ground arith)
  Settled-cases phase (ok a, w1) next w m q h k =
      let c = settle-hands_on phase a next w1 h (ap (λ r. r.0) k) in
      record { between = w1; was_clean = rw (← c) q; followed = rw c at k }

  pub settled-hands_on :
      (phase : Phase) (m : Act W PhaseOutcome) (next : Act W ReviewLoopOutcome) (w : W)
      {o : ReviewLoopOutcome} {w' : W}
      → hands_on o ≡ true
      → settled deps phase m next w ≡ (ok o, w')
      → Settled m next w o w'
  settled-hands_on phase m next w h k = Settled-cases phase (m w) next w m refl h k

run_fix_loop-cases :
    {W : Type 0} (spec : BoundedFixLoopSpec W) (o : Option (Result PhaseOutcome × W)) (w : W)
    {w' : W}
    → ClaimsOf spec o
    → or_out_of_fuel w o ≡ (ok clean, w')
    → IsReadClean spec w'
run_fix_loop-cases spec none w c e = absurd (ground arith)
run_fix_loop-cases spec (some (r, w1)) w c e =
    subst (λ (q : Result PhaseOutcome × _). ClaimsOf spec (some q)) e c

run_fix_loop-IsReadClean :
    {W : Type 0} (spec : BoundedFixLoopSpec W) (w : W) {w' : W}
    → run_fix_loop spec w ≡ (ok clean, w')
    → IsReadClean spec w'
run_fix_loop-IsReadClean spec w e =
    run_fix_loop-cases spec (bounded_fix_loop spec w) w (bounded_fix_loop-Claims spec w) e

module _ {W : Type 0} (deps : LoopDeps W) where
  -- How a run came to phase 2, by the phase that the review began with: phase 1 ran from there and
  -- was read clean, or nothing was done yet.
  pub data ReachesPhase2 : ReviewNumber → W → W → Type 0 where
    through_phase1 :
        {w between : W}
        → run_phase deps review1 w ≡ (ok clean, between)
        → IsReadClean (review_spec deps review1) between
        → ReachesPhase2 review1 w between
    at_phase2 : {w : W} → ReachesPhase2 review2 w w

  -- A run that the review passed: phase 2 was reached, ran from there, and was read clean in the
  -- world that was handed over.
  pub record IsReviewed (start : ReviewNumber) (w w' : W) : Type 0 where
    pub between : W
    pub reached : ReachesPhase2 start w between
    pub phase2_ran : run_phase deps review2 between ≡ (ok clean, w')
    pub phase2_clean : IsReadClean (review_spec deps review2) w'

  phase2-IsReviewed :
      (start : ReviewNumber) (w between : W) {w' : W}
      → ReachesPhase2 start w between
      → settled deps phase2 (run_phase deps review2) (pure awaiting_merge) between
        ≡ (ok awaiting_merge, w')
      → IsReviewed start w w'
  unfolding run_phase
  phase2-IsReviewed start w between {w'} h e =
      let second =
        settled-hands_on deps phase2 (run_phase deps review2) (pure awaiting_merge) between refl
          e in
      let same : second.between ≡ w' = ap (λ r. r.1) second.followed in
      record {
        between = between;
        reached = h;
        phase2_ran =
            subst (λ v. run_phase deps review2 between ≡ (ok clean, v)) same second.was_clean;
        phase2_clean =
            subst (IsReadClean (review_spec deps review2)) same
              (run_fix_loop-IsReadClean (review_spec deps review2) between second.was_clean);
      }

  -- The review phases hand a run to the merge queue only where phase 2 was read clean with nothing
  -- done since; a review that began with phase 1 ran phase 1 first, from where it began, and phase 2
  -- began in the world where phase 1 was read clean. A review that began with phase 2, as a heal of
  -- that phase does, ran phase 2 alone.
  pub run_review_phases-IsReviewed :
      (start : ReviewNumber) (w w' : W)
      → run_review_phases deps start w ≡ (ok awaiting_merge, w')
      → IsReviewed start w w'
  unfolding run_review_phases run_phase
  run_review_phases-IsReviewed review2 w w' e = phase2-IsReviewed review2 w w at_phase2 e
  run_review_phases-IsReviewed review1 w w' e =
      let first = settled-hands_on deps phase1 (run_phase deps review1) _ w refl e in
      phase2-IsReviewed review1 w first.between
        (through_phase1 first.was_clean
          (run_fix_loop-IsReadClean (review_spec deps review1) w first.was_clean))
        first.followed

  -- The phases hand a run on to the merge queue; they merge nothing.
  pub phases_merge_nothing : (w w' : W) → run_review_phases deps review1 w ≡ (ok merged, w') → ⊥
  unfolding run_review_phases run_phase
  phases_merge_nothing w w' e =
      let first = settled-hands_on deps phase1 (run_phase deps review1) _ w refl e in
      let second =
        settled-hands_on deps phase2 (run_phase deps review2) (pure awaiting_merge) first.between
          refl first.followed in
      let followed = second.followed in ground arith
