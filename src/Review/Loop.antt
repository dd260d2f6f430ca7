-- ===== src/Review/Loop.antt =====
-- review/review-loop.ts: the review loop. What the loop asks of GitHub, of the agents, of the
-- worktrees and of the master is a step on the world `W` that may throw; the loop itself, with its
-- budgets, is the code's. The store's count of fix attempts of a phase is a variable of the loop, as
-- the loop resets it when it enters the phase.
pub mod Fix
pub mod Phases
pub mod Sync
pub mod Merge
pub mod Drive
use ralph_autopilot.Common.{
  ℕ, suc, ◌+◌, ◌≡◌, refl, arith, ◌-◌, ◌*◌, ◌/◌, ltb, Bool, true, false, not, Option, none, some,
  List, Text, if◌then◌else◌,
}
use ralph_autopilot.Store.Types.{Phase, phase0, phase1, phase2}
use ralph_autopilot.Review.Worklist.{WorklistItem}
use ralph_autopilot.Review.Hosted.Block.{ChecksSnapshot, MergeStateStatus}

-- What a container or an agent can end with, other than a result.
pub data Fault : Type 0 where
  wall_clock_exceeded : ℕ → Fault
  runner_infra : Text → Fault
  output_unparseable : Text → Fault
  branch_diverged : Fault
  hosted_rate_limited : Text → Fault
  other_error : Text → Fault

pub data Result {ℓ} (A : Type ℓ) : Type ℓ where
  ok : A → Result A
  thrown : Fault → Result A

-- A world that a throw leaves changed stays changed.
abbrev pub Act : Type 0 → Type 0 → Type 0
Act W A = W → Result A × W

-- A worklist, by what its items are written from.
pub data Worklist : Type 0 where
  found : List WorklistItem → Worklist
  of_checks : List Text → Worklist
  of_wall_clock : ℕ → Worklist
  of_infra : Text → Worklist
  of_parse_failure : Text → Worklist
  of_question : Text → Worklist
  of_conflicts : List Text → Worklist
  of_fix_failed : Text → Worklist
  of_not_landed : Worklist
  of_divergence : Worklist
  of_base_race : ℕ → Worklist
  of_merge_behind : MergeStateStatus → ℕ → Worklist
  of_merge_blocked : MergeStateStatus → Worklist

-- The question of an agent that escalates is its text.
pub data PhaseOutcome : Type 0 where
  clean : PhaseOutcome
  maxed : Worklist → ℕ → Bool → PhaseOutcome
  escalated : Text → PhaseOutcome

-- The outcomes that park a run, which are those that `settle` and the escalations return.
pub data ParkedOutcome : Type 0 where
  master_triage : Phase → ParkedOutcome
  handed_over : Phase → ParkedOutcome

pub data ReviewLoopOutcome : Type 0 where
  merged awaiting_ci awaiting_merge : ReviewLoopOutcome
  parked : ParkedOutcome → ReviewLoopOutcome

module _ {W : Type 0} where
  infixl 5 ◌>>=◌ ◌>>◌
  abbrev pub ◌>>=◌ : {A B : Type 0} → Act W A → (A → Act W B) → Act W B
  ◌>>=◌ m f w = let (r, w') = m w in elim r [ ok a ↦ f a w' | thrown e ↦ (thrown e, w') ]

  abbrev pub ◌>>◌ : {A B : Type 0} → Act W A → Act W B → Act W B
  m >> k = m >>= λ _. k

abbrev pub pure : {W A : Type 0} → A → Act W A
pure a w = (ok a, w)

-- A step beside a variable of the code, which it leaves as it is.
abbrev pub beside : {S W A : Type 0} → Act W A → Act (S × W) A
beside m (s, w) = let (r, w') = m w in (r, (s, w'))

-- A step that ended well, with what it came from.
pub record Bound {W A B : Type 0} (m : Act W A) (f : A → Act W B) (w : W) (b : B) (w' : W)
    : Type 0 where
  pub value : A
  pub between : W
  pub first : m w ≡ (ok value, between)
  pub then_second : f value between ≡ (ok b, w')

parts_of_bind :
    {W A B : Type 0} (m : Act W A) (f : A → Act W B) (w : W) (p : Result A × W) {b : B} {w' : W}
    → m w ≡ p
    → elim p.0 [ ok a ↦ f a p.1 | thrown e ↦ (thrown e, p.1) ] ≡ (ok b, w')
    → Bound m f w b w'
parts_of_bind m f w (ok a, w1) q e = record { value = a; between = w1; first = q; then_second = e }
parts_of_bind m f w (thrown x, w1) q e = absurd (ground arith)

-- The parts of a sequence that ended well.
pub bound :
    {W A B : Type 0} (m : Act W A) (f : A → Act W B) (w : W) {b : B} {w' : W}
    → (m >>= f) w ≡ (ok b, w')
    → Bound m f w b w'
bound m f w e = parts_of_bind m f w (m w) refl e

-- What holds behind the first step, and where it throws leads to the same, holds behind both.
pub bind-leads :
    {V A B : Type 0} (R P : V → Type 0) (m : Act V A) (f : A → Act V B) (v : V)
    → R (m v).1
    → ((u : V) → R u → P u)
    → ((a : A) (u : V) → R u → P (f a u).1)
    → P ((m >>= f) v).1
bind-leads {V} {A} {B} R P m f v r g h = go (m v) r
  where
    go :
        (p : Result A × V)
        → R p.1
        → P (elim p.0 as (λ _. Result B × V) [ ok a ↦ f a p.1 | thrown e ↦ (thrown e, p.1) ]).1
    go (ok a, u) q = h a u q
    go (thrown e, u) q = g u q
