-- ===== src/Store/Events/Projection/Span.antt =====
-- Fix attempts and the end marker are counted over the current span of the log.
use ralph_autopilot.Common.{
  ℕ, ◌+◌, ◌≡◌, refl, Bool, true, false, ◌||◌, List, [], ◌∷◌, any, arith, if◌then◌else◌, ◌∙◌,
}
use ralph_autopilot.Store.Types.{Phase, phase0, phase1, phase2, phase_eq}
use ralph_autopilot.Store.Events.EventTypes.{
  IssueEvent, run_started, fix_attempted, review_phase_entered, run_ended,
}
use ralph_autopilot.Store.Events.Decider.{IssueState, initial_issue_state, attempts_of, evolve}
use ralph_autopilot.Store.Events.Projection.{fold_issue_state}

-- What opens a new count of a phase: a new run, or entering the phase again.
abbrev pub resets : Phase → IssueEvent → Bool
resets p (run_started _) = true
resets p (review_phase_entered d) = phase_eq d.phase p
resets p _ = false

abbrev fixes : Phase → IssueEvent → ℕ
fixes p (fix_attempted d) = if phase_eq d.phase p then 1 else 0
fixes p _ = 0

abbrev pub count_fixes : Phase → List IssueEvent → ℕ
count_fixes p [] = 0
count_fixes p (e ∷ es) = fixes p e + count_fixes p es

-- The events after the last one that passes the test, all of them if none does.
abbrev pub since {ℓ} : {A : Type ℓ} → (A → Bool) → List A → List A
since test [] = []
since test (e ∷ es) =
    let later = since test es in if any test es then later else if test e then es else e ∷ es

attempts_of-evolve :
    (p : Phase) (s : IssueState) (e : IssueEvent)
    → attempts_of (evolve s e).fix_attempts p
      ≡ (if resets p e then 0 else attempts_of s.fix_attempts p + fixes p e)
unfolding evolve
attempts_of-evolve phase0 s e = ground arith
attempts_of-evolve phase1 s e = ground arith
attempts_of-evolve phase2 s e = ground arith

-- From any state, the count of a phase after a batch of events is the number of fix attempts of
-- that phase since its last reset in the batch, or, where the batch resets nothing, the count
-- before plus the fix attempts of the batch.
pub fix_attempts-fold_issue_state :
    (p : Phase) (es : List IssueEvent) (s : IssueState)
    → attempts_of (fold_issue_state es s).fix_attempts p ≡ (
        if any (resets p) es
        then count_fixes p (since (resets p) es)
        else attempts_of s.fix_attempts p + count_fixes p es)
unfolding fold_issue_state
fix_attempts-fold_issue_state p [] s = omega arith
fix_attempts-fold_issue_state p (e ∷ es) s =
    ground (arith, fix_attempts-fold_issue_state p es (evolve s e), attempts_of-evolve p s e)

abbrev pub starts : IssueEvent → Bool
starts (run_started _) = true
starts _ = false

abbrev pub ends : IssueEvent → Bool
ends (run_ended _) = true
ends _ = false

ended-evolve :
    (s : IssueState) (e : IssueEvent)
    → (evolve s e).ended ≡ (if starts e then false else s.ended || ends e)
unfolding evolve
ended-evolve s e = ground arith

ended-fold :
    (es : List IssueEvent) (s : IssueState)
    → (fold_issue_state es s).ended
      ≡ (if any starts es then any ends (since starts es) else s.ended || any ends es)
unfolding fold_issue_state
ended-fold [] s = ground arith
ended-fold (e ∷ es) s = ground (arith, ended-fold es (evolve s e), ended-evolve s e)

-- Folded from the start of a log, a run is marked ended exactly when the log holds a `RunEnded`
-- after its last `RunStarted` (or anywhere, in a log that starts no run).
pub ended-fold_issue_state :
    (es : List IssueEvent)
    → (fold_issue_state es initial_issue_state).ended ≡ any ends (since starts es)
unfolding initial_issue_state
ended-fold_issue_state es = ended-fold es initial_issue_state ∙ whole es
  where
    whole :
        (l : List IssueEvent)
        → (if any starts l then any ends (since starts l) else any ends l)
          ≡ any ends (since starts l)
    whole [] = refl
    whole (e ∷ l) = ground arith
