-- ===== src/Store/Events/Decider/Commands.antt =====
-- The decider as a transition system: what holds of every state that commands can lead to.
use ralph_autopilot.Common.{◌≡◌, ◌≢◌, ◌↔◌, Bool, true, false, arith, is_some}
use ralph_autopilot.Store.Events.EventTypes.{IssueEvent}
use ralph_autopilot.Store.Events.Decider.{
  no_run, IssueState, initial_issue_state, evolve, IssueCommand, start_run, answer_question,
  detect_anomaly, clear_anomaly, promote_complexity, emits, issue_command_error, decide,
}

-- The intents that may land on an issue which the daemon never claimed.
abbrev pub needs_no_run : IssueCommand → Bool
needs_no_run (start_run _) = true
needs_no_run (answer_question _) = true
needs_no_run (detect_anomaly _) = true
needs_no_run clear_anomaly = true
needs_no_run (promote_complexity _) = true
needs_no_run _ = false

-- A command is refused exactly when no run has started and the command is not one of the five
-- that need none: start a run, record an answer, detect or clear an anomaly, promote the tier.
pub decide-error_iff :
    (c : IssueCommand) (s : IssueState)
    → (decide c s ≡ issue_command_error) ↔ ((s.lifecycle ≡ no_run) × (needs_no_run c ≡ false))
unfolding decide
decide-error_iff c s = (λ h. ground arith, λ h. ground arith)

-- The states that the commands which are not refused lead to, from the initial one.
pub data Reach : IssueState → Type 0 where
  start : Reach initial_issue_state
  step :
      {s : IssueState} (c : IssueCommand) (e : IssueEvent)
      → Reach s
      → decide c s ≡ emits e
      → Reach (evolve s e)

-- Before any run only an anomaly can stand; from the first run on, the run is known.
pub record IsCoherent (s : IssueState) : Type 0 where
  pub fresh : s.lifecycle ≡ no_run → s ≡ record initial_issue_state { anomaly = s.anomaly }
  pub tagged : s.lifecycle ≢ no_run → is_some s.run_id ≡ true
