-- ===== src/Master/Queue.antt =====
-- master/queue.ts: the escalation that runs this tick.
pub mod First
use ralph_autopilot.Common.{
  ℕ, Bool, true, false, not, Option, none, some, List, [], ◌∷◌, find, if◌then◌else◌,
}
use ralph_autopilot.Store.Types.{Run}

pub record MasterQueueWorld : Type 0 where
  pub queued : List Run
  pub is_busy : ℕ → Bool
  pub has_capacity : Bool
  pub master_lease_held : Bool

pub data MasterQueueSkip : Type 0 where
  empty lease_held no_capacity all_busy : MasterQueueSkip

pub data MasterQueueSelection : Type 0 where
  selected : Run → MasterQueueSelection
  skip : MasterQueueSkip → MasterQueueSelection

abbrev is_empty : List Run → Bool
is_empty [] = true
is_empty (_ ∷ _) = false

free_or_busy : Option Run → MasterQueueSelection
free_or_busy none = skip all_busy
free_or_busy (some run) = selected run

pub select_master_task : MasterQueueWorld → MasterQueueSelection
unfolding free_or_busy
select_master_task world =
    if is_empty world.queued
    then skip empty
    else if world.master_lease_held
    then skip lease_held
    else if not world.has_capacity
    then skip no_capacity
    else free_or_busy (find (λ r. not (world.is_busy r.issue_number)) world.queued)
