-- ===== src/Master/Queue/First.antt =====
-- What the queue selects.
use ralph_autopilot.Common.{
  ℕ, ◌≡◌, refl, subst, Bool, true, false, not, Option, none, some, List, [], ◌∷◌, ◌++◌, find, All,
  arith, inl, inr, Bool-cases,
}
use ralph_autopilot.Store.Types.{Run}
use ralph_autopilot.Master.Queue.{
  MasterQueueWorld, MasterQueueSelection, selected, skip, empty, lease_held, no_capacity, all_busy,
  select_master_task, free_or_busy,
}

-- The queue splits at the run: every run before it is busy, and it is not.
pub record IsFirstFree (busy : ℕ → Bool) (queued : List Run) (run : Run) : Type 0 where
  pub before : List Run
  pub after : List Run
  pub split : queued ≡ before ++ run ∷ after
  pub passed : All (λ r. busy r.issue_number ≡ true) before
  pub free : busy run.issue_number ≡ false

find-IsFirstFree :
    (busy : ℕ → Bool) (queued : List Run) (run : Run)
    → find (λ r. not (busy r.issue_number)) queued ≡ some run
    → IsFirstFree busy queued run
find-IsFirstFree busy [] run h = absurd (ground arith)
find-IsFirstFree busy (r ∷ rs) run h = elim (Bool-cases (busy r.issue_number)) [
  | inl e ↦
      let f = find-IsFirstFree busy rs run (ground arith) in
      record {
        before = r ∷ f.before;
        after = f.after;
        split = ground (arith, f.split);
        passed = (e, f.passed);
        free = f.free;
      }
  | inr e ↦ record {
    before = [];
    after = rs;
    split = ground arith;
    passed = tt;
    free = ground arith;
  }
]

find-all_busy :
    (busy : ℕ → Bool) (queued : List Run)
    → find (λ r. not (busy r.issue_number)) queued ≡ none
    → All (λ r. busy r.issue_number ≡ true) queued
find-all_busy busy [] h = tt
find-all_busy busy (r ∷ rs) h = (ground arith, find-all_busy busy rs (ground arith))

-- What a selection says of the world that it was made in.
abbrev pub Justifies : MasterQueueWorld → MasterQueueSelection → Type 0
Justifies world (selected run) =
    (world.master_lease_held ≡ false)
    × (world.has_capacity ≡ true)
    × IsFirstFree world.is_busy world.queued run
Justifies world (skip empty) = world.queued ≡ []
Justifies world (skip lease_held) = world.master_lease_held ≡ true
Justifies world (skip no_capacity) = world.has_capacity ≡ false
Justifies world (skip all_busy) = All (λ r. world.is_busy r.issue_number ≡ true) world.queued

-- A master session is started only with the lease free and a slot open, for the run that waits
-- longest among those that are not busy; and where none is started, the reason that is logged
-- holds.
pub select_master_task-Justifies :
    (world : MasterQueueWorld) → Justifies world (select_master_task world)
unfolding select_master_task
select_master_task-Justifies world = go world.queued refl
  where
    pick :
        (o : Option Run)
        → find (λ r. not (world.is_busy r.issue_number)) world.queued ≡ o
        → world.master_lease_held ≡ false
        → world.has_capacity ≡ true
        → Justifies world (free_or_busy o)
    pick none e l c = unfold free_or_busy in find-all_busy world.is_busy world.queued e
    pick (some run) e l c =
        unfold free_or_busy in (l, c, find-IsFirstFree world.is_busy world.queued run e)

    go : (queued : List Run) → world.queued ≡ queued → Justifies world (select_master_task world)
    go [] e = unfold select_master_task in rw e refl
    go (r ∷ rs) e = elim (Bool-cases world.master_lease_held) [
      | inl l ↦
          let q : skip lease_held ≡ select_master_task world = ground arith in
          subst (Justifies world) q l
      | inr l ↦ elim (Bool-cases world.has_capacity) [
        | inl c ↦
            let q : free_or_busy (find (λ r. not (world.is_busy r.issue_number)) world.queued)
                ≡ select_master_task world =
              ground arith in
            subst (Justifies world) q (pick _ refl l c)
        | inr c ↦
            let q : skip no_capacity ≡ select_master_task world = ground arith in
            subst (Justifies world) q c
      ]
    ]
