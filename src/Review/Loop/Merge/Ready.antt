-- ===== src/Review/Loop/Merge/Ready.antt =====
-- review/review-loop.ts `awaitMergeable`: what a ready verdict rests on.
use ralph_autopilot.Common.{
  ℕ, zero, suc, ◌≡◌, refl, ap, ◌∙◌, Bool, true, false, Option, none, some, [], ◌∷◌, inl, inr,
  Bool-cases, Text, arith,
}
use ralph_autopilot.Review.Hosted.Block.{MergeStateStatus, MergeStatusSnapshot, is_mergeable_state}
use ralph_autopilot.Review.Loop.{
  hosted_rate_limited, Result, ok, thrown, Act, pure, bound, Worklist, of_merge_blocked,
  master_triage,
}
use ralph_autopilot.Review.Loop.Phases.{
  LoopDeps, HostedDecision, clear, repaired, stuck_on, resync_on, defer_on,
}
use ralph_autopilot.Review.Loop.Merge.{
  MergeReadiness, ready, stuck, is_moved_state, is_blocked_state, give_up_merge, on_decision,
  after_polls, poll_state, poll_merge, hosted_only_rounds, hosted_round, wait_by, max_polls,
  await_mergeable,
}

module _ {W : Type 0} (deps : LoopDeps W) where
  -- A state was read, and the gate was consulted on it and is clear, in the world that is ready;
  -- with a wait for checks the state is one that permits a merge. Only where neither checks nor a
  -- gate are configured is there no such read.
  pub data IsReady (w' : W) : Type 0 where
    ungated : deps.wait_for_checks ≡ false → deps.hosted_gate_wired ≡ false → IsReady w'
    consulted :
        (before w : W) (s : MergeStatusSnapshot)
        → deps.read_merge_status before ≡ (ok s, w)
        → deps.hosted_observe s w ≡ (ok clear, w')
        → (deps.wait_for_checks ≡ true → is_mergeable_state s.state ≡ true)
        → IsReady w'

  -- The rest of a wait.
  abbrev Readies : Act W MergeReadiness → Type 0
  Readies m = (w w' : W) → m w ≡ (ok ready, w') → IsReady w'

  given_up : (wl : Worklist) (attempts : ℕ) → Readies (give_up_merge deps wl attempts)
  given_up wl attempts w w' e =
      let b =
        bound (deps.escalate_to_master _ wl attempts) (λ _. pure (stuck (master_triage _))) w e in
      absurd (ground (arith, b.then_second))

  observed :
      (before w : W) (s : MergeStatusSnapshot) (d : HostedDecision)
      (on_defer : Text → Act W MergeReadiness) (on_repair : Act W MergeReadiness) (w1 w' : W)
      → deps.read_merge_status before ≡ (ok s, w)
      → (deps.wait_for_checks ≡ true → is_mergeable_state s.state ≡ true)
      → ((detail : Text) → Readies (on_defer detail))
      → Readies on_repair
      → deps.hosted_observe s w ≡ (ok d, w1)
      → on_decision deps d (pure ready) on_defer on_repair w1 ≡ (ok ready, w')
      → IsReady w'
  observed before w s clear on_defer on_repair w1 w' r p f g o e =
      consulted before w s r (o ∙ ap (λ (x : Result MergeReadiness × W). (ok clear, x.1)) e) p
  observed before w s repaired on_defer on_repair w1 w' r p f g o e = g w1 w' e
  observed before w s (stuck_on x) on_defer on_repair w1 w' r p f g o e = absurd (ground arith)
  observed before w s (resync_on x) on_defer on_repair w1 w' r p f g o e = absurd (ground arith)
  observed before w s (defer_on x) on_defer on_repair w1 w' r p f g o e = f x w1 w' e

  classified :
      (d : HostedDecision) (next : Option Text → Act W MergeReadiness) (w1 w' : W)
      → ((o : Option Text) → Readies (next o))
      → on_decision deps d (next none) (λ detail. next (some detail)) (next none) w1
        ≡ (ok ready, w')
      → IsReady w'
  classified clear next w1 w' f e = f none w1 w' e
  classified repaired next w1 w' f e = f none w1 w' e
  classified (stuck_on x) next w1 w' f e = absurd (ground arith)
  classified (resync_on x) next w1 w' f e = absurd (ground arith)
  classified (defer_on x) next w1 w' f e = f (some x) w1 w' e

  poll_state-IsReady :
      (before w : W) (s : MergeStatusSnapshot) (next : Option Text → Act W MergeReadiness) (w' : W)
      → deps.read_merge_status before ≡ (ok s, w)
      → ((o : Option Text) → Readies (next o))
      → poll_state deps s next w ≡ (ok ready, w')
      → IsReady w'
  poll_state-IsReady before w s next w' r f e = elim (Bool-cases (is_mergeable_state s.state)) [
    | inl m ↦
        let b =
          bound (deps.hosted_observe s)
            (λ d. on_decision deps d (pure ready) (λ detail. next (some detail)) (next none)) w
            (rw m at e) in
        observed before w s b.value (λ detail. next (some detail)) (next none) b.between w' r
          (λ _. m) (λ detail. f (some detail)) (f none) b.first b.then_second
    | inr m ↦ elim (Bool-cases (is_moved_state s.state)) [
      | inl k ↦ absurd (let e' = rw (m, k) at e in ground arith)
      | inr k ↦ elim (Bool-cases (is_blocked_state s.state)) [
        | inr l ↦ f none w w' (rw (m, k, l) at e)
        | inl l ↦
            let b =
              bound (deps.hosted_classify s)
                (λ d. on_decision deps d (next none) (λ detail. next (some detail)) (next none)) w
                (rw (m, k, l) at e) in
            classified b.value next b.between w' f b.then_second
      ]
    ]
  ]

  after_polls-IsReady :
      (last : MergeStateStatus) (deferred : Option Text) (polls : ℕ)
      → Readies (after_polls deps last deferred polls)
  after_polls-IsReady last none polls w w' e = given_up (of_merge_blocked last) polls w w' e
  after_polls-IsReady last (some []) polls w w' e = given_up (of_merge_blocked last) polls w w' e
  after_polls-IsReady last (some (c ∷ detail)) polls w w' e = absurd (ground arith)

  poll_merge-IsReady :
      (left polls : ℕ) (last : MergeStateStatus) (deferred : Option Text)
      → Readies (poll_merge deps left polls last deferred)
  unfolding poll_merge
  poll_merge-IsReady zero polls last deferred w w' e =
      after_polls-IsReady last deferred polls w w' e
  poll_merge-IsReady (suc left) polls last deferred w w' e =
      let b =
        bound deps.read_merge_status (λ s. poll_state deps s (poll_merge deps left polls s.state)) w
          e in
      poll_state-IsReady w b.between b.value (poll_merge deps left polls b.value.state) w' b.first
        (λ o. poll_merge-IsReady left polls b.value.state o) b.then_second

  hosted_only_rounds-IsReady :
      (left : ℕ) → deps.wait_for_checks ≡ false → Readies (hosted_only_rounds deps left)
  unfolding hosted_only_rounds
  hosted_only_rounds-IsReady zero off w w' e =
      let b =
        bound deps.hosted_attempts (give_up_merge deps (of_merge_blocked MergeStateStatus.unknown))
          w e in
      given_up (of_merge_blocked MergeStateStatus.unknown) b.value b.between w' b.then_second
  hosted_only_rounds-IsReady (suc left) off w w' e =
      let rest = hosted_only_rounds deps left in
      let b = bound deps.read_merge_status (hosted_round deps rest) w e in
      elim (Bool-cases (is_moved_state b.value.state)) [
        | inl k ↦ absurd (let e' = rw k at b.then_second in ground arith)
        | inr k ↦
            let c =
              bound (deps.hosted_observe b.value)
                (λ d.
                  on_decision deps d (pure ready)
                    (λ detail v. (thrown (hosted_rate_limited detail), v)) rest)
                b.between (rw k at b.then_second) in
            observed w b.between b.value c.value
              (λ detail v. (thrown (hosted_rate_limited detail), v)) rest c.between w' b.first
              (λ on. absurd (ground arith)) (λ detail v v' x. absurd (ground arith))
              (hosted_only_rounds-IsReady left off) c.first c.then_second
      ]

  waits-IsReady :
      (checks gate : Bool)
      → deps.wait_for_checks ≡ checks
      → deps.hosted_gate_wired ≡ gate
      → Readies (wait_by deps checks gate)
  waits-IsReady true gate c g w w' e =
      poll_merge-IsReady (max_polls deps) (max_polls deps) MergeStateStatus.unknown none w w' e
  waits-IsReady false true c g w w' e =
      hosted_only_rounds-IsReady (suc deps.max_fix_attempts) c w w' e
  waits-IsReady false false c g w w' e = ungated c g

  -- The wait for a merge says ready only where it read the state of the merge and the hosted gate,
  -- consulted on that state, is clear, with nothing done since; with a wait for checks the state is
  -- one that permits a merge. Without checks and without a gate it says so at once.
  pub await_mergeable-IsReady : (w w' : W) → await_mergeable deps w ≡ (ok ready, w') → IsReady w'
  unfolding await_mergeable
  await_mergeable-IsReady w w' e =
      let b =
        bound deps.hosted_start (λ _. wait_by deps deps.wait_for_checks deps.hosted_gate_wired) w
          e in
      waits-IsReady deps.wait_for_checks deps.hosted_gate_wired refl refl b.between w' b.then_second
