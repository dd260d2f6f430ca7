-- ===== src/Review/Hosted/Observe/Bounded.antt =====
-- review/hosted-gate.ts: the wait ends, and what a clean verdict rests on.
use ralph_autopilot.Common.{
  ℕ, zero, suc, ◌+◌, ◌≤◌, ◌<◌, ◌≡◌, refl, ◌⊎◌, Bool, true, false, ◌||◌, ◌==◌, Option, none, some,
  List, Text, Bool-cases, inl, inr, arith,
}
use ralph_autopilot.Review.Hosted.{Platform, ReviewThread}
use ralph_autopilot.Review.Hosted.Threads.{HostedWorklist, build_hosted_worklist}
use ralph_autopilot.Review.Hosted.Block.{
  hosted_gate_clean, classify_merge_block, MergeBlockCause, UnavailableReason,
}
use ralph_autopilot.Review.Hosted.Observe.{
  ReviewThreadsRead, threads, unavailable, HostedGateVerdict, clean_head, ObserveResult, or_head,
  saw_head, verdict, look, poll_once, at_least_one, observe_loop, observe, or_poll,
  verdict_of_cause, blocked_input, failed_verdict,
}

at_least_one-suc : (polls : ℕ) → (k : ℕ) × (at_least_one polls ≡ suc k)
at_least_one-suc zero = (0, refl)
at_least_one-suc (suc n) = (n, ground arith)

is_clean : HostedGateVerdict → Bool
is_clean (clean_head h) = true
is_clean _ = false

verdict_of_cause-is_clean :
    (c : MergeBlockCause) (w : HostedWorklist) (head : Option Text)
    → is_clean (verdict_of_cause c w head) ≡ false
unfolding is_clean
verdict_of_cause-is_clean (MergeBlockCause.hosted_review fs) w head = refl
verdict_of_cause-is_clean _ w head = refl

failed_verdict-is_clean :
    (reason : UnavailableReason) (detail : Text) (head : Option Text)
    → is_clean (failed_verdict reason detail head) ≡ false
unfolding is_clean
failed_verdict-is_clean reason detail head = ground arith

verdict-clean :
    (w : HostedWorklist) (head h : Option Text)
    → verdict w head ≡ clean_head h
    → (h ≡ head) × (hosted_gate_clean w ≡ true)
unfolding verdict is_clean
verdict-clean w head h e =
    ground (arith, verdict_of_cause-is_clean (classify_merge_block (blocked_input w)) w head)

module _ (p : Platform) (head_sha : Option Text) (read : ℕ → ReviewThreadsRead) where
  -- The last poll returns.
  Returned : ℕ → ObserveResult → Type 0
  Returned most r = (r.fell_through ≡ false) × (1 ≤ r.reads) × (r.reads ≤ most)

  poll_once-last :
      (poll : ℕ) (r : ReviewThreadsRead) (rest : ObserveResult)
      → Returned (poll + 1) (or_poll p head_sha read (poll_once p head_sha read poll true r) rest)
  unfolding Returned
  poll_once-last poll (unavailable reason detail) rest = (refl, omega arith, omega arith)
  poll_once-last poll (threads ts h) rest = ground arith

  poll_once-any :
      (poll most : ℕ) (r : ReviewThreadsRead) (rest : ObserveResult)
      → Returned most rest
      → poll + 1 ≤ most
      → Returned most (or_poll p head_sha read (poll_once p head_sha read poll false r) rest)
  unfolding Returned
  poll_once-any poll most (unavailable reason detail) rest h l = (refl, omega arith, omega arith)
  poll_once-any poll most (threads ts head) rest h l = ground arith

  observe_loop-returns :
      (n poll most : ℕ) (last : Option ReviewThreadsRead)
      → poll + suc n ≡ most
      → Returned most (observe_loop p head_sha read (suc n) poll last)
  unfolding observe_loop
  observe_loop-returns zero poll most last e = rw (← e) (
      poll_once-last poll (read poll)
        (observe_loop p head_sha read 0 (poll + 1) (some (read poll))))
  observe_loop-returns (suc n) poll most last e =
      let more : (suc n == 0) ≡ false = ground arith in
      rw (more, observe_loop)
        (poll_once-any poll most (read poll)
          (observe_loop p head_sha read (suc n) (poll + 1) (some (read poll)))
          (observe_loop-returns n (poll + 1) most (some (read poll)) (omega arith)) (omega arith))

  -- The wait for the reviewer ends with a verdict of one of its polls, after at least one read and
  -- at most as many as there are polls; the return behind the loop is not reached.
  pub observe-returns :
      (polls : ℕ)
      → ((observe p head_sha read polls).fell_through ≡ false)
        × (1 ≤ (observe p head_sha read polls).reads)
        × ((observe p head_sha read polls).reads ≤ at_least_one polls)
  unfolding observe Returned
  observe-returns polls =
      let (k, e) = at_least_one-suc polls in
      rw (e, observe) (observe_loop-returns k 0 (suc k) none (omega arith))

  -- What a clean verdict of poll `k` rests on.
  pub record IsCleanRead (most k : ℕ) (h : Option Text) : Type 0 where
    pub within : k < most
    pub seen : List ReviewThread
    pub reported : Option Text
    pub was_read : read k ≡ threads seen reported
    pub of_head : h ≡ or_head head_sha reported
    pub nothing_open : hosted_gate_clean (build_hosted_worklist p seen h) ≡ true
    pub observed : (saw_head seen h ≡ true) ⊎ (suc k ≡ most)

  look-IsCleanRead :
      (poll most : ℕ) (flag : Bool) (ts : List ReviewThread) (reported h : Option Text)
      (rest : ObserveResult)
      → poll < most
      → (flag ≡ false) ⊎ (suc poll ≡ most)
      → read poll ≡ threads ts reported
      → (or_poll p head_sha read
          (look p head_sha read poll flag ts (or_head head_sha reported))
          rest).verdict
        ≡ clean_head h
      → IsCleanRead most poll h ⊎ ((flag ≡ false) × (rest.verdict ≡ clean_head h))
  look-IsCleanRead poll most flag ts reported h rest l f was v =
      elim (Bool-cases (saw_head ts (or_head head_sha reported) || flag)) [
        | inr e ↦ inr (ground arith, ground arith)
        | inl e ↦
            let (same, open_none) =
              verdict-clean (build_hosted_worklist p ts (or_head head_sha reported))
                (or_head head_sha reported) h (rw e at v) in
            inl (record {
              within = l;
              seen = ts;
              reported = reported;
              was_read = was;
              of_head = same;
              nothing_open = rw same open_none;
              observed = rw same (ground arith);
            })
      ]

  poll_once-IsCleanRead :
      (poll most : ℕ) (flag : Bool) (r : ReviewThreadsRead) (h : Option Text) (rest : ObserveResult)
      → poll < most
      → (flag ≡ false) ⊎ (suc poll ≡ most)
      → read poll ≡ r
      → (or_poll p head_sha read (poll_once p head_sha read poll flag r) rest).verdict
        ≡ clean_head h
      → IsCleanRead most poll h ⊎ ((flag ≡ false) × (rest.verdict ≡ clean_head h))
  unfolding is_clean
  poll_once-IsCleanRead poll most flag (unavailable reason detail) h rest l f was v =
      absurd (ground (arith, failed_verdict-is_clean reason detail head_sha))
  poll_once-IsCleanRead poll most flag (threads ts reported) h rest l f was v =
      look-IsCleanRead poll most flag ts reported h rest l f was v

  observe_loop-IsCleanRead :
      (n poll most : ℕ) (last : Option ReviewThreadsRead) (h : Option Text)
      → poll + suc n ≡ most
      → (observe_loop p head_sha read (suc n) poll last).verdict ≡ clean_head h
      → (k : ℕ) × IsCleanRead most k h
  unfolding observe_loop
  observe_loop-IsCleanRead zero poll most last h e v =
      elim (poll_once-IsCleanRead poll most true (read poll) h
        (observe_loop p head_sha read 0 (poll + 1) (some (read poll))) (omega arith)
        (inr (omega arith)) refl v) [ inl clean ↦ (poll, clean) | inr (no_flag, later) ↦ cc ]
  observe_loop-IsCleanRead (suc n) poll most last h e v =
      let more : (suc n == 0) ≡ false = ground arith in
      elim (poll_once-IsCleanRead poll most (suc n == 0) (read poll) h
        (observe_loop p head_sha read (suc n) (poll + 1) (some (read poll))) (omega arith)
        (inl more) refl v) [
          | inl clean ↦ (poll, clean)
          | inr (flag, later) ↦
              observe_loop-IsCleanRead n (poll + 1) most (some (read poll)) h (omega arith) later
        ]

  -- A clean verdict rests on a read of threads within the polls that leaves nothing open on the
  -- head, and in which the reviewer has spoken about that head, or has no thread at all, unless it
  -- is the read of the last poll.
  pub observe-IsCleanRead :
      (polls : ℕ) (h : Option Text)
      → (observe p head_sha read polls).verdict ≡ clean_head h
      → (k : ℕ) × IsCleanRead (at_least_one polls) k h
  unfolding observe
  observe-IsCleanRead polls h v =
      let (n, e) = at_least_one-suc polls in
      rw e (observe_loop-IsCleanRead n 0 (suc n) none h (omega arith) (rw (e, observe) at v))
