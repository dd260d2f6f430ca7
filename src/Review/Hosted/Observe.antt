-- ===== src/Review/Hosted/Observe.antt =====
-- review/hosted-gate.ts `observe`: the bounded wait for the reviewer to look at a head. The reads
-- of the polls stand as a function of the poll's number; an abort is an exception and is left out.
pub mod Bounded
use ralph_autopilot.Common.{
  ℕ, zero, suc, ◌+◌, ◌≤◌, ◌<◌, ◌≡◌, refl, Bool, true, false, not, ◌&&◌, ◌||◌, ltb, ◌==◌, Option,
  none, some, List, [], ◌∷◌, any, length, Text, text_eq, codes, if◌then◌else◌, Bool-cases, inl, inr,
  arith,
}
use ralph_autopilot.Review.Hosted.{Platform, ReviewThread, HostedFinding}
use ralph_autopilot.Review.Hosted.Threads.{HostedWorklist, build_hosted_worklist}
use ralph_autopilot.Review.Hosted.Block.{
  UnavailableReason, MergeBlockCause, MergeBlockInput, MergeStateStatus, threads_unavailable,
  hosted_review, hosted_gate_clean, classify_merge_block, is_empty,
}

pub data ReviewThreadsRead : Type 0 where
  threads : List ReviewThread → Option Text → ReviewThreadsRead
  unavailable : UnavailableReason → Text → ReviewThreadsRead

pub data HostedGateVerdict : Type 0 where
  clean_head : Option Text → HostedGateVerdict
  findings_head : HostedWorklist → List HostedFinding → Option Text → HostedGateVerdict
  blocked_head : MergeBlockCause → Option Text → HostedGateVerdict
  defer : Text → HostedGateVerdict

-- The event that one observation records.
pub record Observation : Type 0 where
  pub head_sha : Text
  pub unresolved : ℕ
  pub human_threads : ℕ
  pub unknown_bots : ℕ

-- What the pass returns, with the number of reads it made and the event it recorded; the last field
-- tells that the loop ran out, which the code calls unreachable.
pub record ObserveResult : Type 0 where
  pub verdict : HostedGateVerdict
  pub reads : ℕ
  pub recorded : Option Observation
  pub fell_through : Bool

abbrev pub or_head : Option Text → Option Text → Option Text
or_head none h = h
or_head (some s) h = some s

abbrev same_sha : Option Text → Text → Bool
same_sha none head = false
same_sha (some s) head = text_eq s head

-- The reviewer has spoken about the head, or has nothing to say on any.
abbrev pub saw_head : List ReviewThread → Option Text → Bool
saw_head ts none = true
saw_head ts (some head) = is_empty ts || any (λ (t : ReviewThread). same_sha t.reviewed_sha head) ts

abbrev observation_of : Option Text → HostedWorklist → Option Observation
observation_of none w = none
observation_of (some []) w = none
observation_of (some (c ∷ head)) w = some (record {
  head_sha = c ∷ head;
  unresolved = length w.buckets.findings;
  human_threads = length w.buckets.human_threads;
  unknown_bots = length w.buckets.unknown_bot_threads;
})

abbrev verdict_of_cause : MergeBlockCause → HostedWorklist → Option Text → HostedGateVerdict
verdict_of_cause (hosted_review fs) w head = findings_head w fs head
verdict_of_cause cause w head = blocked_head cause head

abbrev blocked_input : HostedWorklist → MergeBlockInput
blocked_input w = record {
  merge = record { state = MergeStateStatus.blocked; review_decision = none; head_sha = none };
  worklist = some w;
  threads_unavailable = none;
  checks = none;
}

unfoldable pub verdict : HostedWorklist → Option Text → HostedGateVerdict
verdict w head =
    if hosted_gate_clean w
    then clean_head head
    else verdict_of_cause (classify_merge_block (blocked_input w)) w head

abbrev pub is_rate_limited : UnavailableReason → Bool
is_rate_limited UnavailableReason.rate_limited = true
is_rate_limited _ = false

abbrev failed_verdict : UnavailableReason → Text → Option Text → HostedGateVerdict
failed_verdict reason detail head =
    if is_rate_limited reason
    then defer detail
    else blocked_head (threads_unavailable reason detail) head

-- Behind the loop.
abbrev exhausted : Option ReviewThreadsRead → Option Text → HostedGateVerdict
exhausted (some (threads ts h)) head = clean_head head
exhausted _ head = defer (codes "hosted review observation exhausted")

-- `Math.max(1, polls)`
abbrev pub at_least_one : ℕ → ℕ
at_least_one polls = if ltb 1 polls then polls else 1

module _ (p : Platform) (head_sha : Option Text) (read : ℕ → ReviewThreadsRead) where
  -- One read of threads: the result, or none where the loop naps and goes on.
  abbrev pub look : ℕ → Bool → List ReviewThread → Option Text → Option ObserveResult
  look poll last ts head =
      let w = build_hosted_worklist p ts head in
      if saw_head ts head || last
      then some (record {
        verdict = verdict w head;
        reads = poll + 1;
        recorded = observation_of head w;
        fell_through = false;
      })
      else none

  abbrev pub poll_once : ℕ → Bool → ReviewThreadsRead → Option ObserveResult
  poll_once poll last (unavailable reason detail) = some (record {
    verdict = failed_verdict reason detail head_sha;
    reads = poll + 1;
    recorded = none;
    fell_through = false;
  })
  poll_once poll last (threads ts h) = look poll last ts (or_head head_sha h)

  abbrev or_poll : Option ObserveResult → ObserveResult → ObserveResult
  or_poll none rest = rest
  or_poll (some r) rest = r

  -- The polls that are left, the number of the next one, and the read before it.
  unfoldable pub observe_loop : ℕ → ℕ → Option ReviewThreadsRead → ObserveResult
  unfolding verdict
  observe_loop zero poll last = record {
    verdict = exhausted last head_sha;
    reads = poll;
    recorded = none;
    fell_through = true;
  }
  observe_loop (suc left) poll last =
      let rest = observe_loop left (poll + 1) (some (read poll)) in
      or_poll (poll_once poll (left == 0) (read poll)) rest

  -- At least one poll is made.
  unfoldable pub observe : ℕ → ObserveResult
  unfolding observe_loop
  observe polls = observe_loop (at_least_one polls) 0 none
