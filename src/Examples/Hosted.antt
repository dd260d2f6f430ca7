-- ===== src/Examples/Hosted.antt =====
-- Runs of review/hosted-review.ts, review/hosted-gate.ts and review/worklist.ts.
use mathlib.Core.List.{Perm}
use ralph_autopilot.Common.{
  ℕ, zero, suc, ◌≡◌, ◌≢◌, ◌≤◌, refl, true, false, not, ◌&&◌, none, some, is_some, List, [], ◌∷◌,
  any, All, foldl, map, length, ◌+◌, codes, Text, text_eq,
}
use ralph_autopilot.Review.Hosted.{
  Platform, ReviewThread, ReviewThreadAuthorType, HostedFinding, HostedSeverity, read_severity,
}
use ralph_autopilot.Review.Hosted.Threads.{
  HostedWorklist, no_buckets, admit_thread, worklist_step, build_hosted_worklist,
}
use ralph_autopilot.Review.Hosted.Threads.Placed.{
  all_findings, open_findings, build_hosted_worklist-perm,
}
use ralph_autopilot.Review.Hosted.Block.{
  MergeStateStatus, bucket_by_author, MergeBlockInput, ChecksState, human_review,
  is_mergeable_state, has_work, is_mergeable, classify_merge_block,
}
use ralph_autopilot.Review.Hosted.Block.Verdict.{classify_merge_block-is_mergeable}
use ralph_autopilot.Review.Hosted.Gate.{
  GateWorld, GateOutcomes, DispositionInput, DispositionKind, DisposeResult, written, lost,
  unrecorded, run_started, gate_step, fold_hosted_gate_state, reply_to_finding, resolve_finding,
  dispose_finding,
}
use ralph_autopilot.Review.Hosted.Gate.Once.{
  Pass, run_pass, occurrences, bit, resolved_in, lost_records, run_pass-occurrences,
}
use ralph_autopilot.Review.Hosted.Gate.Recorded.{dispose_finding-again}
use ralph_autopilot.Review.Loop.{Fault, other_error}
use ralph_autopilot.Review.Hosted.Observe.{
  ReviewThreadsRead, threads, verdict, observe_loop, observe, at_least_one,
}
use ralph_autopilot.Review.Hosted.Observe.Bounded.{
  IsCleanRead, observe-returns, observe-IsCleanRead,
}
use ralph_autopilot.Review.Worklist.{
  WorklistItem, severity_p0, nit, out_of_scope, is_clean, dedupe_worklist,
}
use ralph_autopilot.Review.Worklist.Dedupe.{stands_for, dedupe_worklist-stands_for}

-- Text of the lower case, and a digest of zeros.
abbrev pub platform : Platform
platform = record { lower_case = λ t. t; sha256_hex = λ t. codes "0000000000000000" }

abbrev thread_of : Text → Text → Text → ReviewThread
thread_of id author body = record {
  id = id;
  is_resolved = false;
  is_outdated = false;
  path = some (codes "src/a.ts");
  line = some 12;
  side = none;
  reviewed_sha = some (codes "abc");
  comments = record { id = codes "c"; author = author; author_is_bot = true; body = body } ∷ [];
}

abbrev pub codex_thread : ReviewThread
codex_thread = thread_of (codes "t1") (codes "Codex") (codes "This is a MUST-FIX bug")

abbrev ralph_thread : ReviewThread
ralph_thread = thread_of (codes "t2") (codes "ralph-autopilot[bot]") (codes "note")

abbrev stale_thread : ReviewThread
stale_thread = record ralph_thread { id = codes "t3"; is_outdated = true }

abbrev done_thread : ReviewThread
done_thread = record codex_thread { id = codes "t4"; is_resolved = true }

abbrev bot_thread : ReviewThread
bot_thread = record (thread_of (codes "t5") (codes "lint") (codes "nit: space")) {
  reviewed_sha = some (codes "def");
}

abbrev seen : List ReviewThread
seen = codex_thread ∷ ralph_thread ∷ stale_thread ∷ done_thread ∷ bot_thread ∷ []

severity_run :
    (read_severity (codes "This is a MUST-FIX bug") ≡ some HostedSeverity.severity0)
    × (read_severity (codes "high5 and nitpicky") ≡ none)
    × (read_severity (codes "a lowly, low (p2) thing") ≡ some HostedSeverity.severity2)
unfolding read_severity
severity_run = (refl, refl, refl)

opened_example :
    Perm
      (all_findings (build_hosted_worklist platform seen (some (codes "abc"))))
      (open_findings platform seen)
opened_example = build_hosted_worklist-perm platform seen (some (codes "abc"))

abbrev finding_from : Text → ReviewThreadAuthorType → HostedFinding
finding_from id author = record {
  thread_id = id;
  latest_comment_id = codes "c";
  latest_comment_hash = codes "gggg";
  reviewed_sha = some (codes "abc");
  severity = some HostedSeverity.severity0;
  path = none;
  line = none;
  side = none;
  finding = codes "bug";
  evidence = codes "thread";
  author_type = author;
  author = codes "codex";
}

abbrev codex_finding : HostedFinding
codex_finding = finding_from (codes "t1") ReviewThreadAuthorType.hosted_reviewer

abbrev ralph_finding : HostedFinding
ralph_finding = finding_from (codes "t3") ReviewThreadAuthorType.ralph

-- Nothing but an outdated thread of Ralph's own is left.
abbrev only_stale : HostedWorklist
only_stale = record { buckets = no_buckets; unresolved_stale = ralph_finding ∷ [] }

abbrev stuck_input : MergeBlockInput
stuck_input = record {
  merge = record { state = MergeStateStatus.blocked; review_decision = none; head_sha = none };
  worklist = some only_stale;
  threads_unavailable = none;
  checks = none;
}

abbrev waiting_input : MergeBlockInput
waiting_input = record stuck_input {
  checks = some (record { state = ChecksState.pending; failures = codes "build" ∷ [] });
}

-- A block by an outdated thread of Ralph alone is reported as a missing human review.
dropped_run : classify_merge_block stuck_input ≡ human_review none []
unfolding classify_merge_block bucket_by_author
dropped_run = refl

mergeable_example : is_mergeable (classify_merge_block stuck_input) ≡ (
    is_mergeable_state MergeStateStatus.blocked
    && not (is_some stuck_input.threads_unavailable)
    && not (has_work (some only_stale)))
mergeable_example = classify_merge_block-is_mergeable stuck_input

abbrev reply : DispositionInput
reply = record {
  disposition = DispositionKind.fixed;
  rationale = codes "guarded";
  verification = codes "tests";
  head_sha = codes "abc";
}

abbrev pub fresh : GateWorld
fresh = record { stream = run_started ∷ []; replies = []; resolves = [] }

named : {c : ℕ} {id : Text} → c ∷ id ≢ []
named e = cc

abbrev stopped : Fault
stopped = other_error (codes "stopped")

-- A pass that stops behind the reply, one that stops between the resolution and its record, and two
-- that do not stop.
abbrev passes : List Pass
passes =
    map (λ o. record { finding = codex_finding; input = reply; outcomes = o })
      (record { of_reply = written; of_resolve = lost stopped }
        ∷ record { of_reply = written; of_resolve = unrecorded stopped }
        ∷ record { of_reply = written; of_resolve = written }
        ∷ record { of_reply = written; of_resolve = written }
        ∷ [])

resolutions_example :
    occurrences (codes "t1") (foldl run_pass fresh passes).resolves
    ≤ occurrences (codes "t1") []
      + bit (not (resolved_in fresh (codes "t1")))
      + lost_records (codes "t1") passes
resolutions_example = run_pass-occurrences passes (codes "t1") fresh named

-- The resolution without a record is made again; the reply is not.
resolved_twice :
    ((foldl run_pass fresh passes).resolves ≡ codes "t1" ∷ codes "t1" ∷ [])
    × (length (foldl run_pass fresh passes).replies ≡ 1)
unfolding run_pass dispose_finding reply_to_finding resolve_finding fold_hosted_gate_state gate_step
    text_eq
resolved_twice = (refl, refl)

abbrev both : GateOutcomes
both = record { of_reply = written; of_resolve = written }

again_example :
    (dispose_finding both codex_finding reply (dispose_finding both codex_finding reply fresh).1).1
    ≡ (dispose_finding both codex_finding reply fresh).1
unfolding dispose_finding reply_to_finding resolve_finding fold_hosted_gate_state gate_step text_eq
again_example =
    dispose_finding-again codex_finding named both both reply reply fresh
      (dispose_finding both codex_finding reply fresh).1 (DisposeResult.disposed true true) refl

-- The reviewer has spoken about an older head at first, and then has resolved its thread on this one.
abbrev reads : ℕ → ReviewThreadsRead
reads zero = threads (bot_thread ∷ []) none
reads (suc n) = threads (done_thread ∷ []) none

bounded_example :
    ((observe platform (some (codes "abc")) reads 6).fell_through ≡ false)
    × (1 ≤ (observe platform (some (codes "abc")) reads 6).reads)
    × ((observe platform (some (codes "abc")) reads 6).reads ≤ at_least_one 6)
bounded_example = observe-returns platform (some (codes "abc")) reads 6

clean_example :
    (k : ℕ) × IsCleanRead platform
      (some (codes "abc"))
      reads
      (at_least_one 6)
      k
      (some (codes "abc"))
unfolding observe observe_loop verdict build_hosted_worklist worklist_step admit_thread text_eq
clean_example = observe-IsCleanRead platform (some (codes "abc")) reads 6 (some (codes "abc")) refl

abbrev items : List WorklistItem
items =
    record { severity = nit; title = codes "a"; detail = none; source = none }
    ∷ record { severity = out_of_scope; title = codes "b"; detail = none; source = none }
    ∷ record { severity = severity_p0; title = codes "a"; detail = none; source = none }
    ∷ []

consolidated_example :
    All
      (λ (i : WorklistItem). any (stands_for (λ t. t) i) (dedupe_worklist (λ t. t) items) ≡ true)
      items
    × (is_clean (dedupe_worklist (λ t. t) items) ≡ is_clean items)
consolidated_example = dedupe_worklist-stands_for (λ t. t) items
