-- ===== src/Review/Hosted/Threads.antt =====
-- review/hosted-review.ts: the worklist of one head, `admitThread` and `buildHostedWorklist`.
pub mod Placed
use mathlib.Core.List.{Perm, perm_append_singleton, perm_middle}
use mathlib.Core.List.Perm
use ralph_autopilot.Common.{
  ◌≡◌, subst, sym, Bool, true, false, not, ◌&&◌, ◌||◌, Option, none, some, List, [], ◌∷◌, ◌++◌,
  append_assoc, append-nil, foldl, perm_swap, Text, text_eq, if◌then◌else◌, arith, inl, inr,
  Bool-cases,
}
use ralph_autopilot.Review.Hosted.{
  Platform, ReviewThread, ReviewThreadComment, ReviewThreadAuthorType, HostedFinding,
  thread_author_type, normalize_comments, author_of_first,
}

pub data ThreadSkipReason : Type 0 where
  resolved outdated ralph_authored stale_head empty : ThreadSkipReason

pub data ThreadAdmission : Type 0 where
  admitted : ThreadAdmission
  skipped : ThreadSkipReason → ThreadAdmission

-- The empty string is no commit.
abbrev anchored_to : Option Text → Option Text → Bool
anchored_to (some (a ∷ s)) (some (b ∷ h)) = text_eq (a ∷ s) (b ∷ h)
anchored_to _ _ = true

abbrev pub anchored_to_head : ReviewThread → Option Text → Bool
anchored_to_head thread head = anchored_to thread.reviewed_sha head

abbrev pub is_ralph : ReviewThreadAuthorType → Bool
is_ralph ReviewThreadAuthorType.ralph = true
is_ralph _ = false

abbrev pub has_no_comment : List ReviewThreadComment → Bool
has_no_comment [] = true
has_no_comment (c ∷ cs) = false

unfoldable pub admit_thread : ReviewThread → Option Text → ThreadAdmission
admit_thread thread head =
    if has_no_comment thread.comments
    then skipped empty
    else if thread.is_resolved
    then skipped resolved
    else if thread.is_outdated
    then skipped outdated
    else if is_ralph (thread_author_type thread)
    then skipped ralph_authored
    else if not (anchored_to_head thread head)
    then skipped stale_head
    else admitted

-- None where the code would read the first comment of a thread that has none.
abbrev finding_of : Platform → ReviewThread → List ReviewThreadComment → Option HostedFinding
finding_of p thread [] = none
finding_of p thread (c ∷ cs) = some (normalize_comments p thread c cs)

unfoldable pub normalize_thread : Platform → ReviewThread → Option HostedFinding
unfolding normalize_comments
normalize_thread p thread = finding_of p thread thread.comments

pub record HostedBuckets : Type 0 where
  pub findings : List HostedFinding
  pub human_threads : List HostedFinding
  pub unknown_bot_threads : List HostedFinding

abbrev pub no_buckets : HostedBuckets
no_buckets = record { findings = []; human_threads = []; unknown_bot_threads = [] }

pub record HostedWorklist : Type 0 where
  pub buckets : HostedBuckets
  pub unresolved_stale : List HostedFinding

abbrev push : List HostedFinding → HostedFinding → List HostedFinding
push xs f = xs ++ f ∷ []

-- The `switch` on the author's type.
abbrev pub put_bucket : HostedBuckets → ReviewThreadAuthorType → HostedFinding → HostedBuckets
put_bucket b ReviewThreadAuthorType.hosted_reviewer f = record b { findings = push b.findings f }
put_bucket b ReviewThreadAuthorType.human f = record b { human_threads = push b.human_threads f }
put_bucket b ReviewThreadAuthorType.unknown_bot f = record b {
  unknown_bot_threads = push b.unknown_bot_threads f;
}
put_bucket b ReviewThreadAuthorType.ralph f = b

abbrev put_finding : HostedWorklist → Option HostedFinding → HostedWorklist
put_finding w none = w
put_finding w (some f) = record w { buckets = put_bucket w.buckets f.author_type f }

abbrev put_stale : HostedWorklist → Option HostedFinding → HostedWorklist
put_stale w none = w
put_stale w (some f) = record w { unresolved_stale = push w.unresolved_stale f }

abbrev is_stale_reason : ThreadSkipReason → Bool
is_stale_reason outdated = true
is_stale_reason stale_head = true
is_stale_reason _ = false

abbrev place_thread : Platform → ReviewThread → ThreadAdmission → HostedWorklist → HostedWorklist
place_thread p thread admitted w = put_finding w (normalize_thread p thread)
place_thread p thread (skipped reason) w =
    if not thread.is_resolved && is_stale_reason reason
    then put_stale w (normalize_thread p thread)
    else w

unfoldable pub worklist_step :
    Platform → Option Text → HostedWorklist → ReviewThread → HostedWorklist
unfolding admit_thread normalize_thread
worklist_step p head w thread = place_thread p thread (admit_thread thread head) w

unfoldable pub build_hosted_worklist : Platform → List ReviewThread → Option Text → HostedWorklist
unfolding worklist_step
build_hosted_worklist p threads head =
    foldl (worklist_step p head) (record { buckets = no_buckets; unresolved_stale = [] }) threads
