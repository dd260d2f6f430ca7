-- ===== src/Review/Hosted/Gate.antt =====
-- review/hosted-gate.ts: the disposition of a finding, and the record of it that a restart reads.
-- The world is the issue's stream and what GitHub was asked to write; the record functions of the
-- store append at once. A rendered reply is its inputs.
pub mod Once
pub mod Recorded
use mathlib.Core.List.{foldl-append}
use ralph_autopilot.Common.{
  ℕ, zero, suc, ◌+◌, ◌≡◌, refl, ap, sym, ◌∙◌, Bool, true, false, not, ◌&&◌, ◌||◌, Option, none,
  some, List, [], ◌∷◌, ◌++◌, foldl, any, All, All-append, any-append, Text, text_eq, text_eq_refl,
  text_eq_iff, if◌then◌else◌, Bool-cases, inl, inr, arith,
}
use ralph_autopilot.Common.Distinct.{IsDistinct, IsDistinct-snoc}
use ralph_autopilot.Review.Hosted.{HostedFinding, ReviewThreadAuthorType}
use ralph_autopilot.Review.Loop.{Fault, ok, thrown, Act, ◌>>=◌, pure}

-- A recorded event, as far as the gate reads it: a datum of another type is none.
pub data GateEvent : Type 0 where
  run_started : GateEvent
  thread_replied : Option Text → Option Text → GateEvent
  thread_resolved : Option Text → GateEvent
  review_observed : Option Text → Option ℕ → GateEvent
  other_event : GateEvent

-- The maps and the set, as functions.
pub record HostedGateState : Type 0 where
  pub replied_to : Text → Option Text
  pub resolved : Text → Bool
  pub observed : Text → Option ℕ

abbrev pub empty_gate_state : HostedGateState
empty_gate_state = record { replied_to = λ _. none; resolved = λ _. false; observed = λ _. none }

abbrev text_or_empty : Option Text → Text
text_or_empty none = []
text_or_empty (some t) = t

abbrev count_or_zero : Option ℕ → ℕ
count_or_zero none = 0
count_or_zero (some n) = n

abbrev pub put {ℓ} : {A : Type ℓ} → Text → A → (Text → A) → Text → A
put k v f j = if text_eq k j then v else f j

abbrev set_replied : Text → Text → HostedGateState → HostedGateState
set_replied [] hash s = s
set_replied (c ∷ id) hash s = record s { replied_to = put (c ∷ id) (some hash) s.replied_to }

abbrev set_resolved : Text → HostedGateState → HostedGateState
set_resolved [] s = s
set_resolved (c ∷ id) s = record s { resolved = put (c ∷ id) true s.resolved }

abbrev set_observed : Text → ℕ → HostedGateState → HostedGateState
set_observed [] n s = s
set_observed (c ∷ head) n s = record s { observed = put (c ∷ head) (some n) s.observed }

unfoldable pub gate_step : HostedGateState → GateEvent → HostedGateState
gate_step s run_started = empty_gate_state
gate_step s (thread_replied id hash) = set_replied (text_or_empty id) (text_or_empty hash) s
gate_step s (thread_resolved id) = set_resolved (text_or_empty id) s
gate_step s (review_observed head n) = set_observed (text_or_empty head) (count_or_zero n) s
gate_step s other_event = s

unfoldable pub fold_hosted_gate_state : List GateEvent → HostedGateState
unfolding gate_step
fold_hosted_gate_state events = foldl gate_step empty_gate_state events

abbrev pub same_hash : Option Text → Text → Bool
same_hash none hash = false
same_hash (some h) hash = text_eq h hash

abbrev pub already_replied_to : HostedGateState → HostedFinding → Bool
already_replied_to s f = same_hash (s.replied_to f.thread_id) f.latest_comment_hash

pub data DispositionKind : Type 0 where
  fixed reasoned_invalid : DispositionKind

pub record DispositionInput : Type 0 where
  pub disposition : DispositionKind
  pub rationale : Text
  pub verification : Text
  pub head_sha : Text

pub record Reply : Type 0 where
  pub thread_id : Text
  pub finding : HostedFinding
  pub input : DispositionInput

pub record GateWorld : Type 0 where
  pub stream : List GateEvent
  pub replies : List Reply
  pub resolves : List Text

pub data RefusalReason : Type 0 where
  human_authored unclassified_author : RefusalReason

pub data DisposeResult : Type 0 where
  disposed : Bool → Bool → DisposeResult
  refused : RefusalReason → DisposeResult

abbrev pub is_hosted : ReviewThreadAuthorType → Bool
is_hosted ReviewThreadAuthorType.hosted_reviewer = true
is_hosted _ = false

abbrev refusal_of : ReviewThreadAuthorType → RefusalReason
refusal_of ReviewThreadAuthorType.human = human_authored
refusal_of _ = unclassified_author

-- What comes of a write to GitHub and of its record: both are made; neither is; or the write is made
-- and the pass ends before the record, by a failed answer, a failed record, or a stop of the process.
pub data WriteOutcome : Type 0 where
  written : WriteOutcome
  lost unrecorded : Fault → WriteOutcome

-- The outcomes of one disposition. A stop between the two writes is a second one that is lost.
pub record GateOutcomes : Type 0 where
  pub of_reply : WriteOutcome
  pub of_resolve : WriteOutcome

abbrev write_reply : HostedFinding → DispositionInput → GateWorld → GateWorld
write_reply f input w = record w {
  replies = w.replies ++ record { thread_id = f.thread_id; finding = f; input = input } ∷ [];
}

abbrev record_replied : HostedFinding → GateWorld → GateWorld
record_replied f w = record w {
  stream = w.stream ++ thread_replied (some f.thread_id) (some f.latest_comment_hash) ∷ [];
}

abbrev pub on_reply : WriteOutcome → HostedFinding → DispositionInput → Act GateWorld (Unit {0})
on_reply written f input w = (ok tt, record_replied f (write_reply f input w))
on_reply (lost e) f input w = (thrown e, w)
on_reply (unrecorded e) f input w = (thrown e, write_reply f input w)

-- The reply and its record, unless the state has one for this content.
unfoldable pub reply_to_finding :
    WriteOutcome → HostedGateState → HostedFinding → DispositionInput → Act GateWorld (Unit {0})
reply_to_finding outcome state f input w =
    if already_replied_to state f then (ok tt, w) else on_reply outcome f input w

abbrev write_resolve : HostedFinding → GateWorld → GateWorld
write_resolve f w = record w { resolves = w.resolves ++ f.thread_id ∷ [] }

abbrev record_resolved : HostedFinding → GateWorld → GateWorld
record_resolved f w = record w { stream = w.stream ++ thread_resolved (some f.thread_id) ∷ [] }

abbrev pub on_resolve : WriteOutcome → HostedFinding → Act GateWorld (Unit {0})
on_resolve written f w = (ok tt, record_resolved f (write_resolve f w))
on_resolve (lost e) f w = (thrown e, w)
on_resolve (unrecorded e) f w = (thrown e, write_resolve f w)

unfoldable pub resolve_finding :
    WriteOutcome → HostedGateState → HostedFinding → Act GateWorld (Unit {0})
resolve_finding outcome state f w =
    if state.resolved f.thread_id then (ok tt, w) else on_resolve outcome f w

abbrev pub disposed_by : HostedGateState → HostedFinding → DisposeResult
disposed_by state f = disposed (not (already_replied_to state f)) (not (state.resolved f.thread_id))

abbrev pub then_tell : HostedGateState → HostedFinding → Unit {0} → Act GateWorld DisposeResult
then_tell state f _ = pure (disposed_by state f)

abbrev pub then_resolve :
    WriteOutcome → HostedGateState → HostedFinding → Unit {0} → Act GateWorld DisposeResult
then_resolve outcome state f _ = resolve_finding outcome state f >>= then_tell state f

-- Both writes, by the state that the stream held before them.
abbrev pub dispose_hosted :
    GateOutcomes → HostedGateState → HostedFinding → DispositionInput → Act GateWorld DisposeResult
dispose_hosted outcomes state f input =
    reply_to_finding outcomes.of_reply state f input >>= then_resolve outcomes.of_resolve state f

unfoldable pub dispose_finding :
    GateOutcomes → HostedFinding → DispositionInput → Act GateWorld DisposeResult
unfolding reply_to_finding resolve_finding fold_hosted_gate_state
dispose_finding outcomes f input w =
    if is_hosted f.author_type
    then dispose_hosted outcomes (fold_hosted_gate_state w.stream) f input w
    else (ok (refused (refusal_of f.author_type)), w)
