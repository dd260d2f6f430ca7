-- ===== src/Review/Loop/Drive/Answers.antt =====
-- review/review-loop.ts `driveHostedFindings`: what the dispositions of the lane write.
use mathlib.Core.List.{Memᴰ}
use mathlib.Core.List.Memᴰ
use ralph_autopilot.Common.{
  ◌≡◌, refl, sym, ap, ◌∙◌, Bool, true, false, List, [], ◌∷◌, ◌++◌, map, append_assoc, append-nil,
  filter, if◌then◌else◌, All, All-append, Text, Bool-cases, inl, inr,
}
use ralph_autopilot.Review.Loop.{bind-leads}
use ralph_autopilot.Review.Hosted.{HostedFinding}
use ralph_autopilot.Review.Hosted.Gate.{
  GateWorld, GateOutcomes, WriteOutcome, written, lost, unrecorded, HostedGateState, Reply,
  DispositionInput, already_replied_to, fold_hosted_gate_state, is_hosted, on_reply, on_resolve,
  reply_to_finding, resolve_finding, then_tell, then_resolve, dispose_hosted, dispose_finding,
}
use ralph_autopilot.Review.Loop.Drive.{HostedDisposition}
use ralph_autopilot.Review.Loop.Drive.Consult.{answers, input_of, dispose_one, dispose_all}

of_kept :
    {A : Type 0} (p : A → Bool) (b : Bool) {x : A} (y : A) (ys zs : List A)
    → p y ≡ b
    → (Memᴰ x zs → Memᴰ x ys × (p x ≡ true))
    → Memᴰ x (if b then y ∷ zs else zs)
    → Memᴰ x (y ∷ ys) × (p x ≡ true)
of_kept p false y ys zs e f k = let (n, t) = f k in (Memᴰ.tail n, t)
of_kept p true y ys zs e f (Memᴰ.head s) = (Memᴰ.head s, ap p s ∙ e)
of_kept p true y ys zs e f (Memᴰ.tail k) = let (n, t) = f k in (Memᴰ.tail n, t)

-- What a filter keeps was there and passes it.
pub of_filter :
    {A : Type 0} (p : A → Bool) {x : A} (xs : List A)
    → Memᴰ x (filter p xs)
    → Memᴰ x xs × (p x ≡ true)
of_filter p [] m = absurd (Memᴰ.not-nil m)
of_filter p (y ∷ ys) m = of_kept p (p y) y ys (filter p ys) refl (of_filter p ys) m

-- The writes of GitHub that lead from one world to another: each of them, replied to on the head or
-- resolved, is about a finding with the property.
pub record IsWrittenOf (P : HostedFinding → Type 0) (head : Text) (g g' : GateWorld) : Type 0 where
  pub replies : List Reply
  pub resolved : List HostedFinding
  pub new_replies : g'.replies ≡ g.replies ++ replies
  pub new_resolves : g'.resolves ≡ g.resolves ++ map (λ (f : HostedFinding). f.thread_id) resolved
  pub replied_to :
      All
        (λ (r : Reply).
          P r.finding × (r.thread_id ≡ r.finding.thread_id) × (r.input.head_sha ≡ head))
        replies
  pub resolved_of : All P resolved

map-append :
    (xs ys : List HostedFinding)
    → map (λ (f : HostedFinding). f.thread_id) (xs ++ ys)
      ≡ map (λ (f : HostedFinding). f.thread_id) xs ++ map (λ (f : HostedFinding). f.thread_id) ys
map-append [] ys = refl
map-append (x ∷ xs) ys = ap (λ l. x.thread_id ∷ l) (map-append xs ys)

module _ (P : HostedFinding → Type 0) (head : Text) where
  no_writes : (g : GateWorld) → IsWrittenOf P head g g
  no_writes g = record {
    replies = [];
    resolved = [];
    new_replies = sym (append-nil g.replies);
    new_resolves = sym (append-nil g.resolves);
    replied_to = tt;
    resolved_of = tt;
  }

  writes_then :
      {g h k : GateWorld} → IsWrittenOf P head g h → IsWrittenOf P head h k → IsWrittenOf P head g k
  writes_then {g} a b = record {
    replies = a.replies ++ b.replies;
    resolved = a.resolved ++ b.resolved;
    new_replies =
        b.new_replies
        ∙ ap (λ l. l ++ b.replies) a.new_replies
        ∙ append_assoc g.replies a.replies b.replies;
    new_resolves =
        b.new_resolves
        ∙ ap (λ l. l ++ map (λ (f : HostedFinding). f.thread_id) b.resolved) a.new_resolves
        ∙ append_assoc g.resolves _ _
        ∙ ap (λ l. g.resolves ++ l) (sym (map-append a.resolved b.resolved));
    replied_to = All-append _ a.replies b.replies a.replied_to b.replied_to;
    resolved_of = All-append P a.resolved b.resolved a.resolved_of b.resolved_of;
  }

  module _ (f : HostedFinding) (p : P f) where
    replied :
        (g' : GateWorld) (input : DispositionInput) (g : GateWorld)
        → g'.replies
          ≡ g.replies ++ record { thread_id = f.thread_id; finding = f; input = input } ∷ []
        → g'.resolves ≡ g.resolves
        → input.head_sha ≡ head
        → IsWrittenOf P head g g'
    replied g' input g r q h = record {
      replies = record { thread_id = f.thread_id; finding = f; input = input } ∷ [];
      resolved = [];
      new_replies = r;
      new_resolves = q ∙ sym (append-nil g.resolves);
      replied_to = ((p, refl, h), tt);
      resolved_of = tt;
    }

    resolved_one :
        (g' g : GateWorld)
        → g'.replies ≡ g.replies
        → g'.resolves ≡ g.resolves ++ f.thread_id ∷ []
        → IsWrittenOf P head g g'
    resolved_one g' g r q = record {
      replies = [];
      resolved = f ∷ [];
      new_replies = r ∙ sym (append-nil g.replies);
      new_resolves = q;
      replied_to = tt;
      resolved_of = (p, tt);
    }

    on_reply-IsWrittenOf :
        (o : WriteOutcome) (input : DispositionInput) (g : GateWorld)
        → input.head_sha ≡ head
        → IsWrittenOf P head g (on_reply o f input g).1
    on_reply-IsWrittenOf (lost e) input g h = no_writes g
    on_reply-IsWrittenOf (unrecorded e) input g h =
        replied (on_reply (unrecorded e) f input g).1 input g refl refl h
    on_reply-IsWrittenOf written input g h =
        replied (on_reply written f input g).1 input g refl refl h

    reply_to_finding-IsWrittenOf :
        (o : WriteOutcome) (s : HostedGateState) (input : DispositionInput) (g : GateWorld)
        → input.head_sha ≡ head
        → IsWrittenOf P head g (reply_to_finding o s f input g).1
    unfolding reply_to_finding
    reply_to_finding-IsWrittenOf o s input g h = elim (Bool-cases (already_replied_to s f)) [
      | inl e ↦ rw e (no_writes g)
      | inr e ↦ rw e (on_reply-IsWrittenOf o input g h)
    ]

    on_resolve-IsWrittenOf :
        (o : WriteOutcome) (g : GateWorld) → IsWrittenOf P head g (on_resolve o f g).1
    on_resolve-IsWrittenOf (lost e) g = no_writes g
    on_resolve-IsWrittenOf (unrecorded e) g =
        resolved_one (on_resolve (unrecorded e) f g).1 g refl refl
    on_resolve-IsWrittenOf written g = resolved_one (on_resolve written f g).1 g refl refl

    resolve_finding-IsWrittenOf :
        (o : WriteOutcome) (s : HostedGateState) (g : GateWorld)
        → IsWrittenOf P head g (resolve_finding o s f g).1
    unfolding resolve_finding
    resolve_finding-IsWrittenOf o s g = elim (Bool-cases (s.resolved f.thread_id)) [
      | inl e ↦ rw e (no_writes g)
      | inr e ↦ rw e (on_resolve-IsWrittenOf o g)
    ]

    dispose_hosted-IsWrittenOf :
        (o : GateOutcomes) (s : HostedGateState) (input : DispositionInput) (g : GateWorld)
        → input.head_sha ≡ head
        → IsWrittenOf P head g (dispose_hosted o s f input g).1
    dispose_hosted-IsWrittenOf o s input g h =
        bind-leads (IsWrittenOf P head g) (IsWrittenOf P head g)
          (reply_to_finding o.of_reply s f input) (then_resolve o.of_resolve s f) g
          (reply_to_finding-IsWrittenOf o.of_reply s input g h) (λ u r. r)
          (λ _ u r.
            bind-leads (IsWrittenOf P head g) (IsWrittenOf P head g)
              (resolve_finding o.of_resolve s f) (then_tell s f) u
              (writes_then r (resolve_finding-IsWrittenOf o.of_resolve s u)) (λ v q. q)
              (λ _ v q. q))

  dispose_finding-IsWrittenOf :
      (f : HostedFinding) (o : GateOutcomes) (input : DispositionInput) (g : GateWorld)
      → (is_hosted f.author_type ≡ true → P f)
      → input.head_sha ≡ head
      → IsWrittenOf P head g (dispose_finding o f input g).1
  unfolding dispose_finding
  dispose_finding-IsWrittenOf f o input g p h = elim (Bool-cases (is_hosted f.author_type)) [
    | inr e ↦ rw (e, dispose_finding) (no_writes g)
    | inl e ↦
        rw (e, dispose_finding)
          (dispose_hosted-IsWrittenOf f (p e) o (fold_hosted_gate_state g.stream) input g h)
  ]

  module _ (outcomes : GateWorld → HostedFinding → GateOutcomes) where
    dispose_one-IsWrittenOf :
        (fresh : List HostedFinding) (d : HostedDisposition) (g : GateWorld)
        → ((f : HostedFinding)
            → Memᴰ f fresh
            → answers d f ≡ true
            → is_hosted f.author_type ≡ true
            → P f)
        → IsWrittenOf P head g (dispose_one outcomes fresh d head g).1
    dispose_one-IsWrittenOf [] d g p = no_writes g
    dispose_one-IsWrittenOf (f ∷ fs) d g p = elim (Bool-cases (answers d f)) [
      | inl e ↦ rw e (
          dispose_finding-IsWrittenOf f (outcomes g f) (input_of d head) g (p f (Memᴰ.head refl) e)
            refl)
      | inr e ↦ rw e (dispose_one-IsWrittenOf fs d g (λ x m. p x (Memᴰ.tail m)))
    ]

    -- All that the dispositions write is about findings that they answer, of the hosted reviewer.
    pub dispose_all-IsWrittenOf :
        (fresh : List HostedFinding) (ds : List HostedDisposition) (g : GateWorld)
        → ((f : HostedFinding) (d : HostedDisposition)
            → Memᴰ f fresh
            → Memᴰ d ds
            → answers d f ≡ true
            → is_hosted f.author_type ≡ true
            → P f)
        → IsWrittenOf P head g (dispose_all outcomes fresh ds head g).1
    unfolding dispose_all
    dispose_all-IsWrittenOf fresh [] g p = no_writes g
    dispose_all-IsWrittenOf fresh (d ∷ ds) g p =
        bind-leads (IsWrittenOf P head g) (IsWrittenOf P head g) (dispose_one outcomes fresh d head)
          (λ _. dispose_all outcomes fresh ds head) g
          (dispose_one-IsWrittenOf fresh d g (λ x m. p x d m (Memᴰ.head refl))) (λ u r. r)
          (λ _ u r.
            writes_then r (dispose_all-IsWrittenOf fresh ds u (λ x y m k. p x y m (Memᴰ.tail k))))
