-- ===== src/Review/Loop/Drive/Disposed.antt =====
-- review/review-loop.ts `driveHostedFindings`: each disposition of a lane that ended well is on record.
use mathlib.Core.List.{Memᴰ}
use ralph_autopilot.Common.{
  ◌≡◌, ◌≢◌, refl, ap, subst, Bool, true, List, [], ◌∷◌, filter, All, Text, Bool-cases, inl, inr,
  arith,
}
use ralph_autopilot.Review.Loop.{ok, bind-leads, bound}
use ralph_autopilot.Review.Hosted.{HostedFinding}
use ralph_autopilot.Review.Hosted.Gate.{
  GateWorld, GateOutcomes, DisposeResult, DispositionInput, is_hosted, dispose_finding,
}
use ralph_autopilot.Review.Hosted.Gate.Recorded.{
  settled_in, dispose_hosted-recorded, dispose_finding-settled_in, recorded-settled_in,
}
use ralph_autopilot.Review.Loop.Drive.{HostedDisposition}
use ralph_autopilot.Review.Loop.Drive.Consult.{answers, input_of, dispose_one, dispose_all}

-- A finding that the disposition names, with the reply and the resolution of its conversation on
-- record, where it is of the hosted reviewer and its conversation has an identity.
pub record IsDisposed (fresh : List HostedFinding) (g' : GateWorld) (d : HostedDisposition)
    : Type 0 where
  pub about : HostedFinding
  pub among : Memᴰ about fresh
  pub names : answers d about ≡ true
  pub settled :
      is_hosted about.author_type ≡ true
      → about.thread_id ≢ []
      → settled_in g' about.thread_id ≡ true

pub All-filter :
    {A : Type 0} (p : A → Bool) (Q : A → Type 0) (xs : List A)
    → All Q (filter p xs)
    → All (λ x. p x ≡ true → Q x) xs
All-filter p Q [] h = tt
All-filter p Q (x ∷ xs) h = elim (Bool-cases (p x)) [
  | inl e ↦ let kept = rw e at h in (λ _. kept.0, All-filter p Q xs kept.1)
  | inr e ↦ (λ k. absurd (ground arith), All-filter p Q xs (rw e at h))
]

dispose_finding-settles :
    (f : HostedFinding) (o : GateOutcomes) (input : DispositionInput) (g : GateWorld)
    {r : DisposeResult} {g' : GateWorld}
    → dispose_finding o f input g ≡ (ok r, g')
    → is_hosted f.author_type ≡ true
    → f.thread_id ≢ []
    → settled_in g' f.thread_id ≡ true
unfolding dispose_finding
dispose_finding-settles f o input g {r} {g'} e h named =
    let (replied, resolved) =
      dispose_hosted-recorded f named o input g (rw (h, dispose_finding) at e) in
    recorded-settled_in f f.thread_id g' refl replied resolved

module _ (outcomes : GateWorld → HostedFinding → GateOutcomes) (head : Text) where
  dispose_one-IsDisposed :
      (fresh : List HostedFinding) (d : HostedDisposition) (g : GateWorld) {r : DisposeResult}
      {g' : GateWorld}
      → dispose_one outcomes fresh d head g ≡ (ok r, g')
      → IsDisposed fresh g' d
  dispose_one-IsDisposed [] d g e = absurd (ground arith)
  dispose_one-IsDisposed (f ∷ fs) d g {r} {g'} e = elim (Bool-cases (answers d f)) [
    | inl k ↦ record {
      about = f;
      among = Memᴰ.head refl;
      names = k;
      settled = dispose_finding-settles f (outcomes g f) (input_of d head) g (rw k at e);
    }
    | inr k ↦
        let later = dispose_one-IsDisposed fs d g (rw k at e) in
        record {
          about = later.about;
          among = Memᴰ.tail later.among;
          names = later.names;
          settled = later.settled;
        }
  ]

  dispose_one-settled_in :
      (fresh : List HostedFinding) (d : HostedDisposition) (g : GateWorld) (id : Text)
      → settled_in g id ≡ true
      → settled_in (dispose_one outcomes fresh d head g).1 id ≡ true
  dispose_one-settled_in [] d g id h = h
  dispose_one-settled_in (f ∷ fs) d g id h = elim (Bool-cases (answers d f)) [
    | inl k ↦ rw k (dispose_finding-settled_in f id (outcomes g f) (input_of d head) g h)
    | inr k ↦ rw k (dispose_one-settled_in fs d g id h)
  ]

  dispose_all-settled_in :
      (fresh : List HostedFinding) (ds : List HostedDisposition) (g : GateWorld) (id : Text)
      → settled_in g id ≡ true
      → settled_in (dispose_all outcomes fresh ds head g).1 id ≡ true
  unfolding dispose_all
  dispose_all-settled_in fresh [] g id h = h
  dispose_all-settled_in fresh (d ∷ ds) g id h =
      bind-leads (λ u. settled_in u id ≡ true) (λ u. settled_in u id ≡ true)
        (dispose_one outcomes fresh d head) (λ _. dispose_all outcomes fresh ds head) g
        (dispose_one-settled_in fresh d g id h) (λ u q. q)
        (λ _ u q. dispose_all-settled_in fresh ds u id q)

  -- Each of the dispositions names a finding, whose conversation they leave settled on record.
  pub dispose_all-IsDisposed :
      (fresh : List HostedFinding) (ds : List HostedDisposition) (g : GateWorld) {a : Unit {0}}
      {g' : GateWorld}
      → dispose_all outcomes fresh ds head g ≡ (ok a, g')
      → All (IsDisposed fresh g') ds
  unfolding dispose_all
  dispose_all-IsDisposed fresh [] g e = tt
  dispose_all-IsDisposed fresh (d ∷ ds) g {a} {g'} e =
      let b =
        bound (dispose_one outcomes fresh d head) (λ _. dispose_all outcomes fresh ds head) g e in
      let here = dispose_one-IsDisposed fresh d g b.first in
      (
        record {
          about = here.about;
          among = here.among;
          names = here.names;
          settled = λ h named.
              subst (λ (v : GateWorld). settled_in v here.about.thread_id ≡ true)
                (ap (λ r. r.1) b.then_second)
                (dispose_all-settled_in fresh ds b.between here.about.thread_id
                  (here.settled h named));
        },
        dispose_all-IsDisposed fresh ds b.between b.then_second,
      )
