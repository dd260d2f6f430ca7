-- ===== src/Core/Labels/Paused.antt =====
-- The pause that the backlog shows for an issue.
use ralph_autopilot.Common.{
  String, ◌≡◌, refl, true, false, Option, none, some, List, [], ◌∷◌, ◌++◌, All, includes, arith,
  inl, inr, Bool-cases,
}
use ralph_autopilot.Core.Labels.{backlog_paused_states, first_carried, paused_state_of}

-- The states before the reported one are not on the issue, and it is.
pub record IsFirstCarried (labels states : List String) (state : String) : Type 0 where
  pub before : List String
  pub after : List String
  pub split : states ≡ before ++ state ∷ after
  pub skipped : All (λ s. includes labels s ≡ false) before
  pub carried : includes labels state ≡ true

first_carried-IsFirstCarried :
    (labels states : List String) (state : String)
    → first_carried labels states ≡ some state
    → IsFirstCarried labels states state
unfolding first_carried
first_carried-IsFirstCarried labels [] state h = absurd (ground arith)
first_carried-IsFirstCarried labels (s ∷ states) state h = elim (Bool-cases (includes labels s)) [
  | inl e ↦ record {
    before = [];
    after = states;
    split = ground arith;
    skipped = tt;
    carried = ground arith;
  }
  | inr e ↦
      let f = first_carried-IsFirstCarried labels states state (ground arith) in
      record {
        before = s ∷ f.before;
        after = f.after;
        split = ground (arith, f.split);
        skipped = (e, f.skipped);
        carried = f.carried;
      }
]

first_carried-none :
    (labels states : List String)
    → first_carried labels states ≡ none
    → All (λ s. includes labels s ≡ false) states
unfolding first_carried
first_carried-none labels [] h = tt
first_carried-none labels (s ∷ states) h =
    (ground arith, first_carried-none labels states (ground arith))

abbrev pub IsPausedState : List String → Option String → Type 0
IsPausedState labels none = All (λ s. includes labels s ≡ false) backlog_paused_states
IsPausedState labels (some state) = IsFirstCarried labels backlog_paused_states state

-- The pause that the backlog names is on the issue, and is the first of the vocabulary that is,
-- whatever the order of the labels; none is named exactly if the issue carries none of them.
pub paused_state_of-IsPausedState :
    (labels : List String) → IsPausedState labels (paused_state_of labels)
unfolding paused_state_of
paused_state_of-IsPausedState labels = go (first_carried labels backlog_paused_states) refl
  where
    go :
        (o : Option String)
        → first_carried labels backlog_paused_states ≡ o
        → IsPausedState labels o
    go none e = first_carried-none labels backlog_paused_states e
    go (some state) e = first_carried-IsFirstCarried labels backlog_paused_states state e
