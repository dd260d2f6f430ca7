-- ===== src/Core/Moding/Select.antt =====
-- The selection loop against its description: the first of the issues that qualify.
use ralph_autopilot.Common.{
  ℕ, zero, suc, ◌-◌, ◌≤◌, ◌<◌, ◌≡◌, refl, Bool, true, false, not, ◌&&◌, List, [], ◌∷◌, ◌++◌,
  append-nil, append_assoc, length, length-append, take, filter, leb, is_some, Text, arith, inl,
  inr, Bool-cases, if◌then◌else◌,
}
use ralph_autopilot.Common.Int.{ℤ, max_zero}
use ralph_autopilot.Github.Types.{Issue}
use ralph_autopilot.Core.Labels.{label_mode_tdd, read_mode}
use ralph_autopilot.Core.Admission.Gate.{
  DepCache, empty_cache, GateResult, eligible, ineligible, blocked, evaluate_gate,
}
use ralph_autopilot.Core.Admission.Gate.Cache.{IsFaithful}
use ralph_autopilot.Core.Admission.Gate.Verdicts.{gate_one-IsFaithful, gate_one-eq-evaluate_gate}
use ralph_autopilot.Core.Admission.Safety.{empty_cache-IsFaithful}
use ralph_autopilot.Core.Moding.{
  with_label, gate_with_synthetic_mode, push_eligible, moding_loop, oldest_first,
  select_moding_candidates,
}

abbrev is_eligible : GateResult → Bool
is_eligible (eligible _) = true
is_eligible (ineligible _) = false
is_eligible (blocked _) = false

-- No mode today, and eligible with one.
abbrev pub qualifies : (ℕ → Bool) → Text → Issue → Bool
qualifies f repo issue =
    not (is_some (read_mode issue.labels))
    && is_eligible (evaluate_gate (with_label issue label_mode_tdd) f repo)

push_eligible-if :
    (cs : List Issue) (issue : Issue) (v : GateResult)
    → push_eligible cs issue v ≡ (if is_eligible v then cs ++ issue ∷ [] else cs)
unfolding push_eligible
push_eligible-if cs issue (eligible m) = refl
push_eligible-if cs issue (ineligible r) = refl
push_eligible-if cs issue (blocked b) = refl

take-nil : (n : ℕ) → take {A = Issue} n [] ≡ []
take-nil zero = refl
take-nil (suc n) = refl

synthetic-IsFaithful :
    (f : ℕ → Bool) (repo : Text) (issue : Issue) (c : DepCache)
    → IsFaithful (λ t n. f n) c
    → IsFaithful (λ t n. f n) (gate_with_synthetic_mode (λ t n. f n) repo issue c).1
unfolding gate_with_synthetic_mode
synthetic-IsFaithful f repo issue c h =
    gate_one-IsFaithful (λ t n. f n) repo (with_label issue label_mode_tdd) c h

synthetic_verdict :
    (f : ℕ → Bool) (repo : Text) (issue : Issue) (c : DepCache)
    → IsFaithful (λ t n. f n) c
    → (gate_with_synthetic_mode (λ t n. f n) repo issue c).0
      ≡ evaluate_gate (with_label issue label_mode_tdd) f repo
unfolding gate_with_synthetic_mode
synthetic_verdict f repo issue c h =
    gate_one-eq-evaluate_gate f repo (with_label issue label_mode_tdd) c h

-- One more candidate uses up one of the places that are left.
snoc_take :
    (limit : ℕ) (cs : List Issue) (x : Issue) (rest : List Issue)
    → length cs < limit
    → (cs ++ x ∷ []) ++ take (limit - length (cs ++ x ∷ [])) rest
      ≡ cs ++ take (limit - length cs) (x ∷ rest)
snoc_take limit cs x rest h =
    let e : limit - length cs ≡ suc (limit - suc (length cs)) = omega (arith, h) in
    let e' : limit - length (cs ++ x ∷ []) ≡ limit - suc (length cs) =
      omega (arith, length-append cs (x ∷ [])) in
    rw (e, e') (append_assoc cs (x ∷ []) (take (limit - suc (length cs)) rest))

module _ (f : ℕ → Bool) (repo : Text) (limit : ℕ) where
  moding_loop-take :
      (cs : List Issue) (c : DepCache) (issues : List Issue)
      → IsFaithful (λ t n. f n) c
      → length cs ≤ limit
      → moding_loop (λ t n. f n) repo limit cs c issues
        ≡ cs ++ take (limit - length cs) (filter (qualifies f repo) issues)
  unfolding moding_loop
  moding_loop-take cs c [] h k = rw (take-nil (limit - length cs), append-nil cs) refl
  moding_loop-take cs c (issue ∷ issues) h k = elim (Bool-cases (leb limit (length cs))) [
    | inl full ↦ ground (arith, append-nil cs)
    | inr room ↦ elim (Bool-cases (is_some (read_mode issue.labels))) [
      | inl moded ↦ ground (arith, moding_loop-take cs c issues h k)
      | inr bare ↦
          elim (Bool-cases (is_eligible (evaluate_gate (with_label issue label_mode_tdd) f repo))) [
            | inl fit ↦
                (let v = synthetic_verdict f repo issue c h in
                  let ih =
                    moding_loop-take (cs ++ issue ∷ [])
                      (gate_with_synthetic_mode (λ t n. f n) repo issue c).1 issues
                      (synthetic-IsFaithful f repo issue c h)
                      (ground (arith, length-append cs (issue ∷ []))) in
                  ground (
                    arith,
                    v,
                    ih,
                    snoc_take limit cs issue (filter (qualifies f repo) issues) (ground arith),
                    push_eligible-if cs issue
                        (gate_with_synthetic_mode (λ t n. f n) repo issue c).0,
                  ))
            | inr unfit ↦
                (let v = synthetic_verdict f repo issue c h in
                  let ih =
                    moding_loop-take cs (gate_with_synthetic_mode (λ t n. f n) repo issue c).1
                      issues (synthetic-IsFaithful f repo issue c h) k in
                  ground (
                    arith,
                    v,
                    ih,
                    push_eligible-if cs issue
                        (gate_with_synthetic_mode (λ t n. f n) repo issue c).0,
                  ))
          ]
    ]
  ]

-- Where the answers of GitHub do not change, the moding pass is offered the oldest issues that
-- carry no mode and that the gate would find eligible with one: as many as the limit of the tick
-- allows, none where it is not positive.
pub select_moding_candidates-take :
    (issues : List Issue) (f : ℕ → Bool) (max_per_tick : ℤ) (repo : Text)
    → select_moding_candidates issues (λ t n. f n) max_per_tick repo
      ≡ take (max_zero max_per_tick) (filter (qualifies f repo) (oldest_first issues))
unfolding select_moding_candidates
select_moding_candidates-take issues f max_per_tick repo = ground (
  arith,
  moding_loop-take f repo (max_zero max_per_tick) [] empty_cache (oldest_first issues)
      (empty_cache-IsFaithful (λ t n. f n)) (ground arith),
)
