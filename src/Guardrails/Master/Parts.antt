-- ===== src/Guardrails/Master/Parts.antt =====
-- master/guardrails.ts: a chain of commands of a master.
use ralph_autopilot.Common.{
  ◌≡◌, refl, ap, ◌∙◌, Bool, true, false, ◌&&◌, Option, none, some, List, [], ◌∷◌, ◌++◌, Text, arith,
}
use ralph_autopilot.Guardrails.{GitReason, segments, tokenize, inspect_bash_command}
use ralph_autopilot.Guardrails.Chain.{
  Separator, chain, refusal_of_chain, IsApart, or_refusal, segments-append,
  inspect_bash_command-refusal_of_chain,
}
use ralph_autopilot.Guardrails.Master.{
  MasterReason, inspect_master_tokens, inspect_segments, or_reason, shared_first,
  inspect_master_command,
}

abbrev pub is_passed {ℓ} : {A : Type ℓ} → Option A → Bool
is_passed none = true
is_passed (some reason) = false

-- A command alone, by the git guardrails of every agent and by the master's own rules.
abbrev pub passes_both : Text → Text → Bool
passes_both branch a =
    is_passed (inspect_bash_command a) && is_passed (inspect_segments branch (segments a))

pub all_pass : Text → Text → List (Separator × Text) → Bool
all_pass branch a [] = passes_both branch a
all_pass branch a ((sep, b) ∷ rest) = passes_both branch a && all_pass branch b rest

inspect_segments-append :
    (branch : Text) (xs ys : List Text)
    → is_passed (inspect_segments branch (xs ++ ys))
      ≡ is_passed (inspect_segments branch xs) && is_passed (inspect_segments branch ys)
unfolding inspect_segments
inspect_segments-append branch [] ys = refl
inspect_segments-append branch (x ∷ xs) ys =
    or_reason-is_passed (inspect_master_tokens branch (tokenize x))
      (inspect_segments branch (xs ++ ys)) (inspect_segments branch xs) (inspect_segments branch ys)
      (inspect_segments-append branch xs ys)
  where
    or_reason-is_passed :
        (o both xs ys : Option MasterReason)
        → is_passed both ≡ is_passed xs && is_passed ys
        → is_passed (or_reason o both) ≡ is_passed (or_reason o xs) && is_passed ys
    or_reason-is_passed none both xs ys e = e
    or_reason-is_passed (some r) both xs ys e = refl

own_rules_of_chain :
    (branch a : Text) (sep : Separator) (b : Text) (rest : List (Separator × Text))
    → IsApart a ((sep, b) ∷ rest)
    → is_passed (inspect_segments branch (segments (chain a ((sep, b) ∷ rest))))
      ≡ is_passed (inspect_segments branch (segments a))
        && is_passed (inspect_segments branch (segments (chain b rest)))
unfolding chain IsApart
own_rules_of_chain branch a sep b rest k =
    ap (λ ss. is_passed (inspect_segments branch ss)) (segments-append a sep (chain b rest) k.0)
    ∙ inspect_segments-append branch (segments a) (segments (chain b rest))

or_refusal-is_passed :
    (x y : Option GitReason) → is_passed (or_refusal x y) ≡ is_passed x && is_passed y
or_refusal-is_passed none y = refl
or_refusal-is_passed (some r) y = refl

chain-passes_both :
    (branch a : Text) (rest : List (Separator × Text))
    → IsApart a rest
    → passes_both branch (chain a rest) ≡ all_pass branch a rest
unfolding all_pass
chain-passes_both branch a [] k = unfold chain in refl
chain-passes_both branch a ((sep, b) ∷ rest) k =
    let later = chain-passes_both branch b rest (unfold IsApart in k.1) in
    let own = own_rules_of_chain branch a sep b rest k in
    let here = inspect_bash_command-refusal_of_chain a ((sep, b) ∷ rest) k in
    let there = inspect_bash_command-refusal_of_chain b rest (unfold IsApart in k.1) in
    let split : is_passed (refusal_of_chain a ((sep, b) ∷ rest))
        ≡ is_passed (inspect_bash_command a) && is_passed (refusal_of_chain b rest) =
      unfold refusal_of_chain in
      or_refusal-is_passed (inspect_bash_command a) (refusal_of_chain b rest) in
    ground (arith, ap is_passed here, ap is_passed there)

shared_first-is_passed :
    (o : Option GitReason) (own : Option MasterReason)
    → is_passed (shared_first o own) ≡ is_passed o && is_passed own
shared_first-is_passed none own = refl
shared_first-is_passed (some r) own = refl

-- A master may run a chain of commands, joined by `;`, a line end, `|`, `&&` or `||`, exactly where
-- each of them passes the git guardrails of every agent and the master's own rules; no command that
-- `&&` follows may end in `&`.
pub inspect_master_command-all_pass :
    (branch a : Text) (rest : List (Separator × Text))
    → IsApart a rest
    → is_passed (inspect_master_command branch (chain a rest)) ≡ all_pass branch a rest
unfolding inspect_master_command
inspect_master_command-all_pass branch a rest k =
    shared_first-is_passed (inspect_bash_command (chain a rest))
      (inspect_segments branch (segments (chain a rest)))
    ∙ chain-passes_both branch a rest k
