-- ===== src/Guardrails.antt =====
-- executor/git-guardrails.ts: which shell commands of an agent are refused. A verdict is the reason
-- of a refusal, or none.
pub mod Chain
pub mod Master
use ralph_autopilot.Common.{
  ℕ, Bool, true, false, not, ◌&&◌, ◌||◌, leb, ◌==◌, Option, none, some, List, [], ◌∷◌, ◌++◌, any,
  filter, map, Text, text_eq, codes, if◌then◌else◌,
}
use ralph_autopilot.Common.Lines.{is_space, trim}

pub data GitReason : Type 0 where
  force_push remote_deletion mirror_push protected_push branch_deletion hard_reset clean_force
        force_checkout history_rewrite reflog_expire ref_deletion :
      GitReason

-- A separator of one character.
abbrev pub is_separator : ℕ → Bool
is_separator c = c == b';' || c == 10 || c == b'|'

abbrev pub ampersand : ℕ
ampersand = b'&'

-- Onto the first part.
abbrev pub onto_first : ℕ → List Text → List Text
onto_first c [] = (c ∷ []) ∷ []
onto_first c (p ∷ ps) = (c ∷ p) ∷ ps

abbrev pub flush : Bool → List Text → List Text
flush true ps = onto_first ampersand ps
flush false ps = ps

-- `split(/&&|\|\||[;\n|]/)`: whether one `&` waits for another. Two bars leave an empty part.
unfoldable pub split_commands : Bool → Text → List Text
split_commands waiting [] = flush waiting ([] ∷ [])
split_commands waiting (c ∷ s) = elim (is_separator c) [
  | true ↦ flush waiting ([] ∷ split_commands false s)
  | false ↦ elim (c == ampersand) [
    | true ↦ elim waiting [ true ↦ [] ∷ split_commands false s | false ↦ split_commands true s ]
    | false ↦ flush waiting (onto_first c (split_commands false s))
  ]
]

abbrev pub is_filled : Text → Bool
is_filled [] = false
is_filled (c ∷ s) = true

unfoldable pub segments : Text → List Text
unfolding split_commands trim
segments command = filter is_filled (map trim (split_commands false command))

abbrev is_quote : ℕ → Bool
is_quote c = c == 39 || c == 34

-- `split(/\s+/)`: each blank ends a token; empty ones are dropped behind it.
unfoldable pub split_spaces : Text → List Text
unfolding is_space
split_spaces [] = [] ∷ []
split_spaces (c ∷ s) =
    let rest = split_spaces s in if is_space c then [] ∷ rest else onto_first c rest

unfoldable pub tokenize : Text → List Text
unfolding split_spaces
tokenize segment = filter is_filled (split_spaces (filter (λ c. not (is_quote c)) segment))

abbrev pub includes : List Text → Text → Bool
includes names t = any (text_eq t) names

abbrev pub has_flag : List Text → List Text → Bool
has_flag rest names = any (includes names) rest

unfoldable pub starts_with : Text → Text → Bool
starts_with [] s = true
starts_with (p ∷ ps) [] = false
starts_with (p ∷ ps) (c ∷ s) = c == p && starts_with ps s

unfoldable pub ends_with : Text → Text → Bool
unfolding text_eq
ends_with p [] = text_eq p []
ends_with p (c ∷ s) = text_eq p (c ∷ s) || ends_with p s

abbrev protected_branches : List Text
protected_branches = codes "master" ∷ codes "main" ∷ []

-- `/^-[a-z]*f/`
unfoldable pub run_has_f : Text → Bool
run_has_f [] = false
run_has_f (c ∷ s) = c == b'f' || leb b'a' c && leb c b'z' && run_has_f s

unfoldable pub is_clean_force : Text → Bool
unfolding run_has_f text_eq
is_clean_force [] = false
is_clean_force (c ∷ s) = text_eq (c ∷ s) (codes "--force") || c == b'-' && run_has_f s

abbrev refused_if : Bool → GitReason → Option GitReason → Option GitReason
refused_if true reason rest = some reason
refused_if false reason rest = rest

abbrev targets_protected : Text → Bool
targets_protected t =
    includes protected_branches t || any (λ b. ends_with (b':' ∷ b) t) protected_branches

abbrev inspect_push : List Text → Option GitReason
inspect_push rest =
    refused_if
      (has_flag rest (codes "--force" ∷ codes "-f" ∷ [])
        || any (starts_with (codes "--force-with-lease")) rest)
      force_push
      (refused_if
        (has_flag rest (codes "--delete" ∷ codes "-d" ∷ []) || any (starts_with (codes ":")) rest)
        remote_deletion
        (refused_if (has_flag rest (codes "--mirror" ∷ codes "--all" ∷ [])) mirror_push
          (refused_if (any targets_protected rest) protected_push none)))

-- The `switch` on the subcommand.
unfoldable pub inspect_git_segment : Text → List Text → Option GitReason
unfolding starts_with ends_with is_clean_force text_eq
inspect_git_segment sub rest =
    if text_eq sub (codes "push")
    then inspect_push rest
    else if text_eq sub (codes "branch")
    then refused_if
        (has_flag rest (codes "-D" ∷ codes "-d" ∷ codes "--delete" ∷ codes "--delete=force" ∷ []))
        branch_deletion none
    else if text_eq sub (codes "reset")
    then refused_if (has_flag rest (codes "--hard" ∷ [])) hard_reset none
    else if text_eq sub (codes "clean")
    then refused_if (any is_clean_force rest) clean_force none
    else if text_eq sub (codes "checkout") || text_eq sub (codes "switch")
    then refused_if (has_flag rest (codes "-f" ∷ codes "--force" ∷ [])) force_checkout none
    else if text_eq sub (codes "filter-branch") || text_eq sub (codes "filter-repo")
    then some history_rewrite
    else if text_eq sub (codes "reflog")
    then refused_if (includes rest (codes "expire")) reflog_expire none
    else if text_eq sub (codes "update-ref")
    then refused_if (has_flag rest (codes "-d" ∷ codes "--delete" ∷ [])) ref_deletion none
    else none

-- The tokens behind the first `git`.
unfoldable pub after_git : List Text → Option (List Text)
unfolding text_eq
after_git [] = none
after_git (t ∷ ts) = let rest = after_git ts in if text_eq t (codes "git") then some ts else rest

-- The flags before the subcommand; `-c` takes the token behind it.
unfoldable pub skip_flags : Bool → List Text → List Text
unfolding starts_with text_eq
skip_flags value [] = []
skip_flags true (t ∷ ts) = skip_flags false ts
skip_flags false (t ∷ ts) = elim (starts_with (codes "-") t) [
  | true ↦ skip_flags (text_eq t (codes "-c")) ts
  | false ↦ t ∷ ts
]

abbrev on_subcommand : List Text → Option GitReason
on_subcommand [] = none
on_subcommand (sub ∷ rest) = inspect_git_segment sub rest

abbrev on_git : Option (List Text) → Option GitReason
on_git none = none
on_git (some ts) = on_subcommand (skip_flags false ts)

unfoldable pub inspect_tokens : List Text → Option GitReason
unfolding inspect_git_segment after_git skip_flags
inspect_tokens ts = on_git (after_git ts)

-- The first refusal.
unfoldable pub first_refusal : List Text → Option GitReason
unfolding inspect_tokens tokenize
first_refusal [] = none
first_refusal (s ∷ ss) =
    let rest = first_refusal ss in
    elim (inspect_tokens (tokenize s)) [ some reason ↦ some reason | none ↦ rest ]

unfoldable pub inspect_bash_command : Text → Option GitReason
unfolding segments first_refusal
inspect_bash_command command = first_refusal (segments command)
