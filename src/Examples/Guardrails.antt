-- ===== src/Examples/Guardrails.antt =====
-- Runs of executor/git-guardrails.ts and master/guardrails.ts.
use ralph_autopilot.Common.{◌≡◌, refl, none, some, List, [], ◌∷◌, Text, codes, text_eq}
use ralph_autopilot.Common.Lines.{trim, strip_prefix, is_space}
use ralph_autopilot.Guardrails.{
  GitReason, segments, split_commands, tokenize, split_spaces, starts_with, ends_with, run_has_f,
  is_clean_force, inspect_git_segment, after_git, skip_flags, inspect_tokens, first_refusal,
  inspect_bash_command,
}
use ralph_autopilot.Guardrails.Chain.{
  Separator, and_then, pipe, chain, refusal_of_chain, IsApart, keeps_apart, ends_in_ampersand,
  inspect_bash_command-refusal_of_chain,
}
use ralph_autopilot.Guardrails.Master.{
  inspect_master_command, inspect_segments, inspect_master_tokens, contains, is_supervisor_target,
  inspect_gh, after_gh, after_colon, landing, refspecs, inspect_git_push_target,
}
use ralph_autopilot.Guardrails.Master.Parts.{is_passed, all_pass, inspect_master_command-all_pass}

refused_run :
    (inspect_bash_command (codes "cd x && git -c a=b push -f") ≡ some GitReason.force_push)
    × (inspect_bash_command (codes "git push origin work:main") ≡ some GitReason.protected_push)
    × (inspect_bash_command (codes "git push origin +work") ≡ none)
    × (inspect_bash_command (codes "git -C x push -f") ≡ none)
unfolding inspect_bash_command first_refusal segments split_commands tokenize split_spaces trim
    is_space inspect_tokens after_git skip_flags starts_with ends_with inspect_git_segment run_has_f
    is_clean_force text_eq
refused_run = (refl, refl, refl, refl)

-- A lone `&` joins two commands for the shell alone.
background_run : inspect_bash_command (codes "git status & git push -f") ≡ none
unfolding inspect_bash_command first_refusal segments split_commands tokenize split_spaces trim
    is_space inspect_tokens after_git skip_flags starts_with ends_with inspect_git_segment run_has_f
    is_clean_force text_eq
background_run = refl

-- A flag before the verb, a command that runs another, and tags.
master_run :
    (inspect_master_command (codes "x") (codes "gh pr -R o/r merge 5") ≡ none)
    × (inspect_master_command (codes "x") (codes "sudo systemctl stop r") ≡ none)
    × (inspect_master_command (codes "x") (codes "git push --tags") ≡ none)
unfolding inspect_master_command inspect_segments inspect_master_tokens contains
    is_supervisor_target inspect_gh after_gh after_colon landing refspecs inspect_git_push_target
    strip_prefix inspect_bash_command first_refusal segments split_commands tokenize split_spaces
    trim is_space inspect_tokens after_git skip_flags starts_with ends_with inspect_git_segment
    run_has_f is_clean_force text_eq
master_run = (refl, refl, refl)

abbrev later : List (Separator × Text)
later = (and_then, codes " git reset --hard") ∷ (pipe, codes " cat") ∷ []

later-IsApart : IsApart (codes "git status") later
unfolding IsApart keeps_apart ends_in_ampersand
later-IsApart = (refl, (refl, tt))

chain_example :
    inspect_bash_command (chain (codes "git status") later)
    ≡ refusal_of_chain (codes "git status") later
chain_example = inspect_bash_command-refusal_of_chain (codes "git status") later later-IsApart

parts_example :
    is_passed (inspect_master_command (codes "x") (chain (codes "git status") later))
    ≡ all_pass (codes "x") (codes "git status") later
parts_example = inspect_master_command-all_pass (codes "x") (codes "git status") later later-IsApart
