-- ===== src/Guardrails/Master.antt =====
-- master/guardrails.ts: the invariants of a master's shell commands, over the shared git guardrails.
pub mod Parts
use ralph_autopilot.Common.{
  ◌≡◌, refl, Bool, true, false, not, ◌&&◌, ◌||◌, ◌==◌, Option, none, some, List, [], ◌∷◌, any, All,
  filter, Text, text_eq, codes, if◌then◌else◌, arith,
}
use ralph_autopilot.Common.Lines.{strip_prefix}
use ralph_autopilot.Guardrails.{
  GitReason, segments, tokenize, includes, has_flag, starts_with, ends_with, after_git,
  inspect_bash_command,
}

pub data MasterReason : Type 0 where
  git_refused : GitReason → MasterReason
  host_binary signals_supervisor writes_supervisor pr_merge closes_item ends_ci_run merges_by_api
        bypass_flag edits_protection foreign_branch :
      MasterReason

pub data MasterInvariant : Type 0 where
  no_merge_or_close no_ci_bypass no_destructive_git no_host_control : MasterInvariant

-- The invariant that a verdict names beside its reason.
abbrev invariant_of : MasterReason → MasterInvariant
invariant_of (git_refused reason) = no_destructive_git
invariant_of foreign_branch = no_destructive_git
invariant_of pr_merge = no_merge_or_close
invariant_of closes_item = no_merge_or_close
invariant_of merges_by_api = no_merge_or_close
invariant_of ends_ci_run = no_ci_bypass
invariant_of bypass_flag = no_ci_bypass
invariant_of edits_protection = no_ci_bypass
invariant_of _ = no_host_control

abbrev host_binaries : List Text
host_binaries =
    codes "systemctl"
    ∷ codes "journalctl"
    ∷ codes "service"
    ∷ codes "docker"
    ∷ codes "docker-compose"
    ∷ codes "podman"
    ∷ codes "kubectl"
    ∷ codes "shutdown"
    ∷ codes "reboot"
    ∷ codes "halt"
    ∷ codes "crontab"
    ∷ []

abbrev process_binaries : List Text
process_binaries = codes "kill" ∷ codes "killall" ∷ codes "pkill" ∷ []

unfoldable pub contains : Text → Text → Bool
unfolding starts_with
contains p [] = starts_with p []
contains p (c ∷ s) = starts_with p (c ∷ s) || contains p s

unfoldable pub is_supervisor_target : Text → Bool
unfolding contains
is_supervisor_target t =
    contains (codes "ralph-daemon") t
    || contains (codes "ralph-supervisor") t
    || contains (codes "ralph-autopilot") t
    || contains (codes ".ralph/quarantine") t

abbrev refuse_if : Bool → MasterReason → Option MasterReason → Option MasterReason
refuse_if true reason rest = some reason
refuse_if false reason rest = rest

-- Something, and behind it the protection.
abbrev protection_behind : Option Text → Bool
protection_behind none = false
protection_behind (some []) = false
protection_behind (some (c ∷ s)) = contains (codes "/protection") s

-- `/branches\/.+\/protection/`
is_protection_path : Text → Bool
unfolding contains strip_prefix
is_protection_path [] = false
is_protection_path (c ∷ s) =
    protection_behind (strip_prefix (codes "branches/") (c ∷ s)) || is_protection_path s

abbrev is_at : Text → Text → Bool
is_at word t = text_eq t word

-- By the noun and the verb, each of which may be absent; the flags count in any case.
abbrev inspect_gh_flags : Bool → List Text → Option MasterReason
inspect_gh_flags api rest =
    refuse_if
      (has_flag rest
        (codes "--admin" ∷ codes "--auto" ∷ codes "--skip-checks" ∷ codes "--disable-auto" ∷ []))
      bypass_flag (refuse_if (api && any is_protection_path rest) edits_protection none)

abbrev inspect_gh_noun : Text → List Text → Option MasterReason
inspect_gh_noun noun rest =
    let api = is_at (codes "api") noun in
    refuse_if (api && any (ends_with (codes "/merge")) rest) merges_by_api
      (inspect_gh_flags api rest)

abbrev inspect_gh_verb : Text → Text → List Text → Option MasterReason
inspect_gh_verb noun verb rest =
    refuse_if (is_at (codes "pr") noun && is_at (codes "merge") verb) pr_merge (
      refuse_if
        ((is_at (codes "issue") noun || is_at (codes "pr") noun) && is_at (codes "close") verb)
        closes_item
        (refuse_if
          (is_at (codes "run") noun && (is_at (codes "cancel") verb || is_at (codes "delete") verb))
          ends_ci_run (inspect_gh_noun noun rest)))

unfoldable pub inspect_gh : List Text → Option MasterReason
unfolding is_protection_path ends_with text_eq
inspect_gh [] = none
inspect_gh (noun ∷ []) = inspect_gh_noun noun (noun ∷ [])
inspect_gh (noun ∷ verb ∷ rest) = inspect_gh_verb noun verb (noun ∷ verb ∷ rest)

unfoldable pub after_gh : List Text → List Text
unfolding text_eq
after_gh [] = []
after_gh (t ∷ ts) = let rest = after_gh ts in if text_eq t (codes "gh") then ts else rest

-- The half behind the first colon, or all of it.
unfoldable pub after_colon : Text → Option Text
after_colon [] = none
after_colon (c ∷ s) = let rest = after_colon s in if c == b':' then some s else rest

abbrev or_text : Option Text → Text → Text
or_text none t = t
or_text (some s) t = s

abbrev drop_plus : Text → Text
drop_plus [] = []
drop_plus (c ∷ s) = if c == b'+' then s else c ∷ s

-- The branch that a refspec lands on.
unfoldable pub landing : Text → Text
unfolding after_colon strip_prefix
landing spec =
    let remote = or_text (after_colon spec) spec in
    drop_plus (or_text (strip_prefix (codes "refs/heads/") remote) remote)

abbrev is_refspec : Text → Bool
is_refspec t =
    not (text_eq t (codes "push"))
    && not (starts_with (codes "-") t)
    && not (text_eq t (codes "origin"))
    && not (text_eq t (codes "upstream"))
    && not (contains (codes "://") t)

abbrev or_none : Option (List Text) → List Text
or_none none = []
or_none (some ts) = ts

unfoldable pub refspecs : List Text → List Text
unfolding after_git contains starts_with text_eq
refspecs tokens = filter is_refspec (or_none (after_git tokens))

abbrev lands_elsewhere : Text → Text → Bool
lands_elsewhere branch spec = not (text_eq (landing spec) branch)

unfoldable pub inspect_git_push_target : Text → List Text → Option MasterReason
unfolding landing refspecs
inspect_git_push_target branch tokens =
    refuse_if (any (lands_elsewhere branch) (refspecs tokens)) foreign_branch none

abbrev or_reason : Option MasterReason → Option MasterReason → Option MasterReason
or_reason none later = later
or_reason (some reason) later = some reason

abbrev signals : Text → List Text → Bool
signals head tokens = includes process_binaries head && any is_supervisor_target tokens

abbrev writes : Text → List Text → Bool
writes head tokens =
    any is_supervisor_target tokens
    && includes (codes "rm" ∷ codes "mv" ∷ codes "tee" ∷ codes ">" ∷ []) head

abbrev gh_part : List Text → Option MasterReason
gh_part tokens = if includes tokens (codes "gh") then inspect_gh (after_gh tokens) else none

abbrev push_part : Text → List Text → Option MasterReason
push_part branch tokens =
    if includes tokens (codes "git") && includes tokens (codes "push")
    then inspect_git_push_target branch tokens
    else none

abbrev supervised : Text → Text → List Text → Option MasterReason
supervised branch head tokens = refuse_if (signals head tokens) signals_supervisor (
    refuse_if (writes head tokens) writes_supervisor
      (or_reason (gh_part tokens) (push_part branch tokens)))

abbrev inspect_words : Text → Text → List Text → Option MasterReason
inspect_words branch head tokens =
    refuse_if (includes host_binaries head) host_binary (supervised branch head tokens)

unfoldable pub inspect_master_tokens : Text → List Text → Option MasterReason
unfolding inspect_gh after_gh inspect_git_push_target is_supervisor_target
inspect_master_tokens branch [] = none
inspect_master_tokens branch (head ∷ ts) = inspect_words branch head (head ∷ ts)

unfoldable pub inspect_segments : Text → List Text → Option MasterReason
unfolding inspect_master_tokens
inspect_segments branch [] = none
inspect_segments branch (s ∷ ss) =
    let rest = inspect_segments branch ss in
    or_reason (inspect_master_tokens branch (tokenize s)) rest

abbrev shared_first : Option GitReason → Option MasterReason → Option MasterReason
shared_first (some reason) own = some (git_refused reason)
shared_first none own = own

unfoldable pub inspect_master_command : Text → Text → Option MasterReason
unfolding inspect_segments
inspect_master_command branch command =
    shared_first (inspect_bash_command command) (inspect_segments branch (segments command))
