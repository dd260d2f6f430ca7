-- ===== src/Github/Blocked.antt =====
-- github/blocked.ts: the `## Blocked by` section of an issue's body. The three regular expressions
-- are functions on the code units of one line; each has one way to match at a position, since no
-- class that it repeats holds the character that must follow.
pub mod Distinct
pub mod Sections
pub mod RoundTrip
use ralph_autopilot.Common.{
  ℕ, zero, suc, ◌+◌, ◌-◌, Bool, true, false, ◌&&◌, ◌||◌, Option, none, some, List, [], ◌∷◌, ◌++◌,
  map, foldl, length, any, Text, text_eq, leb, ltb, ◌==◌, if◌then◌else◌,
}
use ralph_autopilot.Common.Decimal.{decimal, is_digit, number_from}
use ralph_autopilot.Common.Lines.{
  is_space, is_slug, to_lower_case, take_while, drop_while, trim, strip_prefix, split_lines,
  rest_of_line,
}

pub record BlockedByRefs : Type 0 where
  pub refs : List ℕ
  pub cross_repo : List Text
  pub unparsed : List Text

-- "blocked by"
abbrev pub blocked_by : Text
blocked_by = 98 ∷ 108 ∷ 111 ∷ 99 ∷ 107 ∷ 101 ∷ 100 ∷ 32 ∷ 98 ∷ 121 ∷ []

is_hash : ℕ → Bool
is_hash c = c == b'#'

-- `\s+(.*)$`
spaced_rest : Text → Option Text
spaced_rest [] = none
spaced_rest (c ∷ s) = if is_space c then rest_of_line (drop_while is_space s) else none

-- HEADING, `/^#{1,6}\s+(.*)$/`.
pub heading : Text → Option Text
unfolding is_hash spaced_rest take_while drop_while is_space rest_of_line
heading line =
    let hashes = length (take_while is_hash line) in
    if ltb 0 hashes && leb hashes 6 then spaced_rest (drop_while is_hash line) else none

marker_rest : Text → Option Text
marker_rest [] = none
marker_rest (c ∷ s) =
    let digits_rest = drop_while is_digit s in
    if c == b'-' || c == b'*' || c == b'+'
    then some s
    else if is_digit c
    then elim digits_rest [ [] ↦ none | d ∷ t ↦ if d == b'.' || d == b')' then some t else none ]
    else none

-- LIST_ITEM, `/^\s*(?:[-*+]|\d+[.)])\s+(.*)$/`.
pub list_item : Text → Option Text
unfolding marker_rest spaced_rest drop_while is_space rest_of_line
list_item line = elim (marker_rest (drop_while is_space line)) [
  | none ↦ none
  | some s ↦ spaced_rest s
]

-- One reference: a bare `#n` (group 7), or owner, name and number (groups 1 to 3, 4 to 6).
pub data Ref : Type 0 where
  bare : ℕ → Ref
  named : Text → Text → ℕ → Ref

-- A match, with the text behind it.
abbrev Match : Type 0
Match = Option (Ref × Text)

nonempty_run : Text → Text → Option (Text × Text)
nonempty_run [] rest = none
nonempty_run (c ∷ t) rest = some (c ∷ t, rest)

-- A run of characters that must not be empty, and what follows.
run_of : (ℕ → Bool) → Text → Option (Text × Text)
unfolding nonempty_run
run_of p s = nonempty_run (take_while p s) (drop_while p s)

-- `([\w.-]+)\/([\w.-]+)<mark>(\d+)`.
qualified : Text → Text → Match
unfolding run_of
qualified mark s = elim (run_of is_slug s) [
  | none ↦ none
  | some (owner, s1) ↦ elim (strip_prefix (b'/' ∷ []) s1) [
    | none ↦ none
    | some s2 ↦ elim (run_of is_slug s2) [
      | none ↦ none
      | some (name, s3) ↦ elim (strip_prefix mark s3) [
        | none ↦ none
        | some s4 ↦ elim (run_of is_digit s4) [
          | none ↦ none
          | some (digits, s5) ↦ some (named owner name (number_from 0 digits), s5)
        ]
      ]
    ]
  ]
]

-- A prefix that may be there.
optional : Text → Text → Text
optional p s = elim (strip_prefix p s) [ none ↦ s | some t ↦ t ]

-- "http", "s", "://", "www.", "github.com/", "/issues/"
abbrev http : Text
http = 104 ∷ 116 ∷ 116 ∷ 112 ∷ []

abbrev scheme_end : Text
scheme_end = 58 ∷ 47 ∷ 47 ∷ []

abbrev pub www : Text
www = 119 ∷ 119 ∷ 119 ∷ 46 ∷ []

abbrev github_com : Text
github_com = 103 ∷ 105 ∷ 116 ∷ 104 ∷ 117 ∷ 98 ∷ 46 ∷ 99 ∷ 111 ∷ 109 ∷ 47 ∷ []

abbrev issues_part : Text
issues_part = 47 ∷ 105 ∷ 115 ∷ 115 ∷ 117 ∷ 101 ∷ 115 ∷ 47 ∷ []

url_ref : Text → Match
unfolding qualified optional
url_ref s = elim (strip_prefix http s) [
  | none ↦ none
  | some s1 ↦ elim (strip_prefix scheme_end (optional (b's' ∷ []) s1)) [
    | none ↦ none
    | some s2 ↦ elim (strip_prefix github_com (optional www s2)) [
      | none ↦ none
      | some s3 ↦ qualified issues_part s3
    ]
  ]
]

bare_of : Option (Text × Text) → Match
bare_of none = none
bare_of (some (digits, rest)) = some (bare (number_from 0 digits), rest)

-- `#(\d+)`.
bare_ref : Text → Match
unfolding run_of bare_of
bare_ref s = elim (strip_prefix (b'#' ∷ []) s) [
  | none ↦ none
  | some t ↦ bare_of (run_of is_digit t)
]

or_else : Match → Match → Match
or_else none m = m
or_else (some r) m = some r

-- ISSUE_REF at one position, its alternatives in their order.
pub issue_ref : Text → Match
unfolding url_ref qualified bare_ref or_else strip_prefix take_while drop_while is_slug number_from
issue_ref s = or_else (url_ref s) (or_else (qualified (b'#' ∷ []) s) (bare_ref s))

-- How far the scan moves on, beyond the one character that it always takes.
skipped : Match → Text → ℕ
skipped none s = 0
skipped (some (r, rest)) s = length s - length rest - 1

found : Match → List Ref → List Ref
found none rs = rs
found (some (r, rest)) rs = r ∷ rs

-- `line.matchAll(ISSUE_REF)`: `skip` characters belong to the match before.
scan : ℕ → Text → List Ref
unfolding skipped found
scan skip [] = []
scan zero (c ∷ s) = let here = issue_ref (c ∷ s) in found here (scan (skipped here (c ∷ s)) s)
scan (suc skip) (c ∷ s) = scan skip s

pub match_all : Text → List Ref
unfolding scan issue_ref
match_all line = scan 0 line

-- The loop's variables; `seenRefs` and `seenCross` hold the refs and the lower-cased cross refs.
pub record ParseState : Type 0 where
  pub in_section : Bool
  pub parsed : BlockedByRefs
  pub open parsed use *

abbrev pub no_refs : BlockedByRefs
no_refs = record { refs = []; cross_repo = []; unparsed = [] }

pub add_ref : BlockedByRefs → ℕ → BlockedByRefs
add_ref b n = if any (λ m. m == n) b.refs then b else record b { refs = b.refs ++ n ∷ [] }

pub add_cross : BlockedByRefs → Text → BlockedByRefs
unfolding to_lower_case
add_cross b ref =
    if any (λ r. text_eq (to_lower_case r) (to_lower_case ref)) b.cross_repo
    then b
    else record b { cross_repo = b.cross_repo ++ ref ∷ [] }

-- `owner/name`, and with `#n`.
abbrev pub slug : Text → Text → Text
slug owner name = owner ++ b'/' ∷ name

pub add_match : Text → BlockedByRefs → Ref → BlockedByRefs
unfolding add_ref add_cross
add_match own_repo b (bare n) = add_ref b n
add_match own_repo b (named owner name n) =
    if text_eq (to_lower_case (slug owner name)) own_repo
    then add_ref b n
    else add_cross b (slug owner name ++ b'#' ∷ decimal n)

-- `if (content) unparsed.push(content)`.
push_content : BlockedByRefs → Text → BlockedByRefs
push_content b [] = b
push_content b (c ∷ t) = record b { unparsed = b.unparsed ++ (c ∷ t) ∷ [] }

add_unparsed : BlockedByRefs → Option Text → BlockedByRefs
unfolding push_content
add_unparsed b none = b
add_unparsed b (some content) = push_content b (trim content)

matched_line : Text → BlockedByRefs → Text → List Ref → BlockedByRefs
unfolding add_unparsed add_match
matched_line own_repo b line [] = add_unparsed b (list_item line)
matched_line own_repo b line (r ∷ rs) = foldl (add_match own_repo) b (r ∷ rs)

-- A line of the section that is no heading.
pub section_line : Text → BlockedByRefs → Text → BlockedByRefs
unfolding match_all matched_line list_item trim
section_line own_repo b line = matched_line own_repo b line (match_all line)

after_heading : Text → ParseState → Text → Option Text → ParseState
unfolding section_line to_lower_case trim
after_heading own_repo s line (some title) = record s {
  in_section = text_eq (to_lower_case (trim title)) blocked_by;
}
after_heading own_repo s line none =
    if s.in_section then record s { parsed = section_line own_repo s.parsed line } else s

pub parse_line : Text → ParseState → Text → ParseState
unfolding heading after_heading
parse_line own_repo s line = after_heading own_repo s line (heading line)

unfoldable pub parse_blocked_by : Text → Text → BlockedByRefs
unfolding parse_line split_lines to_lower_case
parse_blocked_by body repo =
    (foldl (parse_line (to_lower_case repo)) (record { in_section = false; parsed = no_refs })
      (split_lines body)).parsed
