-- ===== src/Review/Hosted.antt =====
-- review/hosted-review.ts: what a set of review threads means. The lower case of Unicode and the
-- SHA-256 of node:crypto stand as the fields of `Platform`; all strings are their code units.
pub mod Threads
pub mod Block
pub mod Gate
pub mod Observe
use ralph_autopilot.Common.{
  ℕ, suc, ◌+◌, ◌-◌, Bool, true, false, not, ◌&&◌, ◌||◌, leb, ◌==◌, ◌===◌, String, Option, none,
  some, is_some, List, [], ◌∷◌, ◌++◌, map, length, take, any, Text, text_eq, codes, if◌then◌else◌,
}
use ralph_autopilot.Common.Lines.{is_space, trim, to_lower_case}
use ralph_autopilot.Common.Decimal.{decimal}

pub record Platform : Type 0 where
  pub lower_case : Text → Text
  pub sha256_hex : Text → Text

pub data ReviewThreadAuthorType : Type 0 where
  hosted_reviewer human ralph unknown_bot : ReviewThreadAuthorType

pub record ReviewThreadComment : Type 0 where
  pub id : Text
  pub author : Text
  pub author_is_bot : Bool
  pub body : Text

pub data DiffSide : Type 0 where
  left right : DiffSide

pub record ReviewThread : Type 0 where
  pub id : Text
  pub is_resolved : Bool
  pub is_outdated : Bool
  pub path : Option Text
  pub line : Option ℕ
  pub side : Option DiffSide
  pub reviewed_sha : Option Text
  pub comments : List ReviewThreadComment

abbrev hosted_reviewer_logins : List Text
hosted_reviewer_logins =
    codes "chatgpt-codex-connector"
    ∷ codes "chatgpt-codex-connector[bot]"
    ∷ codes "codex"
    ∷ codes "codex[bot]"
    ∷ codes "openai-codex"
    ∷ codes "openai-codex[bot]"
    ∷ []

abbrev ralph_author_logins : List Text
ralph_author_logins = codes "ralph-autopilot" ∷ codes "ralph-autopilot[bot]" ∷ []

norm : Text → Text
unfolding trim to_lower_case
norm login = to_lower_case (trim login)

unfoldable pub classify_thread_author : Text → Bool → ReviewThreadAuthorType
unfolding norm text_eq
classify_thread_author author is_bot =
    let login = norm author in
    if any (λ l. text_eq (norm l) login) ralph_author_logins
    then ReviewThreadAuthorType.ralph
    else if any (λ l. text_eq (norm l) login) hosted_reviewer_logins
    then ReviewThreadAuthorType.hosted_reviewer
    else if is_bot
    then ReviewThreadAuthorType.unknown_bot
    else ReviewThreadAuthorType.human

-- Who raised the finding.
abbrev pub author_of_first : List ReviewThreadComment → ReviewThreadAuthorType
author_of_first [] = ReviewThreadAuthorType.unknown_bot
author_of_first (c ∷ cs) = classify_thread_author c.author c.author_is_bot

abbrev pub thread_author_type : ReviewThread → ReviewThreadAuthorType
thread_author_type thread = author_of_first thread.comments

abbrev last_comment : ReviewThreadComment → List ReviewThreadComment → ReviewThreadComment
last_comment c [] = c
last_comment c (d ∷ ds) = last_comment d ds

-- Runs of space become one blank.
collapse : Text → Text
unfolding is_space
collapse [] = []
collapse (c ∷ []) = if is_space c then 32 ∷ [] else c ∷ []
collapse (c ∷ d ∷ s) =
    let rest = collapse (d ∷ s) in
    if is_space c && is_space d then rest else if is_space c then 32 ∷ rest else c ∷ rest

-- `parseInt(c, 16)` of a digit of a hexadecimal digest.
abbrev hex_value : ℕ → ℕ
hex_value c = if leb b'0' c && leb c b'9' then c - b'0' else c - b'a' + 10

-- The letter of the alphabet `g` to `v` for a digit.
abbrev finding_letter : ℕ → ℕ
finding_letter c = b'g' + hex_value c

unfoldable pub hash_finding_body : Platform → Text → Text
unfolding collapse trim
hash_finding_body p body =
    map finding_letter (take 16 (p.sha256_hex (p.lower_case (trim (collapse body)))))

pub data HostedSeverity : Type 0 where
  severity0 severity1 severity2 : HostedSeverity

-- `\w`
abbrev is_word : ℕ → Bool
is_word c =
    leb b'a' c && leb c b'z' || leb b'A' c && leb c b'Z' || leb b'0' c && leb c b'9' || c == b'_'

-- A letter under the flag `i`: the pattern is in lower case.
abbrev same_letter : ℕ → ℕ → Bool
same_letter p c = p == c || leb b'a' p && leb p b'z' && c + 32 == p

-- The pattern stands here, and a word ends behind it.
word_here : Text → Text → Bool
word_here [] [] = true
word_here [] (c ∷ s) = not (is_word c)
word_here (p ∷ ps) [] = false
word_here (p ∷ ps) (c ∷ s) = same_letter p c && word_here ps s

-- `\b(?:w₁|w₂|…)\b`: `inside` tells that the character before is of a word.
has_word : List Text → Bool → Text → Bool
unfolding word_here
has_word ws inside [] = false
has_word ws inside (c ∷ s) =
    not inside && any (λ w. word_here w (c ∷ s)) ws || has_word ws (is_word c) s

unfoldable pub read_severity : Text → Option HostedSeverity
unfolding has_word
read_severity body =
    if has_word
      (codes "p0" ∷ codes "critical" ∷ codes "blocker" ∷ codes "must-fix" ∷ codes "must fix" ∷ [])
      false body
    then some HostedSeverity.severity0
    else if has_word (codes "p1" ∷ codes "high" ∷ codes "major" ∷ codes "important" ∷ []) false body
    then some HostedSeverity.severity1
    else if has_word (codes "p2" ∷ codes "minor" ∷ codes "nit" ∷ codes "nitpick" ∷ codes "low" ∷ [])
        false body
    then some HostedSeverity.severity2
    else none

pub record HostedFinding : Type 0 where
  pub thread_id : Text
  pub latest_comment_id : Text
  pub latest_comment_hash : Text
  pub reviewed_sha : Option Text
  pub severity : Option HostedSeverity
  pub path : Option Text
  pub line : Option ℕ
  pub side : Option DiffSide
  pub finding : Text
  pub evidence : Text
  pub author_type : ReviewThreadAuthorType
  pub author : Text

abbrev type_name : ReviewThreadAuthorType → Text
type_name ReviewThreadAuthorType.hosted_reviewer = codes "hosted-reviewer"
type_name ReviewThreadAuthorType.human = codes "human"
type_name ReviewThreadAuthorType.ralph = codes "ralph"
type_name ReviewThreadAuthorType.unknown_bot = codes "unknown-bot"

abbrev line_suffix : Option ℕ → Text
line_suffix none = []
line_suffix (some n) = b':' ∷ decimal n

anchor_text : Option Text → Option ℕ → Text
anchor_text none line = codes "(no file anchor)"
anchor_text (some []) line = codes "(no file anchor)"
anchor_text (some (c ∷ path)) line = (c ∷ path) ++ line_suffix line

abbrev side_text : Option DiffSide → Text
side_text none = []
side_text (some DiffSide.left) = codes " [LEFT]"
side_text (some DiffSide.right) = codes " [RIGHT]"

abbrev or_unreported : Option Text → Text
or_unreported none = codes "(unreported)"
or_unreported (some sha) = sha

replies_text : List ReviewThreadComment → Text → Text
replies_text [] author = codes "no replies yet"
replies_text (c ∷ cs) author =
    decimal (length (c ∷ cs))
    ++ (codes " prior repl"
        ++ ((if length (c ∷ cs) == 1 then codes "y" else codes "ies")
            ++ (codes "; latest by " ++ author)))

evidence_text : ReviewThread → ReviewThreadComment → List ReviewThreadComment → Text
unfolding anchor_text replies_text
evidence_text thread first replies =
    codes "thread "
    ++ (thread.id
        ++ (codes " by "
            ++ (first.author
                ++ (codes " ("
                    ++ (type_name (classify_thread_author first.author first.author_is_bot)
                        ++ (codes "); anchored at "
                            ++ (anchor_text thread.path thread.line
                                ++ (side_text thread.side
                                    ++ (codes "; reviewed head "
                                        ++ (or_unreported thread.reviewed_sha
                                            ++ (codes "; "
                                                ++ replies_text replies
                                                    (last_comment first replies).author)))))))))))

unfoldable pub normalize_comments :
    Platform → ReviewThread → ReviewThreadComment → List ReviewThreadComment → HostedFinding
unfolding evidence_text hash_finding_body read_severity
normalize_comments p thread first replies = record {
  thread_id = thread.id;
  latest_comment_id = (last_comment first replies).id;
  latest_comment_hash = hash_finding_body p (last_comment first replies).body;
  reviewed_sha = thread.reviewed_sha;
  severity = read_severity first.body;
  path = thread.path;
  line = thread.line;
  side = thread.side;
  finding = first.body;
  evidence = evidence_text thread first replies;
  author_type = classify_thread_author first.author first.author_is_bot;
  author = first.author;
}
