-- ===== src/Common/Lines.antt =====
-- The string and pattern primitives that the parsers use, over code units: `split(/\r?\n/)`,
-- `trim`, `toLowerCase`, `\s`, `.`, and prefixes of a pattern.
use Prim.Native.Nat.{ℕ, ◌+◌}
use mathlib.Core.Bool.{Bool, false, ◌&&◌, ◌||◌}
use mathlib.Core.Option.{Option, none, some}
use mathlib.Core.List.{List, [], ◌∷◌, map}
use ralph_autopilot.Common.Tests.{leb, ◌==◌, if◌then◌else◌}
use ralph_autopilot.Common.Lists.{any}
use ralph_autopilot.Common.Texts.{Text}

-- `\s` and the characters that `trim` removes.
unfoldable pub is_space : ℕ → Bool
is_space c =
    leb 9 c && leb c 13
    || c == 32
    || c == 0xa0
    || c == 0x1680
    || leb 0x2000 c && leb c 0x200a
    || c == 0x2028
    || c == 0x2029
    || c == 0x202f
    || c == 0x205f
    || c == 0x3000
    || c == 0xfeff

-- What `.` does not match.
is_line_terminator : ℕ → Bool
is_line_terminator c = c == 10 || c == 13 || c == 0x2028 || c == 0x2029

-- `[\w.-]`.
unfoldable pub is_slug : ℕ → Bool
is_slug c =
    leb b'a' c && leb c b'z'
    || leb b'A' c && leb c b'Z'
    || leb b'0' c && leb c b'9'
    || c == b'_'
    || c == b'.'
    || c == b'-'

-- `toLowerCase` where the result is compared with ASCII text: of the other code units only the
-- Kelvin sign becomes an ASCII letter alone.
lower : ℕ → ℕ
lower c = if leb b'A' c && leb c b'Z' then c + 32 else if c == 0x212a then b'k' else c

unfoldable pub to_lower_case : Text → Text
unfolding lower
to_lower_case s = map lower s

-- The longest run of characters that pass, and what follows it.
unfoldable pub take_while : (ℕ → Bool) → Text → Text
take_while p [] = []
take_while p (c ∷ s) = let rest = take_while p s in if p c then c ∷ rest else []

unfoldable pub drop_while : (ℕ → Bool) → Text → Text
drop_while p [] = []
drop_while p (c ∷ s) = let rest = drop_while p s in if p c then rest else c ∷ s

trim_end : Text → Text
trim_end [] = []
trim_end (c ∷ s) =
    let rest = trim_end s in
    elim rest [ [] ↦ if is_space c then [] else c ∷ [] | d ∷ t ↦ c ∷ d ∷ t ]

unfoldable pub trim : Text → Text
unfolding trim_end drop_while is_space
trim s = trim_end (drop_while is_space s)

-- The rest of a text behind a literal prefix.
unfoldable pub strip_prefix : Text → Text → Option Text
strip_prefix [] s = some s
strip_prefix (c ∷ p) [] = none
strip_prefix (c ∷ p) (d ∷ s) = if c == d then strip_prefix p s else none

cons_line : ℕ → List Text → List Text
cons_line c [] = (c ∷ []) ∷ []
cons_line c (l ∷ ls) = (c ∷ l) ∷ ls

newline_next : Text → Bool
newline_next [] = false
newline_next (c ∷ s) = c == 10

-- `split(/\r?\n/)`.
unfoldable pub split_lines : Text → List Text
unfolding cons_line newline_next
split_lines [] = [] ∷ []
split_lines (c ∷ s) =
    let rest = split_lines s in
    if c == 10 then [] ∷ rest else if c == 13 && newline_next s then rest else cons_line c rest

-- `(.*)$`: the text, if it holds no line terminator.
unfoldable pub rest_of_line : Text → Option Text
unfolding is_line_terminator
rest_of_line s = if any is_line_terminator s then none else some s
