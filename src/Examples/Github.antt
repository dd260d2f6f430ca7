-- ===== src/Examples/Github.antt =====
-- Runs of github/blocked.ts.
use ralph_autopilot.Common.{◌≡◌, refl, false, [], ◌∷◌, foldl, Text, ◌++◌, codes, text_eq}
use ralph_autopilot.Common.Decimal.{decimal}
use ralph_autopilot.Common.Lines.{to_lower_case, split_lines}
use ralph_autopilot.Github.Blocked.{no_refs, section_line, parse_blocked_by}
use ralph_autopilot.Github.Blocked.Distinct.{HasDistinctRefs, parse_blocked_by-HasDistinctRefs}
use ralph_autopilot.Github.Blocked.Sections.{section_lines, parse_blocked_by-section_lines}
use ralph_autopilot.Github.Blocked.RoundTrip.{render, parse_blocked_by-render}

abbrev body : Text
body =
    codes "Intro #5"
    ++ 10 ∷ codes "##  Blocked By "
    ++ 13 ∷ 10 ∷ codes "- #12"
    ++ 10 ∷ codes " 1. see https://www.github.com/Acme/App/issues/7 and acme/app#12, other/x#3"
    ++ 10 ∷ codes "* nothing here"
    ++ 10 ∷ codes "# Notes"
    ++ 10 ∷ codes "#99"

body_refs : parse_blocked_by body (codes "acme/App") ≡ record {
  refs = 12 ∷ 7 ∷ [];
  cross_repo = codes "other/x#3" ∷ [];
  unparsed = codes "nothing here" ∷ [];
}
unfolding parse_blocked_by decimal text_eq
body_refs = refl

render_example :
    parse_blocked_by (render (12 ∷ 7 ∷ 105 ∷ [])) (codes "acme/app")
    ≡ record { refs = 12 ∷ 7 ∷ 105 ∷ []; cross_repo = []; unparsed = [] }
render_example =
    parse_blocked_by-render (12 ∷ 7 ∷ 105 ∷ []) (codes "acme/app") (refl, (refl, (refl, tt)))

section_example :
    parse_blocked_by body (codes "acme/App")
    ≡ foldl
        (section_line (to_lower_case (codes "acme/App")))
        no_refs
        (section_lines false (split_lines body))
section_example = parse_blocked_by-section_lines body (codes "acme/App")

distinct_example : HasDistinctRefs (parse_blocked_by body (codes "acme/App"))
distinct_example = parse_blocked_by-HasDistinctRefs body (codes "acme/App")
