-- ===== src/Github/Blocked/Sections.antt =====
-- Only the lines of a `Blocked by` section count.
use ralph_autopilot.Common.{
  ◌≡◌, refl, Bool, false, Option, none, some, List, [], ◌∷◌, foldl, Text, text_eq, inl, inr,
  Bool-cases, if◌then◌else◌, ◌∙◌,
}
use ralph_autopilot.Common.Lines.{to_lower_case, trim, split_lines}
use ralph_autopilot.Github.Blocked.{
  ParseState, no_refs, blocked_by, heading, section_line, after_heading, parse_line,
  parse_blocked_by,
}

-- Whether the heading's title is `blocked by`, in any case and with any space around it.
abbrev is_blocked_title : Text → Bool
is_blocked_title title = text_eq (to_lower_case (trim title)) blocked_by

-- The lines that follow such a heading up to the next heading of any kind.
pub section_lines : Bool → List Text → List Text
section_lines inside [] = []
section_lines inside (line ∷ lines) = elim (heading line) [
  | some title ↦ section_lines (is_blocked_title title) lines
  | none ↦ if inside then line ∷ section_lines inside lines else section_lines inside lines
]

fold-section_lines :
    (own : Text) (lines : List Text) (s : ParseState)
    → (foldl (parse_line own) s lines).parsed
      ≡ foldl (section_line own) s.parsed (section_lines s.in_section lines)
unfolding section_lines
fold-section_lines own [] s = refl
fold-section_lines own (line ∷ lines) s =
    fold-section_lines own lines (parse_line own s line) ∙ go (heading line) refl
  where
    go :
        (o : Option Text)
        → heading line ≡ o
        → foldl
            (section_line own)
            (parse_line own s line).parsed
            (section_lines (parse_line own s line).in_section lines)
          ≡ foldl (section_line own) s.parsed (section_lines s.in_section (line ∷ lines))
    go (some title) e = unfold parse_line in rw (e, parse_line, after_heading, section_lines) refl
    go none e = elim (Bool-cases s.in_section) [
      | inl q ↦
          unfold parse_line after_heading in
          rw (e, q, parse_line, after_heading, section_lines) refl
      | inr q ↦
          unfold parse_line after_heading in
          rw (e, q, parse_line, after_heading, section_lines) refl
    ]

-- The parse of a body is the parse of its `Blocked by` sections: the lines outside them, and the
-- headings, add nothing.
pub parse_blocked_by-section_lines :
    (body repo : Text)
    → parse_blocked_by body repo
      ≡ foldl (section_line (to_lower_case repo)) no_refs (section_lines false (split_lines body))
unfolding parse_blocked_by
parse_blocked_by-section_lines body repo =
    fold-section_lines (to_lower_case repo) (split_lines body)
      (record { in_section = false; parsed = no_refs })
