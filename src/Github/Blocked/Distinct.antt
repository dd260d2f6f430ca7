-- ===== src/Github/Blocked/Distinct.antt =====
-- No reference is reported twice.
use ralph_autopilot.Common.{
  ℕ, Bool, false, Option, none, some, List, [], ◌∷◌, any, Text, text_eq, text_eq_sym, ◌==◌, arith,
  inl, inr, Bool-cases,
}
use ralph_autopilot.Common.Lines.{to_lower_case, trim, split_lines}
use ralph_autopilot.Common.Distinct.{IsDistinct, IsDistinct-snoc, foldl_inv}
use ralph_autopilot.Github.Blocked.{
  BlockedByRefs, Ref, bare, named, ParseState, add_ref, add_cross, add_match, push_content,
  add_unparsed, matched_line, after_heading, no_refs, parse_line, parse_blocked_by, slug, match_all,
  heading, list_item,
}

-- Equality of numbers, and of cross-repo references whatever their case.
abbrev pub same_ref : ℕ → ℕ → Bool
same_ref m n = m == n

abbrev same_cross : Text → Text → Bool
same_cross r s = text_eq (to_lower_case r) (to_lower_case s)

pub record HasDistinctRefs (b : BlockedByRefs) : Type 0 where
  pub refs : IsDistinct same_ref b.refs
  pub cross_repo : IsDistinct same_cross b.cross_repo

add_ref-distinct : (b : BlockedByRefs) (n : ℕ) → HasDistinctRefs b → HasDistinctRefs (add_ref b n)
unfolding add_ref
add_ref-distinct b n h = elim (Bool-cases (any (λ m. m == n) b.refs)) [
  | inl e ↦ rw e h
  | inr e ↦ rw e (record {
    refs = IsDistinct-snoc same_ref (λ x y. ground arith) b.refs n h.refs e;
    cross_repo = h.cross_repo;
  })
]

add_cross-distinct :
    (b : BlockedByRefs) (r : Text) → HasDistinctRefs b → HasDistinctRefs (add_cross b r)
unfolding add_cross
add_cross-distinct b r h = elim (Bool-cases (any (λ s. same_cross s r) b.cross_repo)) [
  | inl e ↦ rw e h
  | inr e ↦ rw e (record {
    refs = h.refs;
    cross_repo =
        IsDistinct-snoc same_cross (λ x y. text_eq_sym (to_lower_case x) (to_lower_case y))
          b.cross_repo r h.cross_repo e;
  })
]

add_match-distinct :
    (own : Text) (b : BlockedByRefs) (r : Ref)
    → HasDistinctRefs b
    → HasDistinctRefs (add_match own b r)
unfolding add_match
add_match-distinct own b (bare n) h = add_ref-distinct b n h
add_match-distinct own b (named owner name n) h =
    elim (Bool-cases (text_eq (to_lower_case (slug owner name)) own)) [
      | inl e ↦ rw e (add_ref-distinct b n h)
      | inr e ↦ rw e (add_cross-distinct b _ h)
    ]

add_unparsed-distinct :
    (b : BlockedByRefs) (o : Option Text) → HasDistinctRefs b → HasDistinctRefs (add_unparsed b o)
unfolding add_unparsed
add_unparsed-distinct b none h = h
add_unparsed-distinct b (some content) h = push (trim content)
  where
    push : (t : Text) → HasDistinctRefs (push_content b t)
    push [] = h
    push (c ∷ t) = record { refs = h.refs; cross_repo = h.cross_repo }

matched_line-distinct :
    (own : Text) (b : BlockedByRefs) (line : Text) (rs : List Ref)
    → HasDistinctRefs b
    → HasDistinctRefs (matched_line own b line rs)
unfolding matched_line
matched_line-distinct own b line [] h = add_unparsed-distinct b (list_item line) h
matched_line-distinct own b line (r ∷ rs) h =
    foldl_inv HasDistinctRefs (add_match own) (add_match-distinct own) (r ∷ rs) b h

after_heading-distinct :
    (own : Text) (s : ParseState) (line : Text) (o : Option Text)
    → HasDistinctRefs s.parsed
    → HasDistinctRefs (after_heading own s line o).parsed
unfolding after_heading
after_heading-distinct own s line (some title) h = h
after_heading-distinct own s line none h = elim (Bool-cases s.in_section) [
  | inl e ↦ rw e (matched_line-distinct own s.parsed line (match_all line) h)
  | inr e ↦ rw e h
]

-- Whatever the body and the repository, no issue number stands twice among the local references,
-- and no cross-repository reference stands twice, in whatever case it is written.
pub parse_blocked_by-HasDistinctRefs :
    (body repo : Text) → HasDistinctRefs (parse_blocked_by body repo)
unfolding parse_blocked_by
parse_blocked_by-HasDistinctRefs body repo =
    foldl_inv (λ (s : ParseState). HasDistinctRefs s.parsed) (parse_line (to_lower_case repo))
      (λ s line h. after_heading-distinct (to_lower_case repo) s line (heading line) h)
      (split_lines body) (record { in_section = false; parsed = no_refs })
      (record { refs = tt; cross_repo = tt })
