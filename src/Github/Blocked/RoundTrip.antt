-- ===== src/Github/Blocked/RoundTrip.antt =====
-- A section written the way the planning skills write it is read back.
use ralph_autopilot.Common.{
  ℕ, zero, suc, ◌-◌, ◌≤◌, ◌≡◌, ◌≢◌, refl, true, false, ◌||◌, none, some, List, [], ◌∷◌, ◌++◌, map,
  any, foldl, length, Text, text_eq, codes, arith, ap, ◌∙◌, ◌==◌, append-nil, append_assoc,
}
use ralph_autopilot.Common.Decimal.{
  decimal, is_digit, all_digits, number_from, all_digits-decimal, decimal-ne-nil,
  number_from-decimal,
}
use ralph_autopilot.Common.Distinct.{IsDistinct, new_of_distinct}
use ralph_autopilot.Common.Lines.{to_lower_case, take_while, drop_while, split_lines}
use ralph_autopilot.Github.Blocked.Distinct.{same_ref}
use ralph_autopilot.Github.Blocked.{
  BlockedByRefs, Ref, bare, ParseState, no_refs, add_ref, add_match, heading, issue_ref,
  nonempty_run, run_of, bare_of, scan, match_all, matched_line, section_line, parse_line,
  parse_blocked_by,
}

-- `- #n`
abbrev pub item : ℕ → Text
item n = 45 ∷ 32 ∷ 35 ∷ decimal n

abbrev items : List ℕ → Text
items [] = []
items (n ∷ ns) = 10 ∷ item n ++ items ns

-- `## Blocked by` and one item to a line.
abbrev pub render : List ℕ → Text
render ns = codes "## Blocked by" ++ items ns

digits_plain : (s : Text) → all_digits s ≡ true → any (λ c. c == 10 || c == 13) s ≡ false
unfolding all_digits
digits_plain [] h = refl
digits_plain (c ∷ s) h = ground (arith, digits_plain s)

split_lines-items :
    (ns : List ℕ) (s : Text)
    → any (λ c. c == 10 || c == 13) s ≡ false
    → split_lines (s ++ items ns) ≡ s ∷ map item ns
unfolding split_lines
split_lines-items [] [] h = refl
split_lines-items (n ∷ ns) [] h =
    ap (◌∷◌ []) (split_lines-items ns (item n) (digits_plain (decimal n) (all_digits-decimal n)))
split_lines-items ns (c ∷ s) h = ground (arith, split_lines-items ns s)

take_while-digits : (s : Text) → all_digits s ≡ true → take_while is_digit s ≡ s
unfolding all_digits take_while
take_while-digits [] h = refl
take_while-digits (c ∷ s) h = ground (arith, take_while-digits s)

drop_while-digits : (s : Text) → all_digits s ≡ true → drop_while is_digit s ≡ []
unfolding all_digits drop_while
drop_while-digits [] h = refl
drop_while-digits (c ∷ s) h = ground (arith, drop_while-digits s)

scan_skipped : (s : Text) (skip : ℕ) → length s ≤ skip → scan skip s ≡ []
unfolding scan
scan_skipped [] skip h = refl
scan_skipped (c ∷ s) zero h = absurd (omega arith)
scan_skipped (c ∷ s) (suc skip) h = scan_skipped s skip (omega arith)

dash_no_ref : (t : Text) → issue_ref (45 ∷ 32 ∷ t) ≡ none
unfolding issue_ref
dash_no_ref t = refl

space_no_ref : (t : Text) → issue_ref (32 ∷ t) ≡ none
unfolding issue_ref
space_no_ref t = refl

run_of-digits :
    (c : ℕ) (s : Text) → all_digits (c ∷ s) ≡ true → run_of is_digit (c ∷ s) ≡ some (c ∷ s, [])
unfolding run_of
run_of-digits c s h =
    ap (λ (t : Text). nonempty_run t (drop_while is_digit (c ∷ s))) (take_while-digits (c ∷ s) h)
    ∙ ap (λ (t : Text). nonempty_run (c ∷ s) t) (drop_while-digits (c ∷ s) h)

hash_ref :
    (c : ℕ) (s : Text)
    → all_digits (c ∷ s) ≡ true
    → issue_ref (35 ∷ c ∷ s) ≡ some (bare (number_from 0 (c ∷ s)), [])
unfolding issue_ref
hash_ref c s h = ap bare_of (run_of-digits c s h)

scan-none : (c : ℕ) (s : Text) → issue_ref (c ∷ s) ≡ none → scan 0 (c ∷ s) ≡ scan 0 s
unfolding scan
scan-none c s h = rw h

scan_last :
    (c : ℕ) (s : Text) (r : Ref) → issue_ref (c ∷ s) ≡ some (r, []) → scan 0 (c ∷ s) ≡ r ∷ []
scan_last c s r h =
    unfold scan in
    rw h (ap (◌∷◌ r) (scan_skipped s (length (c ∷ s) - length {A = ℕ} [] - 1) (omega arith)))

match_all-digits :
    (s : Text)
    → s ≢ []
    → all_digits s ≡ true
    → match_all (45 ∷ 32 ∷ 35 ∷ s) ≡ bare (number_from 0 s) ∷ []
unfolding match_all
match_all-digits [] p h = absurd (p refl)
match_all-digits (c ∷ s) p h =
    scan-none 45 (32 ∷ 35 ∷ c ∷ s) (dash_no_ref (35 ∷ c ∷ s))
    ∙ scan-none 32 (35 ∷ c ∷ s) (space_no_ref (35 ∷ c ∷ s))
    ∙ scan_last 35 (c ∷ s) (bare (number_from 0 (c ∷ s))) (hash_ref c s h)

item-refs : (n : ℕ) → match_all (item n) ≡ bare n ∷ []
item-refs n =
    match_all-digits (decimal n) (decimal-ne-nil n) (all_digits-decimal n)
    ∙ ap (λ (m : ℕ). bare m ∷ []) (number_from-decimal n)

section_line-item :
    (own : Text) (b : BlockedByRefs) (n : ℕ) → section_line own b (item n) ≡ add_ref b n
unfolding section_line add_match
section_line-item own b n = ap (λ (rs : List Ref). matched_line own b (item n) rs) (item-refs n)

parse_line-item :
    (own : Text) (b : BlockedByRefs) (n : ℕ)
    → parse_line own (record { in_section = true; parsed = b }) (item n)
      ≡ record { in_section = true; parsed = add_ref b n }
parse_line-item own b n = unfold parse_line heading in rw (section_line-item own b n) refl

-- A number that is new to the list is put at its end.
add_ref_new :
    (ns : List ℕ) (n : ℕ)
    → any (λ m. m == n) ns ≡ false
    → add_ref (record { refs = ns; cross_repo = []; unparsed = [] }) n
      ≡ record { refs = ns ++ n ∷ []; cross_repo = []; unparsed = [] }
unfolding add_ref
add_ref_new ns n h = rw h

fold-items :
    (own : Text) (before ns : List ℕ)
    → IsDistinct same_ref (before ++ ns)
    → (foldl
        (parse_line own)
        (record {
          in_section = true;
          parsed = record { refs = before; cross_repo = []; unparsed = [] };
        })
        (map item ns)).parsed
      ≡ record { refs = before ++ ns; cross_repo = []; unparsed = [] }
fold-items own before [] d = rw append-nil
fold-items own before (n ∷ ns) d =
    ap (λ (s : ParseState). (foldl (parse_line own) s (map item ns)).parsed) step
    ∙ fold-items own (before ++ n ∷ []) ns (rw append_assoc d)
    ∙ rw append_assoc
  where
    step :
        parse_line own
          (record {
            in_section = true;
            parsed = record { refs = before; cross_repo = []; unparsed = [] };
          })
          (item n)
        ≡ record {
          in_section = true;
          parsed = record { refs = before ++ n ∷ []; cross_repo = []; unparsed = [] };
        }
    step =
        parse_line-item own (record { refs = before; cross_repo = []; unparsed = [] }) n
        ∙ ap (λ (b : BlockedByRefs). record { in_section = true; parsed = b })
            (add_ref_new before n (new_of_distinct same_ref (λ a b. ground arith) before n ns d))

-- For any list of distinct issue numbers and any repository, a body that lists them as `- #n`
-- items under `## Blocked by` parses to exactly that list, in order, with no cross-repository
-- reference and nothing left unparsed.
pub parse_blocked_by-render :
    (ns : List ℕ) (repo : Text)
    → IsDistinct same_ref ns
    → parse_blocked_by (render ns) repo ≡ record { refs = ns; cross_repo = []; unparsed = [] }
unfolding parse_blocked_by text_eq
parse_blocked_by-render ns repo d =
    ap
      (λ (ls : List Text).
        (foldl (parse_line (to_lower_case repo)) (record { in_section = false; parsed = no_refs })
          ls).parsed)
      (split_lines-items ns (codes "## Blocked by") refl)
    ∙ fold-items (to_lower_case repo) [] ns d
