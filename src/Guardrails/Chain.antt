-- ===== src/Guardrails/Chain.antt =====
-- executor/git-guardrails.ts: a chain of commands.
use ralph_autopilot.Common.{
  ℕ, ◌≡◌, refl, ap, ◌∙◌, Bool, true, false, ◌==◌, Option, none, some, Option-cases, Bool-cases, inl,
  inr, List, [], ◌∷◌, ◌++◌, filter, map, not, Text, arith,
}
use ralph_autopilot.Common.Lines.{trim}
use ralph_autopilot.Guardrails.{
  GitReason, is_separator, ampersand, onto_first, flush, split_commands, is_filled, segments,
  tokenize, inspect_tokens, first_refusal, inspect_bash_command,
}

flush-append :
    (w : Bool) (p : Text) (ps qs : List Text) → flush w ((p ∷ ps) ++ qs) ≡ flush w (p ∷ ps) ++ qs
flush-append true p ps qs = refl
flush-append false p ps qs = refl

-- There is a first part.
abbrev IsParted : List Text → Type 0
IsParted ps = (p : Text) × (qs : List Text) × (ps ≡ p ∷ qs)

flush-IsParted : (w : Bool) (ps : List Text) → IsParted ps → IsParted (flush w ps)
flush-IsParted true ps (p, qs, e) = (ampersand ∷ p, qs, rw e refl)
flush-IsParted false ps h = h

onto_first-IsParted : (c : ℕ) (ps : List Text) → IsParted (onto_first c ps)
onto_first-IsParted c [] = (c ∷ [], [], refl)
onto_first-IsParted c (p ∷ ps) = (c ∷ p, ps, refl)

split_commands-IsParted : (w : Bool) (a : Text) → IsParted (split_commands w a)
unfolding split_commands
split_commands-IsParted w [] = flush-IsParted w ([] ∷ []) ([], [], refl)
split_commands-IsParted w (c ∷ a) = elim (Bool-cases (is_separator c)) [
  | inl k ↦
      rw (k, split_commands)
        (flush-IsParted w ([] ∷ split_commands false a) ([], split_commands false a, refl))
  | inr k ↦ elim (Bool-cases (c == ampersand)) [
    | inr l ↦
        rw (k, l, split_commands)
          (flush-IsParted w (onto_first c (split_commands false a))
            (onto_first-IsParted c (split_commands false a)))
    | inl l ↦ elim (Bool-cases w) [
      | inl q ↦ rw (k, l, q, split_commands) ([], split_commands false a, refl)
      | inr q ↦ rw (k, l, q, split_commands) (split_commands-IsParted true a)
    ]
  ]
]

flush-onto_first-append :
    (w : Bool) (c : ℕ) (ps qs : List Text)
    → IsParted ps
    → flush w (onto_first c (ps ++ qs)) ≡ flush w (onto_first c ps) ++ qs
flush-onto_first-append w c [] qs (p, rest, e) = cc
flush-onto_first-append true c (p ∷ ps) qs h = refl
flush-onto_first-append false c (p ∷ ps) qs h = refl

-- Whether a scan ends behind one `&` that waits for another.
waits : Bool → Text → Bool
waits w [] = w
waits w (c ∷ a) = elim (is_separator c) [
  | true ↦ waits false a
  | false ↦ elim (c == ampersand) [
    | true ↦ elim w [ true ↦ waits false a | false ↦ waits true a ]
    | false ↦ waits false a
  ]
]

-- A tail that begins parts of its own behind `a` begins them behind what `a` is split into.
split_commands-append :
    (w : Bool) (a t : Text) (qs : List Text)
    → split_commands (waits w a) t ≡ flush (waits w a) ([] ∷ []) ++ qs
    → split_commands w (a ++ t) ≡ split_commands w a ++ qs
unfolding split_commands waits
split_commands-append w [] t qs h = h
split_commands-append w (c ∷ a) t qs h = elim (Bool-cases (is_separator c)) [
  | inl k ↦
      rw (k, split_commands)
        (ap (λ ps. flush w ([] ∷ ps)) (split_commands-append false a t qs (rw (k, waits) at h))
          ∙ flush-append w [] (split_commands false a) qs)
  | inr k ↦ elim (Bool-cases (c == ampersand)) [
    | inr l ↦
        rw (k, l, split_commands)
          (ap (λ ps. flush w (onto_first c ps))
              (split_commands-append false a t qs (rw (k, l, waits) at h))
            ∙ flush-onto_first-append w c (split_commands false a) qs
                (split_commands-IsParted false a))
    | inl l ↦ elim (Bool-cases w) [
      | inl q ↦
          rw (k, l, q, split_commands)
            (ap (λ ps. [] ∷ ps) (split_commands-append false a t qs (rw (k, l, q, waits) at h)))
      | inr q ↦
          rw (k, l, q, split_commands)
            (split_commands-append true a t qs (rw (k, l, q, waits) at h))
    ]
  ]
]

segments_of_parts :
    (ps qs : List Text)
    → filter is_filled (map trim (ps ++ qs))
      ≡ filter is_filled (map trim ps) ++ filter is_filled (map trim qs)
segments_of_parts [] qs = refl
segments_of_parts (p ∷ ps) qs = ground (arith, segments_of_parts ps qs)

-- What a shell puts between two commands of a chain.
pub data Separator : Type 0 where
  semicolon line_end pipe and_then or_else : Separator

abbrev pub text_of : Separator → Text
text_of semicolon = b';' ∷ []
text_of line_end = 10 ∷ []
text_of pipe = b'|' ∷ []
text_of and_then = ampersand ∷ ampersand ∷ []
text_of or_else = b'|' ∷ b'|' ∷ []

-- Behind an `&` where the flag says so.
unfoldable pub ends_in_ampersand : Bool → Text → Bool
ends_in_ampersand w [] = w
ends_in_ampersand w (c ∷ a) = ends_in_ampersand (c == ampersand) a

-- Two commands are told apart: `&&` behind an `&` would be read as `&&` and `&`.
unfoldable pub keeps_apart : Text → Separator → Bool
keeps_apart a and_then = not (ends_in_ampersand false a)
keeps_apart a _ = true

waits-ends_in_ampersand :
    (w v : Bool) (a : Text)
    → (w ≡ true → v ≡ true)
    → ends_in_ampersand v a ≡ false
    → waits w a ≡ false
unfolding waits ends_in_ampersand
waits-ends_in_ampersand true v [] h e = let k = h refl in cc
waits-ends_in_ampersand false v [] h e = refl
waits-ends_in_ampersand w v (c ∷ a) h e = elim (Bool-cases (is_separator c)) [
  | inl k ↦
      rw (k, waits)
        (waits-ends_in_ampersand false (c == ampersand) a (λ q. absurd (ground arith)) e)
  | inr k ↦ elim (Bool-cases (c == ampersand)) [
    | inr l ↦
        rw (k, l, waits)
          (waits-ends_in_ampersand false (c == ampersand) a (λ q. absurd (ground arith)) e)
    | inl l ↦ elim (Bool-cases w) [
      | inl q ↦
          rw (k, l, q, waits)
            (waits-ends_in_ampersand false (c == ampersand) a (λ r. absurd (ground arith)) e)
      | inr q ↦ rw (k, l, q, waits) (waits-ends_in_ampersand true (c == ampersand) a (λ r. l) e)
    ]
  ]
]

segments_at :
    (a t : Text) (qs : List Text)
    → split_commands (waits false a) t ≡ flush (waits false a) ([] ∷ []) ++ qs
    → segments (a ++ t) ≡ segments a ++ filter is_filled (map trim qs)
unfolding segments
segments_at a t qs h =
    ap (λ ps. filter is_filled (map trim ps)) (split_commands-append false a t qs h)
    ∙ segments_of_parts (split_commands false a) qs

-- A separator of one character ends a part, also one whose last `&` waits.
one_character :
    (w : Bool) (c : ℕ) (b : Text)
    → is_separator c ≡ true
    → split_commands w (c ∷ b) ≡ flush w ([] ∷ []) ++ split_commands false b
unfolding split_commands
one_character true c b e = rw (e, split_commands) refl
one_character false c b e = rw (e, split_commands) refl

pub segments-append :
    (a : Text) (sep : Separator) (b : Text)
    → keeps_apart a sep ≡ true
    → segments (a ++ (text_of sep ++ b)) ≡ segments a ++ segments b
unfolding segments split_commands keeps_apart trim
segments-append a semicolon b k =
    segments_at a (b';' ∷ b) (split_commands false b) (one_character (waits false a) b';' b refl)
segments-append a line_end b k =
    segments_at a (10 ∷ b) (split_commands false b) (one_character (waits false a) 10 b refl)
segments-append a pipe b k =
    segments_at a (b'|' ∷ b) (split_commands false b) (one_character (waits false a) b'|' b refl)
segments-append a or_else b k =
    segments_at a (b'|' ∷ b'|' ∷ b) ([] ∷ split_commands false b)
      (one_character (waits false a) b'|' (b'|' ∷ b) refl)
segments-append a and_then b k =
    let none_waits : waits false a ≡ false =
      waits-ends_in_ampersand false false a (λ q. q) (ground arith) in
    segments_at a (ampersand ∷ ampersand ∷ b) (split_commands false b) (rw none_waits refl)

-- The first reason of two.
abbrev pub or_refusal : Option GitReason → Option GitReason → Option GitReason
or_refusal none later = later
or_refusal (some reason) later = some reason

first_refusal-append :
    (xs ys : List Text)
    → first_refusal (xs ++ ys) ≡ or_refusal (first_refusal xs) (first_refusal ys)
unfolding first_refusal
first_refusal-append [] ys = refl
first_refusal-append (x ∷ xs) ys = elim (Option-cases (inspect_tokens (tokenize x))) [
  | inl n ↦ rw (n, first_refusal) (first_refusal-append xs ys)
  | inr (reason, s) ↦ rw (s, first_refusal) refl
]

-- A chain of commands as it is typed.
unfoldable pub chain : Text → List (Separator × Text) → Text
chain a [] = a
chain a ((sep, b) ∷ rest) = a ++ (text_of sep ++ chain b rest)

-- The first refusal among the commands themselves.
unfoldable pub refusal_of_chain : Text → List (Separator × Text) → Option GitReason
refusal_of_chain a [] = inspect_bash_command a
refusal_of_chain a ((sep, b) ∷ rest) = or_refusal (inspect_bash_command a) (refusal_of_chain b rest)

-- No command that `&&` follows ends in `&`.
unfoldable pub IsApart : Text → List (Separator × Text) → Type 0
IsApart a [] = Unit
IsApart a ((sep, b) ∷ rest) = (keeps_apart a sep ≡ true) × IsApart b rest

inspect_bash_command-append :
    (a : Text) (sep : Separator) (b : Text)
    → keeps_apart a sep ≡ true
    → inspect_bash_command (a ++ (text_of sep ++ b))
      ≡ or_refusal (inspect_bash_command a) (inspect_bash_command b)
unfolding inspect_bash_command
inspect_bash_command-append a sep b k =
    ap first_refusal (segments-append a sep b k) ∙ first_refusal-append (segments a) (segments b)

-- A chain of any number of commands, joined by `;`, a line end, `|`, `&&` or `||`, is refused exactly
-- where one of its commands is, and for the reason of the first that is; no command that `&&` follows
-- may end in `&`. A command is a text between separators: a lone `&` joins nothing here.
pub inspect_bash_command-refusal_of_chain :
    (a : Text) (rest : List (Separator × Text))
    → IsApart a rest
    → inspect_bash_command (chain a rest) ≡ refusal_of_chain a rest
unfolding chain refusal_of_chain IsApart
inspect_bash_command-refusal_of_chain a [] k = refl
inspect_bash_command-refusal_of_chain a ((sep, b) ∷ rest) k =
    inspect_bash_command-append a sep (chain b rest) k.0
    ∙ ap (or_refusal (inspect_bash_command a)) (inspect_bash_command-refusal_of_chain b rest k.1)
