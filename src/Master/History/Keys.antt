-- ===== src/Master/History/Keys.antt =====
-- The records of a folded history are told apart by attempt number and phase, so the code's
-- references into the list are copies that this key finds again.
use ralph_autopilot.Common.{
  ℕ, String, ◌≡◌, refl, sym, subst, Bool, true, ◌&&◌, ◌==◌, ◌===◌, ===_iff, none, some, List, [],
  ◌∷◌, ◌++◌, map, find, any, is_some, arith, inl, inr, Bool-cases,
}
use ralph_autopilot.Common.Distinct.{IsDistinct}
use ralph_autopilot.Master.History.{
  MasterInterventionRecord, MasterHistory, is_attempt, replace_first,
}

pub record Key : Type 0 where
  pub attempt : ℕ
  pub phase : String

abbrev pub key_of : MasterInterventionRecord → Key
key_of i = record { attempt = i.attempt; phase = i.phase }

abbrev pub keys : List MasterInterventionRecord → List Key
keys is = map key_of is

abbrev pub same_key : Key → Key → Bool
same_key a b = (a.attempt == b.attempt) && (a.phase === b.phase)

===_sym : (s t : String) → (s === t) ≡ (t === s)
===_sym s t = ground (arith, ===_iff s t, ===_iff t s)

pub same_key-sym : (a b : Key) → same_key a b ≡ same_key b a
same_key-sym a b = ground (arith, ===_sym a.phase b.phase)

pub is_attempt-key :
    (a : ℕ) (p : String) (i : MasterInterventionRecord)
    → is_attempt a p i ≡ true
    → key_of i ≡ record { attempt = a; phase = p }
is_attempt-key a p i h = ground (arith, ===_iff i.phase p)

pub keys-map :
    (f : MasterInterventionRecord → MasterInterventionRecord)
    → ((i : MasterInterventionRecord) → key_of (f i) ≡ key_of i)
    → (is : List MasterInterventionRecord) → keys (map f is) ≡ keys is
keys-map f k [] = refl
keys-map f k (i ∷ is) = ground (arith, k i, keys-map f k is)

pub keys-append : (is js : List MasterInterventionRecord) → keys (is ++ js) ≡ keys is ++ keys js
keys-append [] js = refl
keys-append (i ∷ is) js = ground (arith, keys-append is js)

pub keys-replace_first :
    (a : ℕ) (p : String) (r : MasterInterventionRecord) (is : List MasterInterventionRecord)
    → key_of r ≡ record { attempt = a; phase = p }
    → keys (replace_first (is_attempt a p) r is) ≡ keys is
unfolding replace_first
keys-replace_first a p r [] k = refl
keys-replace_first a p r (i ∷ is) k = elim (Bool-cases (is_attempt a p i)) [
  | inl e ↦ ground (arith, is_attempt-key a p i e)
  | inr e ↦ ground (arith, keys-replace_first a p r is k)
]

pub find-is_attempt :
    (a : ℕ) (p : String) (is : List MasterInterventionRecord) (i : MasterInterventionRecord)
    → find (is_attempt a p) is ≡ some i
    → is_attempt a p i ≡ true
find-is_attempt a p [] i h = absurd (ground arith)
find-is_attempt a p (j ∷ is) i h = elim (Bool-cases (is_attempt a p j)) [
  | inl e ↦ ground arith
  | inr e ↦ find-is_attempt a p is i (ground arith)
]

pub any-keys :
    (a : ℕ) (p : String) (is : List MasterInterventionRecord)
    → any (λ k. same_key k (record { attempt = a; phase = p })) (keys is)
      ≡ is_some (find (is_attempt a p) is)
any-keys a p [] = refl
any-keys a p (i ∷ is) = ground (arith, any-keys a p is)

pub find-append :
    (a : ℕ) (p : String) (is : List MasterInterventionRecord) (r : MasterInterventionRecord)
    → find (is_attempt a p) is ≡ none
    → is_attempt a p r ≡ true
    → find (is_attempt a p) (is ++ r ∷ []) ≡ some r
find-append a p [] r h k = ground arith
find-append a p (i ∷ is) r h k = elim (Bool-cases (is_attempt a p i)) [
  | inl e ↦ absurd (ground arith)
  | inr e ↦ ground (arith, find-append a p is r (ground arith) k)
]

pub find-replace_first :
    (a : ℕ) (p : String) (is : List MasterInterventionRecord) (r i : MasterInterventionRecord)
    → find (is_attempt a p) is ≡ some i
    → is_attempt a p r ≡ true
    → find (is_attempt a p) (replace_first (is_attempt a p) r is) ≡ some r
unfolding replace_first
find-replace_first a p [] r i h k = absurd (ground arith)
find-replace_first a p (j ∷ is) r i h k = elim (Bool-cases (is_attempt a p j)) [
  | inl e ↦ ground arith
  | inr e ↦ ground (arith, find-replace_first a p is r i (ground arith) k)
]

-- An update of the records with one key leaves what another key finds.
pub find-map_other :
    (f : MasterInterventionRecord → MasterInterventionRecord) (a : ℕ) (p : String)
    → ((i : MasterInterventionRecord) → is_attempt a p (f i) ≡ is_attempt a p i)
    → ((i : MasterInterventionRecord) → is_attempt a p i ≡ true → f i ≡ i)
    → (is : List MasterInterventionRecord)
    → find (is_attempt a p) (map f is) ≡ find (is_attempt a p) is
find-map_other f a p k o [] = refl
find-map_other f a p k o (i ∷ is) = elim (Bool-cases (is_attempt a p i)) [
  | inl e ↦ ground (arith, k i, o i e)
  | inr e ↦ ground (arith, k i, find-map_other f a p k o is)
]

-- No two records have one key, and the open attempt is the record of the list with its key.
pub record IsKeyed (h : MasterHistory) : Type 0 where
  pub distinct : IsDistinct same_key (keys h.interventions)
  pub current :
      (i : MasterInterventionRecord)
      → h.in_progress ≡ some i
      → find (is_attempt i.attempt i.phase) h.interventions ≡ some i

-- Finding by a key, and finding by the key of what was found.
pub found_again :
    (a : ℕ) (p : String) (is : List MasterInterventionRecord) (i : MasterInterventionRecord)
    → find (is_attempt a p) is ≡ some i
    → find (is_attempt i.attempt i.phase) is ≡ some i
found_again a p is i h =
    let k = is_attempt-key a p i (find-is_attempt a p is i h) in
    subst (λ (key : Key). find (is_attempt key.attempt key.phase) is ≡ some i) (sym k) h
