-- ===== src/Common/Decimal.antt =====
-- Decimal numerals: a number in a template literal, `\d+` in a regular expression, and `Number` of
-- a run of digits (exact below 2^53, where a JavaScript number is).
use Prim.Native.Nat.{ℕ, zero, suc, ◌+◌, ◌-◌, ◌*◌, ◌/◌, ◌%◌, ◌<◌}
use mathlib.Core.Path.{◌≡◌, refl}
use mathlib.Core.Logic.{◌≢◌, inl, inr}
use mathlib.Core.Bool.{Bool, true, ◌&&◌}
use mathlib.Core.List.{[], ◌∷◌, ◌++◌}
use native.Mathlib.Omega.{arith}
use ralph_autopilot.Common.Tests.{ltb, leb, if◌then◌else◌, Bool-cases}
use ralph_autopilot.Common.Texts.{Text}

-- Decimal notation of a number, as a template literal writes it. `fuel` bounds the digits.
decimal_from : ℕ → ℕ → Text
decimal_from zero n = []
decimal_from (suc fuel) n =
    let high = decimal_from fuel (n / 10) in
    if ltb n 10 then (b'0' + n) ∷ [] else high ++ (b'0' + n % 10) ∷ []

unfoldable pub decimal : ℕ → Text
unfolding decimal_from
decimal n = decimal_from (suc n) n

abbrev pub is_digit : ℕ → Bool
is_digit c = leb b'0' c && leb c b'9'

-- `/^\d+$/` beyond the first character.
unfoldable pub all_digits : Text → Bool
all_digits [] = true
all_digits (c ∷ s) = is_digit c && all_digits s

-- `Number(s)` of a run of digits, exact below 2^53.
unfoldable pub number_from : ℕ → Text → ℕ
number_from n [] = n
number_from n (c ∷ s) = number_from (n * 10 + (c - b'0')) s

number_from-append :
    (n c : ℕ) (s : Text) → number_from n (s ++ c ∷ []) ≡ number_from n s * 10 + (c - 48)
unfolding number_from
number_from-append n c [] = refl
number_from-append n c (d ∷ s) = number_from-append (n * 10 + (d - 48)) c s

all_digits-append :
    (s t : Text) → all_digits s ≡ true → all_digits t ≡ true → all_digits (s ++ t) ≡ true
unfolding all_digits
all_digits-append [] t h k = k
all_digits-append (c ∷ s) t h k = ground (arith, all_digits-append s t)

-- The digits written are digits, there is one, and they are read back.
decimal_from-digits : (fuel n : ℕ) → all_digits (decimal_from fuel n) ≡ true
unfolding decimal_from
decimal_from-digits zero n = unfold all_digits in refl
decimal_from-digits (suc fuel) n = elim (Bool-cases (ltb n 10)) [
  | inl e ↦ rw e (unfold all_digits in ground arith)
  | inr e ↦ rw e (
      all_digits-append (decimal_from fuel (n / 10)) ((48 + n % 10) ∷ [])
        (decimal_from-digits fuel (n / 10)) (unfold all_digits in ground arith))
]

number_from-decimal_from : (fuel n : ℕ) → n < fuel → number_from 0 (decimal_from fuel n) ≡ n
unfolding decimal_from
number_from-decimal_from zero n h = absurd (omega arith)
number_from-decimal_from (suc fuel) n h = elim (Bool-cases (ltb n 10)) [
  | inl e ↦ rw e (unfold number_from in omega arith)
  | inr e ↦
      rw (e, number_from-append, number_from-decimal_from fuel (n / 10) (ground arith))
        (ground arith)
]

decimal_from-ne-nil : (fuel n : ℕ) → decimal_from (suc fuel) n ≢ []
unfolding decimal_from
decimal_from-ne-nil fuel n = elim (Bool-cases (ltb n 10)) [
  | inl e ↦ rw e (λ h. cc)
  | inr e ↦ rw e (append-ne-nil (decimal_from fuel (n / 10)) (48 + n % 10))
]
  where
    append-ne-nil : (s : Text) (c : ℕ) → (s ++ c ∷ []) ≢ []
    append-ne-nil [] c h = cc
    append-ne-nil (d ∷ s) c h = cc

pub all_digits-decimal : (n : ℕ) → all_digits (decimal n) ≡ true
unfolding decimal
all_digits-decimal n = decimal_from-digits (suc n) n

pub decimal-ne-nil : (n : ℕ) → decimal n ≢ []
unfolding decimal
decimal-ne-nil n = decimal_from-ne-nil n n

pub number_from-decimal : (n : ℕ) → number_from 0 (decimal n) ≡ n
unfolding decimal
number_from-decimal n = number_from-decimal_from (suc n) n (omega arith)
