-- ===== src/Prelude/Text.antt =====
-- JavaScript strings as lists of UTF-16 code units, with the conversions between texts and numbers
-- that the components use.
use Prim.Native.Char.{code}
use Prim.Native.String.{String}
use Prim.Native.Nat.{ℕ, zero, suc, ◌+◌, ◌-◌, ◌*◌, ◌/◌, ◌%◌, ◌^◌, ◌≤◌}
use mathlib.Core.Path.{◌≡◌, refl, ◌∙◌}
use mathlib.Core.Logic.{◌↔◌, ◌≢◌, inl, inr}
use mathlib.Core.Bool.{Bool, true, false, ◌&&◌}
use mathlib.Core.Option.{Option, some}
use mathlib.Core.List.{List, [], ◌∷◌, ◌++◌}
use native.Mathlib.Omega.{arith}
use express_token_revoker.Prelude.Tests.{leb, ltb, ◌==◌, Bool-cases, if◌then◌else◌}
use express_token_revoker.Prelude.Lists.{All, All-append, snoc-ne-nil}

abbrev pub Text : Type 0
Text = List ℕ

-- The code units of an ASCII literal.
abbrev pub codes : String → Text
codes String.[] = []
codes (String.◌∷◌ c s) = code c ∷ codes s

unfoldable pub text_eq : Text → Text → Bool
text_eq [] [] = true
text_eq [] (d ∷ t) = false
text_eq (c ∷ s) [] = false
text_eq (c ∷ s) (d ∷ t) = (c == d) && text_eq s t

pub text_eq_iff : (s t : Text) → (text_eq s t ≡ true) ↔ (s ≡ t)
unfolding text_eq
text_eq_iff [] [] = ground arith
text_eq_iff [] (d ∷ t) = ground arith
text_eq_iff (c ∷ s) [] = ground arith
text_eq_iff (c ∷ s) (d ∷ t) = ground (arith, text_eq_iff s t)

pub text_eq_refl : (s : Text) → text_eq s s ≡ true
text_eq_refl s = (text_eq_iff s s).1 refl

push_char : ℕ → List Text → List Text
push_char c [] = (c ∷ []) ∷ []
push_char c (l ∷ ls) = (c ∷ l) ∷ ls

-- `s.split(separator)`, for a separator of one character
unfoldable pub split_on : ℕ → Text → List Text
unfolding push_char
split_on d [] = [] ∷ []
split_on d (c ∷ s) = let rest = split_on d s in if c == d then [] ∷ rest else push_char c rest

abbrev pub is_digit : ℕ → Bool
is_digit c = leb b'0' c && leb c b'9'

-- `/^\d*$/`.
unfoldable pub all_digits : Text → Bool
all_digits [] = true
all_digits (c ∷ s) = is_digit c && all_digits s

-- The number that decimal digits spell behind `n`; the empty text spells 0, as in `Number('')`.
unfoldable pub digits_value : ℕ → Text → ℕ
digits_value n [] = n
digits_value n (c ∷ s) = digits_value (n * 10 + (c - b'0')) s

-- `${n}` for a whole number: its decimal digits. One more digit is emitted for each unit of fuel,
-- and `n` units are enough.
decimal_fuel : ℕ → ℕ → Text
decimal_fuel zero n = (b'0' + n % 10) ∷ []
decimal_fuel (suc f) n =
    let front = decimal_fuel f (n / 10) in
    if ltb n 10 then (b'0' + n) ∷ [] else front ++ (b'0' + n % 10) ∷ []

unfoldable pub decimal : ℕ → Text
unfolding decimal_fuel
decimal n = decimal_fuel n n

-- `Number.MAX_SAFE_INTEGER`.
abbrev pub max_safe : ℕ
max_safe = 2 ^ 53 - 1

-- `Number(s)` where the program goes on only with a whole number that is not negative (`none` is
-- every other result, `NaN` and fractions included). Texts of plain digits up to `max_safe`, and
-- the empty text, are computed. What `Number` makes of any other text (signs, spaces, fractions,
-- exponents, hexadecimals, and roundings above `max_safe`) is the parameter `other`.
unfoldable pub number : (Text → Option ℕ) → Text → Option ℕ
unfolding all_digits digits_value
number other s =
    if all_digits s && leb (digits_value 0 s) max_safe then some (digits_value 0 s) else other s

digits_value-append :
    (n : ℕ) (s t : Text) → digits_value n (s ++ t) ≡ digits_value (digits_value n s) t
unfolding digits_value
digits_value-append n [] t = refl
digits_value-append n (c ∷ s) t = digits_value-append (n * 10 + (c - b'0')) s t

digits_value-snoc :
    (n d : ℕ) (s : Text) → digits_value n (s ++ (b'0' + d) ∷ []) ≡ digits_value n s * 10 + d
unfolding digits_value
digits_value-snoc n d s = digits_value-append n s ((b'0' + d) ∷ []) ∙ omega arith

abbrev pub IsDigit : ℕ → Type 0
IsDigit c = (b'0' ≤ c) × (c ≤ b'9')

decimal_fuel-digits : (f n : ℕ) → n ≤ f → All IsDigit (decimal_fuel f n)
unfolding decimal_fuel
decimal_fuel-digits zero n h = (omega arith, tt)
decimal_fuel-digits (suc f) n h = elim (Bool-cases (ltb n 10)) [
  | inl small ↦ rw small (ground arith, tt)
  | inr large ↦ rw large (
      All-append IsDigit (decimal_fuel f (n / 10)) _ (decimal_fuel-digits f (n / 10) (ground arith))
        (omega arith, tt))
]

decimal_fuel-value : (f n : ℕ) → n ≤ f → digits_value 0 (decimal_fuel f n) ≡ n
unfolding decimal_fuel
decimal_fuel-value zero n h = unfold digits_value in omega arith
decimal_fuel-value (suc f) n h = elim (Bool-cases (ltb n 10)) [
  | inl small ↦ rw small (unfold digits_value in omega arith)
  | inr large ↦ rw large (
      omega (
        arith,
        digits_value-snoc 0 (n % 10) (decimal_fuel f (n / 10)),
        decimal_fuel-value f (n / 10) (ground arith),
      ))
]

pub decimal-digits : (n : ℕ) → All IsDigit (decimal n)
unfolding decimal
decimal-digits n = decimal_fuel-digits n n (omega arith)

pub digits_value-decimal : (n : ℕ) → digits_value 0 (decimal n) ≡ n
unfolding decimal
digits_value-decimal n = decimal_fuel-value n n (omega arith)

pub all_digits_lem : (s : Text) → All IsDigit s → all_digits s ≡ true
unfolding all_digits
all_digits_lem [] h = refl
all_digits_lem (c ∷ s) h = ground (arith, all_digits_lem s)

-- `Number` reads back what `${n}` wrote.
pub number-decimal :
    (other : Text → Option ℕ) (n : ℕ) → n ≤ max_safe → number other (decimal n) ≡ some n
unfolding number
number-decimal other n h =
    ground (arith, all_digits_lem (decimal n) (decimal-digits n), digits_value-decimal n)

decimal_fuel-ne-nil : (f n : ℕ) → decimal_fuel f n ≢ []
unfolding decimal_fuel
decimal_fuel-ne-nil zero n = cc
decimal_fuel-ne-nil (suc f) n =
    ground (arith, snoc-ne-nil (decimal_fuel f (n / 10)) (b'0' + n % 10))

pub decimal-ne-nil : (n : ℕ) → decimal n ≢ []
unfolding decimal
decimal-ne-nil n = decimal_fuel-ne-nil n n

decimal_fuel-snoc :
    (f n : ℕ)
    → n ≤ f
    → (front : Text) × (d : ℕ) × (decimal_fuel f n ≡ front ++ d ∷ [])
      × All IsDigit front
      × (digits_value 0 front ≡ n / 10)
unfolding decimal_fuel
decimal_fuel-snoc zero n h = ([], b'0' + n % 10, refl, tt, (unfold digits_value in omega arith))
decimal_fuel-snoc (suc f) n h = elim (Bool-cases (ltb n 10)) [
  | inl small ↦ ([], b'0' + n, rw small, tt, (unfold digits_value in ground arith))
  | inr large ↦ (
    decimal_fuel f (n / 10),
    b'0' + n % 10,
    rw large,
    decimal_fuel-digits f (n / 10) (ground arith),
    decimal_fuel-value f (n / 10) (ground arith),
  )
]

-- Without its last digit a number is a tenth of itself, or nothing.
pub decimal-snoc :
    (n : ℕ)
    → (front : Text) × (d : ℕ) × (decimal n ≡ front ++ d ∷ [])
      × All IsDigit front
      × (digits_value 0 front ≡ n / 10)
unfolding decimal
decimal-snoc n = decimal_fuel-snoc n n (omega arith)

pub number-digits :
    (other : Text → Option ℕ) (s : Text)
    → All IsDigit s
    → digits_value 0 s ≤ max_safe
    → number other s ≡ some (digits_value 0 s)
unfolding number
number-digits other s h fits = ground (arith, all_digits_lem s h)

decimal_test : decimal 40960 ≡ codes "40960"
unfolding decimal
decimal_test = refl
