-- ===== src/Prelude/Decimal.antt =====
-- Python's `str` of a natural number, and `int` of a text of decimal digits.
use Prim.Native.Nat.{ℕ, zero, suc, ◌+◌, ◌-◌, ◌*◌, ◌/◌, ◌%◌, ◌≤◌, ◌<◌}
use mathlib.Core.Path.{◌≡◌, refl, ap}
use mathlib.Core.Logic.{inl, inr}
use mathlib.Core.Bool.{Bool, true, ◌&&◌}
use mathlib.Core.Option.{Option, none, some}
use mathlib.Core.List.{[], ◌∷◌}
use native.Mathlib.Omega.{arith}
use poodillion.Prelude.Tests.{ltb, leb, if◌then◌else◌, Bool-cases}
use poodillion.Prelude.Lists.{length, Text}

-- The digits of `n` before `ds`; `fuel` bounds their number.
unfoldable pub digits : ℕ → ℕ → Text → Text
digits zero n ds = ds
digits (suc fuel) n ds =
    let more = digits fuel (n / 10) ((48 + n % 10) ∷ ds) in if ltb n 10 then (48 + n) ∷ ds else more

unfoldable pub decimal : ℕ → Text
unfolding digits
decimal n = digits (suc n) n []

abbrev pub is_numeral : ℕ → Bool
is_numeral c = leb 48 c && leb c 57

abbrev pub AllNumerals : Text → Type 0
AllNumerals [] = Unit {0}
AllNumerals (c ∷ s) = (is_numeral c ≡ true) × AllNumerals s

-- The value of decimal digits after those of `acc`.
unfoldable pub value_of : ℕ → Text → ℕ
value_of acc [] = acc
value_of acc (c ∷ s) = value_of (acc * 10 + (c - 48)) s

all_numerals : Text → Bool
all_numerals [] = true
all_numerals (c ∷ s) = is_numeral c && all_numerals s

-- int(s), of a text of ASCII digits.
unfoldable pub int : Text → Option ℕ
unfolding value_of all_numerals
int [] = none
int (c ∷ s) = if all_numerals (c ∷ s) then some (value_of 0 (c ∷ s)) else none

numeral-add : (n : ℕ) → n < 10 → is_numeral (48 + n) ≡ true
numeral-add n h = ground arith

digits-AllNumerals : (fuel n : ℕ) (ds : Text) → AllNumerals ds → AllNumerals (digits fuel n ds)
unfolding digits
digits-AllNumerals zero n ds h = h
digits-AllNumerals (suc fuel) n ds h = elim (Bool-cases (ltb n 10)) [
  | inl e ↦ rw e (numeral-add n (ground arith), h)
  | inr e ↦ rw e (
      digits-AllNumerals fuel (n / 10) ((48 + n % 10) ∷ ds) (numeral-add (n % 10) (omega arith), h))
]

digits-value : (fuel n : ℕ) (ds : Text) → n < fuel → value_of 0 (digits fuel n ds) ≡ value_of n ds
unfolding digits value_of
digits-value zero n ds h = absurd (omega arith)
digits-value (suc fuel) n ds h = elim (Bool-cases (ltb n 10)) [
  | inl e ↦ rw e (ap (λ (t : ℕ). value_of t ds) (omega arith))
  | inr e ↦
      let big : 10 ≤ n = ground arith in
      rw (e, digits-value fuel (n / 10) ((48 + n % 10) ∷ ds) (omega arith))
        (ap (λ (t : ℕ). value_of t ds) (omega arith))
]

digits-pos : (fuel n : ℕ) (ds : Text) → 1 ≤ fuel + length ds → 1 ≤ length (digits fuel n ds)
unfolding digits
digits-pos zero n ds h = omega arith
digits-pos (suc fuel) n ds h = ground (arith, digits-pos fuel (n / 10) ((48 + n % 10) ∷ ds))

pub decimal-AllNumerals : (n : ℕ) → AllNumerals (decimal n)
unfolding decimal
decimal-AllNumerals n = digits-AllNumerals (suc n) n [] tt

pub decimal-pos : (n : ℕ) → 1 ≤ length (decimal n)
unfolding decimal
decimal-pos n = digits-pos (suc n) n [] (omega arith)

pub decimal-value : (n : ℕ) → value_of 0 (decimal n) ≡ n
unfolding decimal value_of
decimal-value n = digits-value (suc n) n [] (omega arith)

all_numerals_lem : (s : Text) → AllNumerals s → all_numerals s ≡ true
unfolding all_numerals
all_numerals_lem [] h = refl
all_numerals_lem (c ∷ s) h = rw (h.0, all_numerals_lem s h.1) refl

int-AllNumerals : (s : Text) → AllNumerals s → 1 ≤ length s → int s ≡ some (value_of 0 s)
unfolding int
int-AllNumerals [] h k = absurd (omega arith)
int-AllNumerals (c ∷ s) h k = rw (all_numerals_lem (c ∷ s) h) refl

pub int-decimal : (n : ℕ) → int (decimal n) ≡ some n
int-decimal n =
    rw (int-AllNumerals (decimal n) (decimal-AllNumerals n) (decimal-pos n), decimal-value n) refl
