-- ===== src/Compiler/Lexer/Decimal.antt =====
-- A number written in decimal, and `read_number` of compiler/lexer.py of it.
use poodillion.Prelude.{
  ℕ, ◌+◌, ◌-◌, ◌*◌, ◌≤◌, true, false, not, ◌&&◌, ◌||◌, ◌≡◌, refl, [], ◌∷◌, ◌++◌, ◌==◌, nat_eq,
  length, Text, arith, keep,
}
use poodillion.Prelude.Decimal.{
  decimal, is_numeral, AllNumerals, value_of, decimal-AllNumerals, decimal-pos, decimal-value,
}
use poodillion.Compiler.Lexer.Kinds.{tt_number}
use poodillion.Compiler.Lexer.Cursor.{
  done, underscore, Position, number, new_token, head_or_space, span, is_digit, is_alnum, is_alpha,
}
use poodillion.Compiler.Lexer.Literals.{digit_value, digits_value, int_of, read_digits, read_number}
use poodillion.Compiler.Lexer.Columns.{right_of, All, span-All}

abbrev pub AllDigits : Text → Type 0
AllDigits s = All is_digit s

AllNumerals-AllDigits : (s : Text) → AllNumerals s → AllDigits s
unfolding is_digit
AllNumerals-AllDigits [] h = tt
AllNumerals-AllDigits (c ∷ s) h = (h.0, AllNumerals-AllDigits s h.1)

pub decimal-AllDigits : (n : ℕ) → AllDigits (decimal n)
decimal-AllDigits n = AllNumerals-AllDigits (decimal n) (decimal-AllNumerals n)

digit_value_lem : (c : ℕ) → is_numeral c ≡ true → digit_value c ≡ c - 48
unfolding digit_value
digit_value_lem c h = ground arith

-- On decimal digits, the value in base ten.
digits_value-value_of :
    (acc : ℕ) (s : Text) → AllNumerals s → digits_value 10 acc s ≡ value_of acc s
unfolding digits_value value_of
digits_value-value_of acc [] h = refl
digits_value-value_of acc (c ∷ s) h =
    rw (digit_value_lem c h.0) (digits_value-value_of (acc * 10 + (c - 48)) s h.1)

-- What may follow a number or a name.
abbrev pub Stops : Text → Type 0
Stops rest = (is_alnum (head_or_space rest) || head_or_space rest == underscore) ≡ false

Stops_digit :
    (c : ℕ) → (is_alnum c || c == underscore) ≡ false → (is_digit c || c == underscore) ≡ false
unfolding is_alnum
Stops_digit c h = ground arith

AllDigits-All : (ds : Text) → AllDigits ds → All (λ c. is_digit c || c == underscore) ds
AllDigits-All [] h = tt
AllDigits-All (c ∷ ds) h = (rw h.0 refl, AllDigits-All ds h.1)

span-digits :
    (ds rest : Text) (p : Position)
    → AllDigits ds
    → Stops rest
    → span (λ c. is_digit c || c == underscore) (ds ++ rest) p
      ≡ (ds, record { rest = rest; at = right_of (length ds) p })
unfolding is_digit
span-digits ds rest p h s =
    span-All (λ c. is_digit c || c == underscore) (λ c e. ground arith) ds rest p
      (AllDigits-All ds h) (Stops_digit (head_or_space rest) s)

keep-digits : (ds : Text) → AllDigits ds → keep (λ c. not (c == underscore)) ds ≡ ds
unfolding is_digit
keep-digits [] h = refl
keep-digits (c ∷ ds) h = rw (keep-digits ds h.1) (ground (arith, h.0))

Stops_alpha : (c : ℕ) → (is_alnum c || c == underscore) ≡ false → is_alpha c ≡ false
unfolding is_alnum
Stops_alpha c h = ground arith

digit_alpha : (c : ℕ) → is_digit c ≡ true → is_alpha c ≡ false
unfolding is_digit is_alpha
digit_alpha c h = ground arith

-- A source that does not begin with a prefix of a base is read in decimal.
read_number-plain :
    (b : ℕ) (r : Text) (p : Position)
    → is_alpha (head_or_space r) ≡ false
    → read_number (b ∷ r) p ≡ read_digits 10 is_digit p (b ∷ r) p
unfolding read_number is_alpha
read_number-plain b [] p h = refl
read_number-plain b (x ∷ r) p h =
    let e : (b == b'0' && (x == b'x' || x == b'X')) ≡ false = ground arith in
    let f : (b == b'0' && (x == b'b' || x == b'B')) ≡ false = ground arith in
    let g : (b == b'0' && (x == b'o' || x == b'O')) ≡ false = ground arith in rw (e, f, g) refl

int_of-digits : (ds : Text) → 1 ≤ length ds → int_of 10 ds ≡ done (digits_value 10 0 ds)
unfolding int_of
int_of-digits [] h = absurd (omega arith)
int_of-digits (c ∷ ds) h = refl

read_digits_lem :
    (ds rest : Text) (p : Position)
    → AllDigits ds
    → 1 ≤ length ds
    → Stops rest
    → read_digits 10 is_digit p (ds ++ rest) p ≡ (
        let end = right_of (length ds) p in
        done (
          new_token tt_number (number (digits_value 10 0 ds)) p end,
          record { rest = rest; at = end },
        ))
unfolding read_digits
read_digits_lem ds rest p h k s =
    let passed = span-digits ds rest p h s in
    rw (passed, read_digits) (rw (keep-digits ds h, int_of-digits ds k, passed) refl)

read_number-digits :
    (ds rest : Text) (p : Position)
    → AllDigits ds
    → 1 ≤ length ds
    → Stops rest
    → read_number (ds ++ rest) p ≡ read_digits 10 is_digit p (ds ++ rest) p
read_number-digits [] rest p h k s = absurd (omega arith)
read_number-digits (c ∷ []) rest p h k s = read_number-plain c rest p (Stops_alpha _ s)
read_number-digits (c ∷ d ∷ ds) rest p h k s =
    read_number-plain c (d ∷ (ds ++ rest)) p (digit_alpha d h.1.0)

-- A number written in decimal is read back by `read_number`, before a source that does not go on
-- with a letter, a digit or an underscore: a number token with its value, the lexer behind its last
-- digit.
pub read_number-decimal :
    (n : ℕ) (rest : Text) (p : Position)
    → Stops rest
    → read_number (decimal n ++ rest) p ≡ (
        let end = right_of (length (decimal n)) p in
        done (new_token tt_number (number n) p end, record { rest = rest; at = end }))
read_number-decimal n rest p s =
    let h = decimal-AllDigits n in
    let k = decimal-pos n in
    let v = digits_value-value_of 0 (decimal n) (decimal-AllNumerals n) in
    rw
      (
        read_number-digits (decimal n) rest p h k s,
        read_digits_lem (decimal n) rest p h k s,
        v,
        decimal-value n,
      )
      refl
