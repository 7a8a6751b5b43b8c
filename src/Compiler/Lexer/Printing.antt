-- ===== src/Compiler/Lexer/Printing.antt =====
-- Lexemes that are written out, and `tokenize` of compiler/lexer.py of what is written.
use poodillion.Prelude.{
  ℕ, ◌+◌, ◌≤◌, true, false, ◌||◌, ◌≡◌, ◌≢◌, refl, ◌∙◌, ap, List, [], ◌∷◌, ◌++◌, ◌==◌, nat_eq,
  length, Text, arith, length-append,
}
use poodillion.Compiler.Lexer.Kinds.{tt_number, tt_string}
use poodillion.Compiler.Lexer.Cursor.{
  Outcome, done, underscore, double_quote, Position, Lexer, Value, Token, number, word, new_token,
  head_or_space, is_digit, is_alnum, is_alpha,
}
use poodillion.Compiler.Lexer.Literals.{read_number}
use poodillion.Compiler.Lexer.Tokens.{one, is_quote, is_blank, round}
use poodillion.Compiler.Lexer.Columns.{right_of, All}
use poodillion.Compiler.Lexer.Quoting.{quoted, columns, read_string-quoted}
use poodillion.Prelude.Decimal.{decimal, decimal-pos}
use poodillion.Compiler.Lexer.Decimal.{AllDigits, decimal-AllDigits, Stops, read_number-decimal}
use poodillion.Compiler.Lexer.Lexemes.{
  round_digit, round_quote, round_letter, IsName, kind, name_value, read_identifier_lem,
}

pub data Lexeme : Type 0 where
  decimal_number : ℕ → Lexeme
  string : Text → Lexeme
  name : Text → Lexeme

-- A lexeme as it is written, before `rest`.
unfoldable pub written : Lexeme → Text → Text
unfolding decimal quoted
written (decimal_number n) rest = decimal n ++ rest
written (string s) rest = double_quote ∷ quoted double_quote s rest
written (name w) rest = w ++ rest

-- A source of lexemes, each with a blank after it.
unfoldable pub source_of : List Lexeme → Text
unfolding written
source_of [] = []
source_of (x ∷ xs) = written x (b' ' ∷ source_of xs)

-- The type and the value of the token of a lexeme.
abbrev pub meaning : Lexeme → ℕ × Value
meaning (decimal_number n) = (tt_number, number n)
meaning (string s) = (tt_string, word s)
meaning (name w) = (kind w, name_value w)

abbrev pub Fits : Lexeme → Type 0
Fits (name w) = IsName w
Fits x = Unit {0}

abbrev pub AllFit : List Lexeme → Type 0
AllFit [] = Unit {0}
AllFit (x ∷ xs) = Fits x × AllFit xs

-- The last column of a lexeme that begins at `p`.
unfoldable pub end_of : Lexeme → Position → Position
end_of (decimal_number n) p = right_of (length (decimal n)) p
end_of (string s) p = right_of (1 + columns double_quote s) p
end_of (name w) p = right_of (length w) p

-- A round at `source` reads the token of `x` and goes on at a blank.
abbrev pub ReadsLexeme : Lexeme → Text → Text → Position → Type 0
ReadsLexeme x [] rest p = ⊥
ReadsLexeme x (c ∷ r) rest p =
    let end = end_of x p in
    (round c r p
      ≡ done (new_token (meaning x).0 (meaning x).1 p end ∷ [], record { rest = rest; at = end }))
    × ((is_blank c ≡ false) × (length rest + 1 ≤ length (c ∷ r)))

one_done :
    (o : Outcome (Token × Lexer)) (t : Token) (l : Lexer)
    → o ≡ done (t, l)
    → one o ≡ done (t ∷ [], l)
one_done o t l e = rw e refl

digits_read :
    (n : ℕ) (ds rest : Text) (p : Position)
    → AllDigits ds
    → 1 ≤ length ds
    → (let end = end_of (decimal_number n) p in
        read_number (ds ++ b' ' ∷ rest) p
        ≡ done (new_token tt_number (number n) p end, record { rest = b' ' ∷ rest; at = end }))
    → ReadsLexeme (decimal_number n) (ds ++ b' ' ∷ rest) (b' ' ∷ rest) p
unfolding is_digit
digits_read n [] rest p h k e = absurd (omega arith)
digits_read n (c ∷ ds) rest p h k e = (
  round_digit c (ds ++ b' ' ∷ rest) p h.0 ∙ one_done _ _ _ e,
  (ground arith, omega (arith, length-append ds (b' ' ∷ rest))),
)

quoted-length : (quote : ℕ) (s rest : Text) → length rest + 1 ≤ length (quoted quote s rest)
unfolding quoted
quoted-length quote [] rest = omega arith
quoted-length quote (c ∷ s) rest = ground (arith, quoted-length quote s rest)

name_before_blank :
    (s rest : Text)
    → All (λ x. is_alnum x || x == underscore) s
    → is_quote (head_or_space (s ++ b' ' ∷ rest)) ≡ false
unfolding is_alnum is_alpha is_digit
name_before_blank [] rest h = ground arith
name_before_blank (c ∷ s) rest h = let e = h.0 in ground (arith, e)

letter_blank : (c : ℕ) → (is_alpha c || c == underscore) ≡ true → is_blank c ≡ false
unfolding is_alpha
letter_blank c h = ground arith

blank-Stops : (rest : Text) → Stops (b' ' ∷ rest)
unfolding is_alnum is_alpha is_digit nat_eq
blank-Stops rest = refl

quote_is : is_quote double_quote ≡ true
unfolding nat_eq
quote_is = refl

quote_blank : is_blank double_quote ≡ false
unfolding nat_eq
quote_blank = refl

quote_apart : b' ' ≢ double_quote
quote_apart = omega arith

pub lexeme_reads :
    (x : Lexeme) (rest : Text) (p : Position)
    → Fits x
    → ReadsLexeme x (written x (b' ' ∷ rest)) (b' ' ∷ rest) p
unfolding written end_of
lexeme_reads (decimal_number n) rest p h =
    digits_read n (decimal n) rest p (decimal-AllDigits n) (decimal-pos n)
      (read_number-decimal n (b' ' ∷ rest) p (blank-Stops rest))
lexeme_reads (string s) rest p h = (
  round_quote (quoted double_quote s (b' ' ∷ rest)) p
      ∙ one_done _ _ _
          (read_string-quoted double_quote s (b' ' ∷ rest) p quote_is (λ e. quote_apart)),
  (quote_blank, omega (arith, quoted-length double_quote s (b' ' ∷ rest))),
)
lexeme_reads (name []) rest p h = absurd h
lexeme_reads (name (c ∷ s)) rest p h = (
  round_letter c (s ++ b' ' ∷ rest) p h.0 (name_before_blank s rest h.1)
      ∙ ap (λ o. one (done o)) (read_identifier_lem c s (b' ' ∷ rest) p h (blank-Stops rest)),
  (letter_blank c h.0, omega (arith, length-append s (b' ' ∷ rest))),
)
