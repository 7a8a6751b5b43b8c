-- ===== src/Compiler/Lexer/Lexemes.antt =====
-- Rounds of `tokenize` of compiler/lexer.py at a number, at a string and at a name.
use poodillion.Prelude.{
  ℕ, Bool, true, false, ◌||◌, ◌≡◌, refl, ◌∙◌, [], ◌∷◌, ◌++◌, ◌==◌, nat_eq, length, Text,
  if◌then◌else◌, arith,
}
use poodillion.Compiler.Lexer.Kinds.{tt_ident}
use poodillion.Compiler.Lexer.Keywords.{lookup_keyword}
use poodillion.Compiler.Lexer.Cursor.{
  done, newline, underscore, double_quote, Position, Value, no_value, word, new_token,
  head_or_space, is_digit, is_alnum, is_alpha,
}
use poodillion.Compiler.Lexer.Literals.{read_number, read_string, read_identifier}
use poodillion.Compiler.Lexer.Tokens.{one, is_quote, is_prefix, is_blank, read_quoted, round}
use poodillion.Compiler.Lexer.Columns.{right_of, All, span-All}
use poodillion.Compiler.Lexer.Decimal.{Stops}

pub round_digit :
    (c : ℕ) (r : Text) (p : Position)
    → is_digit c ≡ true
    → round c r p ≡ one (read_number (c ∷ r) p)
unfolding round is_digit
round_digit c r p h =
    let e : (c == newline) ≡ false = ground arith in
    let f : is_blank c ≡ false = ground arith in
    let g : (c == b'#') ≡ false = ground arith in
    let k : is_prefix b'f' b'F' c (head_or_space r) ≡ false = ground arith in
    let l : is_prefix b'r' b'R' c (head_or_space r) ≡ false = ground arith in
    let m : is_prefix b'b' b'B' c (head_or_space r) ≡ false = ground arith in
    rw (e, f, g, k, l, m, h) refl

pub round_quote :
    (r : Text) (p : Position)
    → round double_quote r p ≡ one (read_string false (double_quote ∷ r) p)
unfolding round read_quoted nat_eq is_digit
round_quote r p = refl

if_true {ℓ} : {A : Type ℓ} (b : Bool) (x y : A) → b ≡ true → (if b then x else y) ≡ x
if_true b x y e = rw e refl

if_false {ℓ} : {A : Type ℓ} (b : Bool) (x y : A) → b ≡ false → (if b then x else y) ≡ y
if_false b x y e = rw e refl

or_false : (a b : Bool) → a ≡ false → b ≡ false → (a || b) ≡ false
or_false a b e f = rw (e, f) refl

letter_tests :
    (c : ℕ)
    → (is_alpha c || c == underscore) ≡ true
    → ((c == newline) ≡ false)
      × (is_blank c ≡ false)
      × ((c == b'#') ≡ false)
      × (is_digit c ≡ false)
      × (is_quote c ≡ false)
unfolding is_alpha is_digit
letter_tests c h = ground arith

no_prefix : (small capital c d : ℕ) → is_quote d ≡ false → is_prefix small capital c d ≡ false
no_prefix small capital c d q = ground arith

pub round_letter :
    (c : ℕ) (r : Text) (p : Position)
    → (is_alpha c || c == underscore) ≡ true
    → is_quote (head_or_space r) ≡ false
    → round c r p ≡ one (done (read_identifier (c ∷ r) p))
unfolding round
round_letter c r p h q =
    let (e, f, g, n, o) = letter_tests c h in
    let d = head_or_space r in
    if_false _ _ _ e
    ∙ if_false _ _ _ f
    ∙ if_false _ _ _ g
    ∙ if_false _ _ _ (no_prefix b'f' b'F' c d q)
    ∙ if_false _ _ _ (or_false _ _ (no_prefix b'r' b'R' c d q) (no_prefix b'b' b'B' c d q))
    ∙ if_false _ _ _ n
    ∙ if_false _ _ _ o
    ∙ if_true _ _ _ h

-- A name: a letter or an underscore, and further letters, digits and underscores.
abbrev pub IsName : Text → Type 0
IsName [] = ⊥
IsName (c ∷ s) =
    ((is_alpha c || c == underscore) ≡ true) × All (λ x. is_alnum x || x == underscore) s

-- The type of the token of a name: that of the keyword it is, or IDENT.
abbrev pub kind : Text → ℕ
kind w = if lookup_keyword w == 0 then tt_ident else lookup_keyword w

name_line : (c : ℕ) → (is_alnum c || c == underscore) ≡ true → (c == newline) ≡ false
unfolding is_alnum is_alpha is_digit
name_line c h = ground arith

letter_name :
    (c : ℕ) → (is_alpha c || c == underscore) ≡ true → (is_alnum c || c == underscore) ≡ true
unfolding is_alnum
letter_name c h = ground arith

abbrev pub name_value : Text → Value
name_value w = if kind w == tt_ident then word w else no_value

pub read_identifier_lem :
    (c : ℕ) (s rest : Text) (p : Position)
    → IsName (c ∷ s)
    → Stops rest
    → read_identifier (c ∷ (s ++ rest)) p ≡ (
        let end = right_of (length (c ∷ s)) p in
        (new_token (kind (c ∷ s)) (name_value (c ∷ s)) p end, record { rest = rest; at = end }))
unfolding read_identifier
read_identifier_lem c s rest p h k =
    let passed =
      span-All (λ x. is_alnum x || x == underscore) name_line (c ∷ s) rest p
        (letter_name c h.0, h.1) k in
    rw (passed, read_identifier) refl
