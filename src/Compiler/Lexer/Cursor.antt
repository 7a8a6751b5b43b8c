-- ===== src/Compiler/Lexer/Cursor.antt =====
-- The state of the class Lexer of compiler/lexer.py, tokens, and the tests on characters. The source
-- from `pos` on stands for `source` and `pos`; `indent_stack`, `at_line_start` and `keywords`, which
-- `tokenize` does not read, are left out.
use poodillion.Prelude.{ℕ, ◌+◌, Bool, ◌&&◌, ◌||◌, [], ◌∷◌, ◌==◌, nat_eq, leb, Text, if◌then◌else◌}

-- What a method raises: SyntaxError by its three messages, IndexError, and ValueError by `int`.
pub data LexError : Type 0 where
  unterminated_string : ℕ → LexError
  newline_in_string : ℕ → LexError
  unexpected_character : ℕ → ℕ → ℕ → LexError
  index_error : LexError
  value_error : LexError
  out_of_fuel : LexError

pub data Outcome {ℓ} (A : Type ℓ) : Type ℓ where
  done : A → Outcome A
  raises : LexError → Outcome A

abbrev pub newline : ℕ
newline = b'\n'

abbrev pub backslash : ℕ
backslash = 92

abbrev pub apostrophe : ℕ
apostrophe = 39

abbrev pub double_quote : ℕ
double_quote = 34

abbrev pub underscore : ℕ
underscore = b'_'

pub record Position : Type 0 where
  pub line : ℕ
  pub column : ℕ

pub record Lexer : Type 0 where
  pub rest : Text
  pub at : Position

pub data Value : Type 0 where
  no_value : Value
  number : ℕ → Value
  word : Text → Value

pub record Token : Type 0 where
  pub type : ℕ
  pub value : Value
  pub start : Position
  pub end : Position

-- Token(ttype, value, line, column, end_line, end_column): an end of 0 means the start.
unfoldable pub new_token : ℕ → Value → Position → Position → Token
new_token type value start end = record {
  type = type;
  value = value;
  start = start;
  end = record {
    line = if end.line == 0 then start.line else end.line;
    column = if end.column == 0 then start.column else end.column;
  };
}

abbrev pub within : ℕ → ℕ → ℕ → Bool
within lo hi c = leb lo c && leb c hi

unfoldable pub is_alpha : ℕ → Bool
is_alpha c = within 65 90 c || within 97 122 c

unfoldable pub is_digit : ℕ → Bool
is_digit c = within 48 57 c

unfoldable pub is_alnum : ℕ → Bool
unfolding is_alpha is_digit
is_alnum c = is_alpha c || is_digit c

unfoldable pub is_hex : ℕ → Bool
unfolding is_digit
is_hex c = is_digit c || within 65 70 c || within 97 102 c

-- What `advance` over the character `c` does to the line and the column.
unfoldable pub move : ℕ → Position → Position
move c p =
    if c == newline
    then record { line = p.line + 1; column = 1 }
    else record { line = p.line; column = p.column + 1 }

unfoldable pub advance : Lexer → Lexer
unfolding move
advance l = elim l.rest [ [] ↦ l | c ∷ r ↦ record { rest = r; at = move c l.at } ]

-- `peek_char()` and `peek_char(2)` of a source that starts with the current character.
abbrev pub head_or_space : Text → ℕ
head_or_space [] = b' '
head_or_space (c ∷ r) = c

abbrev pub tail : Text → Text
tail [] = []
tail (c ∷ r) = r

-- The loops `while not at_end and test(current_char): advance`. The characters that were passed are
-- the value of those that collect them.
unfoldable pub span : (ℕ → Bool) → Text → Position → Text × Lexer
unfolding move
span test [] p = ([], record { rest = []; at = p })
span test (c ∷ r) p =
    let more = span test r (move c p) in
    if test c then (c ∷ more.0, more.1) else ([], record { rest = c ∷ r; at = p })
