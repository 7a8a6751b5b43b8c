-- ===== src/Compiler/Lexer/Tests.antt =====
-- Sources for compiler/lexer.py, and its theorems at concrete data.
use poodillion.Prelude.{
  ℕ, ◌≡◌, ◌≢◌, refl, List, [], ◌∷◌, ◌++◌, nat_eq, text_eq, string_eq, map, Text, text_of,
}
use poodillion.Compiler.Lexer.Kinds.{tt_if, tt_ident, tt_plus_equals, tt_number, tt_eof}
use poodillion.Compiler.Lexer.Keywords.{lookup_keyword}
use poodillion.Compiler.Lexer.Cursor.{
  done, raises, out_of_fuel, index_error, unexpected_character, Position, Token, Value, no_value,
  number, word, new_token, is_alpha, is_alnum,
}
use poodillion.Compiler.Lexer.Literals.{read_number, read_identifier}
use poodillion.Compiler.Lexer.Tokens.{read_quoted, read_operator, round, tokenize}
use poodillion.Compiler.Lexer.Progress.{Ordered}
use poodillion.Compiler.Lexer.Order.{EndsInEof, tokenize_ends, tokenize-Ordered}
use poodillion.Prelude.Decimal.{digits, decimal}
use poodillion.Compiler.Lexer.Quoting.{quoted}
use poodillion.Compiler.Lexer.Printing.{
  Lexeme, decimal_number, string, name, source_of, meaning, AllFit,
}
use poodillion.Compiler.Lexer.RoundTrip.{shown, tokenize-source_of}

-- if x += 0x1F
abbrev statement : Text
statement = text_of "if x += 0x1F"

at_line_one : ℕ → Position
at_line_one n = record { line = 1; column = n }

abbrev token : ℕ → Value → ℕ → ℕ → Token
token type value from to = record {
  type = type;
  value = value;
  start = record { line = 1; column = from };
  end = record { line = 1; column = to };
}

abbrev statement_tokens : List Token
statement_tokens =
    token tt_if no_value 1 3
    ∷ token tt_ident (word (text_of "x")) 4 5
    ∷ token tt_plus_equals no_value 6 8
    ∷ token tt_number (number 31) 9 13
    ∷ token tt_eof no_value 13 13
    ∷ []

tokenize-statement : tokenize statement ≡ done statement_tokens
unfolding tokenize read_operator read_identifier read_number new_token nat_eq text_eq lookup_keyword
    round
tokenize-statement = refl

-- An unterminated string is an IndexError.
unterminated : tokenize (text_of "\"ab") ≡ raises index_error
unfolding tokenize read_quoted nat_eq round
unterminated = refl

-- A `$` is no token.
unexpected : tokenize (text_of "x $") ≡ raises (unexpected_character b'$' 1 3)
unfolding tokenize read_operator read_identifier nat_eq text_eq lookup_keyword round new_token
unexpected = refl

tokenize_ends_example : tokenize statement ≢ raises out_of_fuel
tokenize_ends_example = tokenize_ends statement

tokenize-Ordered_example :
    ((q : Position) × Ordered (record { line = 1; column = 1 }) statement_tokens q)
    × EndsInEof statement_tokens
tokenize-Ordered_example = tokenize-Ordered statement statement_tokens tokenize-statement

abbrev lexemes : List Lexeme
lexemes = name (text_of "count") ∷ decimal_number 1024 ∷ string (text_of "say \"hi\"") ∷ []

source_of-lexemes : source_of lexemes ≡ text_of "count 1024 \"say \\\"hi\\\"\" "
unfolding source_of decimal digits quoted nat_eq
source_of-lexemes = refl

lexemes-AllFit : AllFit lexemes
unfolding is_alpha is_alnum
lexemes-AllFit = ((refl, (refl, (refl, (refl, (refl, tt))))), (tt, (tt, tt)))

tokenize-source_of_example :
    (ts : List Token) × (tokenize (source_of lexemes) ≡ done ts)
    × (map shown ts ≡ map meaning lexemes ++ (tt_eof, no_value) ∷ [])
tokenize-source_of_example = tokenize-source_of lexemes lexemes-AllFit
