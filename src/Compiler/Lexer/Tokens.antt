-- ===== src/Compiler/Lexer/Tokens.antt =====
-- `tokenize` of compiler/lexer.py.
use poodillion.Prelude.{
  ℕ, zero, suc, ◌+◌, Bool, true, false, not, ◌&&◌, ◌||◌, Option, none, some, List, [], ◌∷◌, ◌++◌,
  ◌==◌, nat_eq, length, Text, if◌then◌else◌,
}
use poodillion.Compiler.Lexer.Kinds.{
  tt_ampersand, tt_ampersand_equals, tt_arrow, tt_at, tt_caret, tt_caret_equals, tt_colon, tt_comma,
  tt_dot, tt_dotdot, tt_double_slash, tt_double_slash_equals, tt_double_star, tt_ellipsis,
  tt_equals, tt_equals_equals, tt_greater, tt_greater_equals, tt_lbrace, tt_lbracket, tt_less,
  tt_less_equals, tt_lparen, tt_minus, tt_minus_equals, tt_not, tt_not_equals, tt_percent,
  tt_percent_equals, tt_pipe, tt_pipe_equals, tt_plus, tt_plus_equals, tt_rbrace, tt_rbracket,
  tt_rparen, tt_semicolon, tt_shl, tt_shl_equals, tt_shr, tt_shr_equals, tt_slash, tt_slash_equals,
  tt_star, tt_star_equals, tt_tilde, tt_newline, tt_eof,
}
use poodillion.Compiler.Lexer.Cursor.{
  Outcome, done, raises, unexpected_character, index_error, out_of_fuel, newline, backslash,
  apostrophe, double_quote, underscore, Position, Lexer, no_value, Token, new_token, is_digit,
  is_alpha, move, advance, head_or_space, tail, span,
}
use poodillion.Compiler.Lexer.Literals.{read_number, read_string, read_char, read_identifier}

-- An operator by its first character and the two that follow: how long it is, and its type.
unfoldable pub operator : ℕ → ℕ → ℕ → Option (ℕ × ℕ)
operator c d e =
    if c == b'+'
    then (if d == b'=' then some (2, tt_plus_equals) else some (1, tt_plus))
    else if c == b'-'
    then (if d == b'='
        then some (2, tt_minus_equals)
        else if d == b'>'
        then some (2, tt_arrow)
        else some (1, tt_minus))
    else if c == b'*'
    then (if d == b'*'
        then some (2, tt_double_star)
        else if d == b'='
        then some (2, tt_star_equals)
        else some (1, tt_star))
    else if c == b'/'
    then (if d == b'/'
        then (if e == b'=' then some (3, tt_double_slash_equals) else some (2, tt_double_slash))
        else if d == b'='
        then some (2, tt_slash_equals)
        else some (1, tt_slash))
    else if c == b'%'
    then (if d == b'=' then some (2, tt_percent_equals) else some (1, tt_percent))
    else if c == b'='
    then (if d == b'=' then some (2, tt_equals_equals) else some (1, tt_equals))
    else if c == b'!'
    then (if d == b'=' then some (2, tt_not_equals) else some (1, tt_not))
    else if c == b'<'
    then (if d == b'='
        then some (2, tt_less_equals)
        else if d == b'<'
        then (if e == b'=' then some (3, tt_shl_equals) else some (2, tt_shl))
        else some (1, tt_less))
    else if c == b'>'
    then (if d == b'='
        then some (2, tt_greater_equals)
        else if d == b'>'
        then (if e == b'=' then some (3, tt_shr_equals) else some (2, tt_shr))
        else some (1, tt_greater))
    else if c == b'&'
    then (if d == b'=' then some (2, tt_ampersand_equals) else some (1, tt_ampersand))
    else if c == b'|'
    then (if d == b'=' then some (2, tt_pipe_equals) else some (1, tt_pipe))
    else if c == b'^'
    then (if d == b'=' then some (2, tt_caret_equals) else some (1, tt_caret))
    else if c == b'~'
    then some (1, tt_tilde)
    else if c == b'('
    then some (1, tt_lparen)
    else if c == b')'
    then some (1, tt_rparen)
    else if c == b'['
    then some (1, tt_lbracket)
    else if c == b']'
    then some (1, tt_rbracket)
    else if c == b'{'
    then some (1, tt_lbrace)
    else if c == b'}'
    then some (1, tt_rbrace)
    else if c == b','
    then some (1, tt_comma)
    else if c == b':'
    then some (1, tt_colon)
    else if c == b';'
    then some (1, tt_semicolon)
    else if c == b'.'
    then (if d == b'.'
        then (if e == b'.' then some (3, tt_ellipsis) else some (2, tt_dotdot))
        else some (1, tt_dot))
    else if c == b'@'
    then some (1, tt_at)
    else none

-- What the lookahead at an apostrophe finds: whether a character literal follows, and how many lines
-- it has passed. `pos` and `column` are put back after it, and `line` is not.
unfoldable pub char_ahead : Text → Bool × ℕ
char_ahead [] = (false, 0)
char_ahead (c ∷ []) = (false, if c == newline then 1 else 0)
char_ahead (c ∷ d ∷ r) =
    if c == backslash
    then (head_or_space r == apostrophe, if d == newline then 1 else 0)
    else (d == apostrophe, if c == newline then 1 else 0)

abbrev pub is_quote : ℕ → Bool
is_quote c = c == double_quote || c == apostrophe

-- The letters f, r and b, small or capital, before a quote.
abbrev pub is_prefix : ℕ → ℕ → ℕ → ℕ → Bool
is_prefix small capital c d = (c == small || c == capital) && is_quote d

-- Rounds give the tokens that they append, at most one.
abbrev pub one : Outcome (Token × Lexer) → Outcome (List Token × Lexer)
one (raises e) = raises e
one (done (t, l)) = done (t ∷ [], l)

abbrev pub drift : ℕ → Position → Position
drift n p = record { line = p.line + n; column = p.column }

-- The branch of a quote or an apostrophe.
unfoldable pub read_quoted : ℕ → Text → Position → Outcome (Token × Lexer)
unfolding read_string read_char char_ahead
read_quoted c r p =
    if c == double_quote
    then read_string false (c ∷ r) p
    else let (literal, n) = char_ahead r in
      if literal then read_char (c ∷ r) (drift n p) else read_string false (c ∷ r) (drift n p)

-- `advance` n times.
unfoldable pub advance_by : ℕ → Lexer → Lexer
unfolding advance
advance_by zero l = l
advance_by (suc n) l = advance_by n (advance l)

unfoldable pub read_operator : ℕ → Text → Position → Outcome (List Token × Lexer)
unfolding operator advance_by
read_operator c r p = elim (operator c (head_or_space r) (head_or_space (tail r))) [
  | some (n, type) ↦
      let l = advance_by n (record { rest = c ∷ r; at = p }) in
      done (new_token type no_value p l.at ∷ [], l)
  | none ↦
      if c == backslash
      then elim r [
        | [] ↦ raises index_error
        | d ∷ r1 ↦
            let l : Lexer = record { rest = d ∷ r1; at = move c p } in
            done ([], if d == newline then advance l else l)
      ]
      else raises (unexpected_character c p.line p.column)
]

abbrev pub is_blank : ℕ → Bool
is_blank c = c == b' ' || c == b'\t'

-- One round of the loop of `tokenize`, at the character `c`.
unfoldable pub round : ℕ → Text → Position → Outcome (List Token × Lexer)
unfolding span read_string read_number read_quoted read_identifier read_operator
round c r p =
    let d = head_or_space r in
    if c == newline
    then done (new_token tt_newline no_value p (move c p) ∷ [], record { rest = r; at = move c p })
    else if is_blank c
    then done ([], (span is_blank (c ∷ r) p).1)
    else if c == b'#'
    then done ([], (span (λ x. not (x == newline)) (c ∷ r) p).1)
    else if is_prefix b'f' b'F' c d
    then one (read_string true r (move c p))
    else if is_prefix b'r' b'R' c d || is_prefix b'b' b'B' c d
    then one (read_string false r (move c p))
    else if is_digit c
    then one (read_number (c ∷ r) p)
    else if is_quote c
    then one (read_quoted c r p)
    else if is_alpha c || c == underscore
    then one (done (read_identifier (c ∷ r) p))
    else read_operator c r p

-- `while not at_end`, and the end of file. `fuel` bounds the rounds.
unfoldable pub tokenize_from : ℕ → Lexer → Outcome (List Token)
unfolding round
tokenize_from zero l = raises out_of_fuel
tokenize_from (suc fuel) l = elim l.rest [
  | [] ↦ done (new_token tt_eof no_value l.at l.at ∷ [])
  | c ∷ r ↦ elim (round c r l.at) [
    | raises e ↦ raises e
    | done (ts, l') ↦ elim (tokenize_from fuel l') [
      | raises e ↦ raises e
      | done us ↦ done (ts ++ us)
    ]
  ]
]

abbrev pub start_of : Text → Lexer
start_of source = record { rest = source; at = record { line = 1; column = 1 } }

-- Lexer(source).tokenize(): a round passes one character at least.
unfoldable pub tokenize : Text → Outcome (List Token)
unfolding tokenize_from
tokenize source = tokenize_from (suc (length source)) (start_of source)
