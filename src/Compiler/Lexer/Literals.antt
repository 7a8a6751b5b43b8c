-- ===== src/Compiler/Lexer/Literals.antt =====
-- `read_number`, `read_string`, `read_char` and `read_identifier` of compiler/lexer.py.
use poodillion.Prelude.{
  ℕ, ◌+◌, ◌-◌, ◌*◌, Bool, not, ◌&&◌, ◌||◌, [], ◌∷◌, ◌==◌, nat_eq, keep, Text, if◌then◌else◌,
}
use poodillion.Compiler.Lexer.Kinds.{tt_number, tt_string, tt_fstring, tt_char_lit, tt_ident}
use poodillion.Compiler.Lexer.Keywords.{lookup_keyword}
use poodillion.Compiler.Lexer.Cursor.{
  Outcome, done, raises, newline_in_string, index_error, value_error, newline, backslash,
  underscore, Position, Lexer, no_value, number, word, Token, new_token, within, is_digit, is_hex,
  is_alnum, move, advance, head_or_space, span,
}

-- The value of a digit in any base.
unfoldable pub digit_value : ℕ → ℕ
digit_value c = if within 48 57 c then c - 48 else if within 97 102 c then c - 87 else c - 55

unfoldable pub digits_value : ℕ → ℕ → Text → ℕ
unfolding digit_value
digits_value base acc [] = acc
digits_value base acc (c ∷ s) = digits_value base (acc * base + digit_value c) s

-- int(num_str, base) of the digits that a loop has collected.
unfoldable pub int_of : ℕ → Text → Outcome ℕ
unfolding digits_value
int_of base [] = raises value_error
int_of base (c ∷ s) = done (digits_value base 0 (c ∷ s))

abbrev is_bin : ℕ → Bool
is_bin c = c == b'0' || c == b'1'

abbrev is_oct : ℕ → Bool
is_oct c = within 48 55 c

-- A loop over digits and underscores, and the number that the digits stand for.
unfoldable pub read_digits : ℕ → (ℕ → Bool) → Position → Text → Position → Outcome (Token × Lexer)
unfolding span int_of
read_digits base test start source p =
    let (text, l) = span (λ c. test c || c == underscore) source p in
    elim (int_of base (keep (λ c. not (c == underscore)) text)) [
      | raises e ↦ raises e
      | done n ↦ done (new_token tt_number (number n) start l.at, l)
    ]

-- The same after a prefix of two characters, whose next character must be there.
unfoldable pub read_prefixed : ℕ → (ℕ → Bool) → Position → Text → Position → Outcome (Token × Lexer)
unfolding read_digits
read_prefixed base test start [] p = raises index_error
read_prefixed base test start (c ∷ r) p = read_digits base test start (c ∷ r) p

unfoldable pub read_number : Text → Position → Outcome (Token × Lexer)
unfolding read_prefixed is_hex is_digit
read_number (b ∷ x ∷ r) p =
    let after = move x (move b p) in
    if b == b'0' && (x == b'x' || x == b'X')
    then read_prefixed 16 is_hex p r after
    else if b == b'0' && (x == b'b' || x == b'B')
    then read_prefixed 2 is_bin p r after
    else if b == b'0' && (x == b'o' || x == b'O')
    then read_prefixed 8 is_oct p r after
    else read_digits 10 is_digit p (b ∷ x ∷ r) p
read_number (b ∷ []) p = read_digits 10 is_digit p (b ∷ []) p
read_number [] p = raises index_error

-- The character that an escape stands for, in strings and in character literals.
unfoldable pub escape_of : ℕ → ℕ
escape_of esc =
    if esc == b'n'
    then 10
    else if esc == b't'
    then 9
    else if esc == b'r'
    then 13
    else if esc == b'0'
    then 0
    else esc

-- The white space that `int` strips, of ASCII.
abbrev is_white : ℕ → Bool
is_white c = within 9 13 c || within 28 32 c

-- int(h + k, 16) of two ASCII characters, as `chr` takes it: `int` strips white space and reads a
-- sign, and `chr` refuses a negative number.
unfoldable pub hex_pair : ℕ → ℕ → Outcome ℕ
unfolding is_hex digit_value
hex_pair h k =
    if is_hex h && is_hex k
    then done (digit_value h * 16 + digit_value k)
    else if (is_white h || h == b'+') && is_hex k
    then done (digit_value k)
    else if is_hex h && is_white k
    then done (digit_value h)
    else if h == b'-' && k == b'0'
    then done 0
    else raises value_error

-- The text of a string that goes on.
abbrev pub put : ℕ → Outcome (Text × Lexer) → Outcome (Text × Lexer)
put c (raises e) = raises e
put c (done (s, l)) = done (c ∷ s, l)

abbrev pub put_outcome : Outcome ℕ → Outcome (Text × Lexer) → Outcome (Text × Lexer)
put_outcome (raises e) more = raises e
put_outcome (done c) more = put c more

-- The loop of `read_string` in a triple-quoted string.
unfoldable pub triple_loop : ℕ → Text → Position → Outcome (Text × Lexer)
unfolding move
triple_loop quote [] p = raises index_error
triple_loop quote (c ∷ []) p =
    if c == quote && b' ' == quote
    then done ([], record { rest = []; at = move c p })
    else raises index_error
triple_loop quote (c ∷ d ∷ []) p =
    if c == quote && d == quote && b' ' == quote
    then done ([], record { rest = []; at = move d (move c p) })
    else raises index_error
triple_loop quote (c ∷ d ∷ e ∷ r) p =
    let more = triple_loop quote (d ∷ e ∷ r) (move c p) in
    if c == quote && d == quote && e == quote
    then done ([], record { rest = r; at = move e (move d (move c p)) })
    else put c more

-- One round of its loop in a string with single quotes, at a character that is not the last: the
-- rest of the string after it, after the escape with the character `esc`, and after `\x` with two
-- more, come as arguments.
abbrev pub string_round :
    ℕ
    → ℕ
    → ℕ
    → Text
    → Position
    → Outcome (Text × Lexer)
    → Outcome (Text × Lexer)
    → Outcome (Text × Lexer)
    → Outcome (Text × Lexer)
string_round quote c esc r p plain escaped hex =
    if c == quote
    then done ([], record { rest = esc ∷ r; at = move c p })
    else if c == newline
    then raises (newline_in_string p.line)
    else if c == backslash
    then (if esc == b'x' then hex else put (escape_of esc) escaped)
    else put c plain

unfoldable pub string_loop : ℕ → Text → Position → Outcome (Text × Lexer)
unfolding move escape_of hex_pair
string_loop quote [] p = raises index_error
string_loop quote (c ∷ []) p =
    if c == quote
    then done ([], record { rest = []; at = move c p })
    else if c == newline
    then raises (newline_in_string p.line)
    else raises index_error
string_loop quote (c ∷ esc ∷ []) p =
    string_round quote c esc [] p (string_loop quote (esc ∷ []) (move c p))
      (string_loop quote [] (move esc (move c p))) (raises index_error)
string_loop quote (c ∷ esc ∷ h ∷ []) p =
    string_round quote c esc (h ∷ []) p (string_loop quote (esc ∷ h ∷ []) (move c p))
      (string_loop quote (h ∷ []) (move esc (move c p))) (raises index_error)
string_loop quote (c ∷ esc ∷ h ∷ k ∷ r) p =
    string_round quote c esc (h ∷ k ∷ r) p (string_loop quote (esc ∷ h ∷ k ∷ r) (move c p))
      (string_loop quote (h ∷ k ∷ r) (move esc (move c p)))
      (put_outcome (hex_pair h k) (string_loop quote r (move k (move h (move esc (move c p))))))

abbrev pub string_token : Bool → Position → Outcome (Text × Lexer) → Outcome (Token × Lexer)
string_token is_fstring start (raises e) = raises e
string_token is_fstring start (done (s, l)) =
    done (new_token (if is_fstring then tt_fstring else tt_string) (word s) start l.at, l)

-- `read_string` at the opening quote.
unfoldable pub read_string : Bool → Text → Position → Outcome (Token × Lexer)
unfolding triple_loop string_loop advance
read_string is_fstring [] p = raises index_error
read_string is_fstring (quote ∷ []) p = raises index_error
read_string is_fstring (quote ∷ c ∷ r) p =
    let third = advance (record { rest = r; at = move c (move quote p) }) in
    string_token is_fstring p (
      if c == quote && head_or_space r == quote
      then triple_loop quote third.rest third.at
      else string_loop quote (c ∷ r) (move quote p))

-- `read_char` at the opening quote.
unfoldable pub read_char : Text → Position → Outcome (Token × Lexer)
unfolding escape_of advance
read_char (q ∷ c ∷ r) p =
    let after = move c (move q p) in
    if c == backslash
    then elim r [
      | [] ↦ raises index_error
      | esc ∷ r1 ↦
          let l = advance (record { rest = r1; at = move esc after }) in
          done (new_token tt_char_lit (word (escape_of esc ∷ [])) p l.at, l)
    ]
    else let l = advance (record { rest = r; at = after }) in
      done (new_token tt_char_lit (word (c ∷ [])) p l.at, l)
read_char (q ∷ []) p = raises index_error
read_char [] p = raises index_error

unfoldable pub read_identifier : Text → Position → Token × Lexer
unfolding span is_alnum lookup_keyword
read_identifier source p =
    let (ident, l) = span (λ c. is_alnum c || c == underscore) source p in
    let keyword = lookup_keyword ident in
    let type = if keyword == 0 then tt_ident else keyword in
    (new_token type (if type == tt_ident then word ident else no_value) p l.at, l)
