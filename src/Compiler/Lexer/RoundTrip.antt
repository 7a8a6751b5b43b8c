-- ===== src/Compiler/Lexer/RoundTrip.antt =====
-- `tokenize` of compiler/lexer.py of lexemes that are written out one after the other.
use poodillion.Prelude.{
  ℕ, zero, suc, ◌+◌, ◌≤◌, ◌<◌, false, ◌≡◌, refl, ◌∙◌, ap, List, [], ◌∷◌, ◌++◌, nat_eq, length, map,
  Text, arith,
}
use poodillion.Compiler.Lexer.Kinds.{tt_eof}
use poodillion.Compiler.Lexer.Cursor.{
  done, Position, Lexer, Value, Token, no_value, new_token, move, span,
}
use poodillion.Compiler.Lexer.Tokens.{is_blank, round, tokenize_from, tokenize}
use poodillion.Compiler.Lexer.Columns.{right_of, move-right}
use poodillion.Compiler.Lexer.Printing.{
  Lexeme, written, source_of, meaning, AllFit, end_of, ReadsLexeme, lexeme_reads,
}

-- The tokens of lexemes that begin at `p`, and EOF.
unfoldable tokens : List Lexeme → Position → List Token
tokens [] p = new_token tt_eof no_value p p ∷ []
tokens (x ∷ xs) p =
    new_token (meaning x).0 (meaning x).1 p (end_of x p) ∷ tokens xs (right_of 1 (end_of x p))

tokenize_from-round :
    (fuel c : ℕ) (r : Text) (p : Position) (ts us : List Token) (l : Lexer)
    → round c r p ≡ done (ts, l)
    → tokenize_from fuel l ≡ done us
    → tokenize_from (suc fuel) (record { rest = c ∷ r; at = p }) ≡ done (ts ++ us)
unfolding tokenize_from
tokenize_from-round fuel c r p ts us l e f = rw (e, tokenize_from) (rw f refl)

-- The rest after a blank goes on with no other.
abbrev NoBlank : Text → Type 0
NoBlank [] = Unit {0}
NoBlank (c ∷ r) = is_blank c ≡ false

blank_span :
    (k : Text) (p : Position) → NoBlank k → (span is_blank k p).1 ≡ record { rest = k; at = p }
unfolding span
blank_span [] p h = refl
blank_span (c ∷ r) p h = rw h refl

round_blank :
    (k : Text) (p : Position)
    → NoBlank k
    → round b' ' k p ≡ done ([], record { rest = k; at = right_of 1 p })
unfolding round span nat_eq
round_blank k p h =
    ap (λ (l : Lexer). done ([], l))
      (blank_span k (move b' ' p) h
        ∙ ap (λ (q : Position). record { rest = k; at = q }) (move-right b' ' p refl))

ReadsLexeme-NoBlank :
    (x : Lexeme) (source rest : Text) (p : Position) → ReadsLexeme x source rest p → NoBlank source
ReadsLexeme-NoBlank x [] rest p h = absurd h
ReadsLexeme-NoBlank x (c ∷ r) rest p h = h.1.0

source_of-NoBlank : (xs : List Lexeme) → AllFit xs → NoBlank (source_of xs)
unfolding source_of
source_of-NoBlank [] h = tt
source_of-NoBlank (x ∷ xs) h =
    ReadsLexeme-NoBlank x _ (b' ' ∷ source_of xs) _
      (lexeme_reads x (source_of xs) (record { line = 1; column = 1 }) h.0)

ReadsLexeme-length :
    (x : Lexeme) (source rest : Text) (p : Position)
    → ReadsLexeme x source rest p
    → length rest + 1 ≤ length source
ReadsLexeme-length x [] rest p h = absurd h
ReadsLexeme-length x (c ∷ r) rest p h = h.1.1

-- A round for a lexeme and one for the blank after it.
lexeme_step :
    (fuel : ℕ) (x : Lexeme) (k source : Text) (p : Position) (us : List Token)
    → ReadsLexeme x source (b' ' ∷ k) p
    → NoBlank k
    → tokenize_from fuel (record { rest = k; at = right_of 1 (end_of x p) }) ≡ done us
    → tokenize_from (suc (suc fuel)) (record { rest = source; at = p })
      ≡ done (new_token (meaning x).0 (meaning x).1 p (end_of x p) ∷ us)
lexeme_step fuel x k [] p us h b e = absurd h
lexeme_step fuel x k (c ∷ r) p us h b e =
    let end = end_of x p in
    tokenize_from-round (suc fuel) c r p (new_token (meaning x).0 (meaning x).1 p end ∷ []) us
      (record { rest = b' ' ∷ k; at = end }) h.0
      (tokenize_from-round fuel b' ' k end [] us (record { rest = k; at = right_of 1 end })
        (round_blank k end b) e)

tokenize_from_end :
    (fuel : ℕ) (p : Position)
    → tokenize_from (suc fuel) (record { rest = []; at = p })
      ≡ done (new_token tt_eof no_value p p ∷ [])
unfolding tokenize_from
tokenize_from_end fuel p = refl

tokenize_from-source_of :
    (fuel : ℕ) (xs : List Lexeme) (p : Position)
    → AllFit xs
    → length (source_of xs) < fuel
    → tokenize_from fuel (record { rest = source_of xs; at = p }) ≡ done (tokens xs p)
unfolding tokens source_of
tokenize_from-source_of zero xs p h k = absurd (omega arith)
tokenize_from-source_of (suc fuel) [] p h k = tokenize_from_end fuel p
tokenize_from-source_of (suc zero) (x ∷ xs) p h k =
    absurd (omega (arith, ReadsLexeme-length x _ _ p (lexeme_reads x (source_of xs) p h.0)))
tokenize_from-source_of (suc (suc fuel)) (x ∷ xs) p h k =
    let reads = lexeme_reads x (source_of xs) p h.0 in
    let shorter = ReadsLexeme-length x (written x (b' ' ∷ source_of xs)) _ p reads in
    lexeme_step fuel x (source_of xs) (written x (b' ' ∷ source_of xs)) p _ reads
      (source_of-NoBlank xs h.1)
      (tokenize_from-source_of fuel xs (right_of 1 (end_of x p)) h.1 (omega arith))

-- What the parser reads of a token.
abbrev pub shown : Token → ℕ × Value
shown t = (t.type, t.value)

shown-tokens :
    (xs : List Lexeme) (p : Position)
    → map shown (tokens xs p) ≡ map meaning xs ++ (tt_eof, no_value) ∷ []
unfolding tokens new_token
shown-tokens [] p = refl
shown-tokens (x ∷ xs) p = ap (λ ts. meaning x ∷ ts) (shown-tokens xs (right_of 1 (end_of x p)))

-- A source made of decimal numbers, strings in double quotes, and names, each written out and with a
-- blank after it, is tokenized without an error, and its tokens are those of the lexemes, in that
-- order, and EOF: a number with its value, a string with its text, and a name with itself, or with
-- the type of the keyword that it is. The condition is that a name is a letter or an underscore with
-- letters, digits and underscores after it.
pub tokenize-source_of :
    (xs : List Lexeme)
    → AllFit xs
    → (ts : List Token) × (tokenize (source_of xs) ≡ done ts)
      × (map shown ts ≡ map meaning xs ++ (tt_eof, no_value) ∷ [])
unfolding tokenize
tokenize-source_of xs h =
    let p : Position = record { line = 1; column = 1 } in
    (
      tokens xs p,
      tokenize_from-source_of (suc (length (source_of xs))) xs p h (omega arith),
      shown-tokens xs p,
    )
