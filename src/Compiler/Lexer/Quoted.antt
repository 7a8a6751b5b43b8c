-- ===== src/Compiler/Lexer/Quoted.antt =====
-- Strings, characters and identifiers of compiler/lexer.py: the token stands between the places where
-- its reader begins and ends.
use poodillion.Prelude.{
  ℕ, ◌≤◌, Bool, true, ◌&&◌, ◌||◌, ◌≡◌, inl, inr, [], ◌∷◌, ◌==◌, nat_eq, length, Text, if◌then◌else◌,
  arith, Bool-cases,
}
use poodillion.Compiler.Lexer.Kinds.{tt_string, tt_fstring, tt_char_lit}
use poodillion.Compiler.Lexer.Cursor.{
  Outcome, done, raises, backslash, underscore, Position, Lexer, word, move, advance, span,
  is_alpha, is_alnum,
}
use poodillion.Compiler.Lexer.Literals.{
  triple_loop, string_loop, string_token, read_string, read_char, read_identifier, escape_of,
}
use poodillion.Compiler.Lexer.Tokens.{one}
use poodillion.Compiler.Lexer.Readers.{Reads-done}
use poodillion.Compiler.Lexer.Strings.{Goes-on, triple_loop-Goes, string_loop-Goes}
use poodillion.Compiler.Lexer.Progress.{
  IsPlace, After, Upto-refl, move-After, After-trans, Goes, span_goes_one, Reads,
}

string_token-Reads :
    (is_fstring : Bool) (n : ℕ) (r : Text) (p : Position) (o : Outcome (Text × Lexer))
    → Goes n r p o
    → Reads n r p (one (string_token is_fstring p o))
string_token-Reads is_fstring n r p (raises e) h = h
string_token-Reads is_fstring n r p (done (s, l)) h =
    Reads-done n r (if is_fstring then tt_fstring else tt_string) (word s) p l h.0 h.1

pub read_string-Reads :
    (is_fstring : Bool) (c : ℕ) (r : Text) (p : Position)
    → IsPlace p
    → Reads 1 (c ∷ r) p (one (read_string is_fstring (c ∷ r) p))
unfolding read_string advance
read_string-Reads is_fstring quote [] p h = λ k. cc
read_string-Reads is_fstring quote (c ∷ []) p h = elim (Bool-cases (c == quote && b' ' == quote)) [
  | inl e ↦
      let o = triple_loop quote [] (move c (move quote p)) in
      rw e (
        string_token-Reads is_fstring 1 (quote ∷ c ∷ []) p o (
          Goes-on quote (c ∷ []) p o h (λ k.
            Goes-on c [] (move quote p) o k
              (λ m. triple_loop-Goes quote [] (move c (move quote p)) m))))
  | inr e ↦
      let o = string_loop quote (c ∷ []) (move quote p) in
      rw e (
        string_token-Reads is_fstring 1 (quote ∷ c ∷ []) p o
          (Goes-on quote (c ∷ []) p o h (λ k. string_loop-Goes quote (c ∷ []) (move quote p) k)))
]
read_string-Reads is_fstring quote (c ∷ d ∷ r) p h = elim (Bool-cases (c == quote && d == quote)) [
  | inl e ↦
      let o = triple_loop quote r (move d (move c (move quote p))) in
      rw e (
        string_token-Reads is_fstring 1 (quote ∷ c ∷ d ∷ r) p o (
          Goes-on quote (c ∷ d ∷ r) p o h (λ k. Goes-on c (d ∷ r) (move quote p) o k (λ m.
            Goes-on d r (move c (move quote p)) o m
              (λ n. triple_loop-Goes quote r (move d (move c (move quote p))) n)))))
  | inr e ↦
      let o = string_loop quote (c ∷ d ∷ r) (move quote p) in
      rw e (
        string_token-Reads is_fstring 1 (quote ∷ c ∷ d ∷ r) p o (
          Goes-on quote (c ∷ d ∷ r) p o h
            (λ k. string_loop-Goes quote (c ∷ d ∷ r) (move quote p) k)))
]

alnum_of_alpha :
    (c : ℕ) → (is_alpha c || c == underscore) ≡ true → (is_alnum c || c == underscore) ≡ true
unfolding is_alnum
alnum_of_alpha c e = ground (arith, Bool-cases (is_alpha c))

-- The rest of the source after `advance`.
pub advance_goes :
    (r : Text) (p : Position)
    → IsPlace p
    → (length (advance (record { rest = r; at = p })).rest ≤ length r)
      × After p (advance (record { rest = r; at = p })).at
unfolding advance
advance_goes [] p h = (omega arith, (Upto-refl p, h))
advance_goes (c ∷ r) p h = (omega arith, move-After c p h)

pub read_char-Reads :
    (c : ℕ) (r : Text) (p : Position) → IsPlace p → Reads 1 (c ∷ r) p (one (read_char (c ∷ r) p))
unfolding read_char
read_char-Reads q [] p h = λ k. cc
read_char-Reads q (c ∷ []) p h =
    let first = move-After q p h in
    let both = After-trans p (move q p) _ first (λ k. move-After c (move q p) k) in
    let (less, on) = advance_goes [] (move c (move q p)) both.1 in
    elim (Bool-cases (c == backslash)) [
      | inl e ↦ rw e (λ k. cc)
      | inr e ↦ rw e (
          Reads-done 1 (q ∷ c ∷ []) tt_char_lit (word (c ∷ [])) p
            (advance (record { rest = []; at = move c (move q p) })) (omega arith)
            (After-trans p (move c (move q p)) _ both (λ k. on)))
    ]
read_char-Reads q (c ∷ d ∷ r) p h =
    let first = move-After q p h in
    let both = After-trans p (move q p) _ first (λ k. move-After c (move q p) k) in
    elim (Bool-cases (c == backslash)) [
      | inl e ↦
          let after = move d (move c (move q p)) in
          let three =
            After-trans p (move c (move q p)) after both
              (λ k. move-After d (move c (move q p)) k) in
          let (less, on) = advance_goes r after three.1 in
          rw e (
            Reads-done 1 (q ∷ c ∷ d ∷ r) tt_char_lit (word (escape_of d ∷ [])) p
              (advance (record { rest = r; at = after })) (omega arith)
              (After-trans p after _ three (λ k. on)))
      | inr e ↦
          let (less, on) = advance_goes (d ∷ r) (move c (move q p)) both.1 in
          rw e (
            Reads-done 1 (q ∷ c ∷ d ∷ r) tt_char_lit (word (c ∷ [])) p
              (advance (record { rest = d ∷ r; at = move c (move q p) })) (omega arith)
              (After-trans p (move c (move q p)) _ both (λ k. on)))
    ]

pub read_identifier-Reads :
    (c : ℕ) (r : Text) (p : Position)
    → IsPlace p
    → (is_alpha c || c == underscore) ≡ true
    → Reads 1 (c ∷ r) p (one (done (read_identifier (c ∷ r) p)))
unfolding read_identifier
read_identifier-Reads c r p h e =
    let t = (is_alnum c || c == underscore) in
    let letter : t ≡ true = alnum_of_alpha c e in
    let (less, on) = span_goes_one (λ x. is_alnum x || x == underscore) c r p h letter in
    Reads-done 1 (c ∷ r) _ _ p (span (λ x. is_alnum x || x == underscore) (c ∷ r) p).1 less on
