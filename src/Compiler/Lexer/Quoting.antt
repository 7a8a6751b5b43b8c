-- ===== src/Compiler/Lexer/Quoting.antt =====
-- A text between quotes, written with the escapes of compiler/lexer.py, and `read_string` of it.
use poodillion.Prelude.{
  ℕ, ◌+◌, ◌≤◌, Bool, true, false, ◌&&◌, ◌||◌, ◌≡◌, ◌≢◌, inl, inr, refl, [], ◌∷◌, ◌==◌, nat_eq,
  length, Text, if◌then◌else◌, arith, Bool-cases, ==_iff,
}
use poodillion.Compiler.Lexer.Kinds.{tt_string}
use poodillion.Compiler.Lexer.Cursor.{
  done, newline, backslash, Position, word, new_token, move, head_or_space, tail,
}
use poodillion.Compiler.Lexer.Literals.{put, string_loop, string_token, escape_of, read_string}
use poodillion.Compiler.Lexer.Tokens.{is_quote}
use poodillion.Compiler.Lexer.Columns.{right_of, right_of-right_of, move-right, test_false}

-- How a character is written between two `quote`s.
abbrev escaped : ℕ → ℕ → Text → Text
escaped quote c s =
    if c == newline
    then backslash ∷ b'n' ∷ s
    else if c == quote || c == backslash
    then backslash ∷ c ∷ s
    else c ∷ s

-- `s` as it is written after the opening quote, the closing quote, and `rest`.
unfoldable pub quoted : ℕ → Text → Text → Text
quoted quote [] rest = quote ∷ rest
quoted quote (c ∷ s) rest = escaped quote c (quoted quote s rest)

-- The number of columns that this takes.
unfoldable pub columns : ℕ → Text → ℕ
columns quote [] = 1
columns quote (c ∷ s) =
    (if c == newline || c == quote || c == backslash then 2 else 1) + columns quote s

loop_end :
    (quote : ℕ) (r : Text) (p : Position)
    → string_loop quote (quote ∷ r) p ≡ done ([], record { rest = r; at = move quote p })
unfolding string_loop
loop_end quote [] p = rw ((==_iff quote quote).1 refl) refl
loop_end quote (c ∷ []) p = rw ((==_iff quote quote).1 refl) refl
loop_end quote (c ∷ d ∷ []) p = rw ((==_iff quote quote).1 refl) refl
loop_end quote (c ∷ d ∷ e ∷ r) p = rw ((==_iff quote quote).1 refl) refl

-- One character that is written as it is, before the closing quote.
loop_plain :
    (quote c : ℕ) (r : Text) (p : Position)
    → (c == quote) ≡ false
    → (c == newline) ≡ false
    → (c == backslash) ≡ false
    → 1 ≤ length r
    → string_loop quote (c ∷ r) p ≡ put c (string_loop quote r (move c p))
unfolding string_loop
loop_plain quote c [] p e f g h = absurd (omega arith)
loop_plain quote c (d ∷ []) p e f g h = rw (e, f, g) refl
loop_plain quote c (d ∷ k ∷ []) p e f g h = rw (e, f, g) refl
loop_plain quote c (d ∷ k ∷ l ∷ r) p e f g h = rw (e, f, g) refl

-- One character that is written with a backslash.
loop_escaped :
    (quote c : ℕ) (r : Text) (p : Position)
    → (backslash == quote) ≡ false
    → (c == b'x') ≡ false
    → string_loop quote (backslash ∷ c ∷ r) p
      ≡ put (escape_of c) (string_loop quote r (move c (move backslash p)))
unfolding string_loop nat_eq
loop_escaped quote c [] p e f = rw (e, f) refl
loop_escaped quote c (h ∷ []) p e f = rw (e, f) refl
loop_escaped quote c (h ∷ k ∷ r) p e f = rw (e, f) refl

two_right :
    (c : ℕ) (p : Position) → (c == newline) ≡ false → move c (move backslash p) ≡ right_of 2 p
two_right c p e =
    rw
      (
        move-right backslash p (test_false 92 10 (λ h. absurd (omega (arith, h)))),
        move-right c (right_of 1 p) e,
      )
      (right_of-right_of 1 1 p)

pub quoted-pos : (quote : ℕ) (s rest : Text) → 1 ≤ length (quoted quote s rest)
unfolding quoted
quoted-pos quote [] rest = omega arith
quoted-pos quote (c ∷ s) rest = ground arith

backslash-quote : (quote : ℕ) → is_quote quote ≡ true → (backslash == quote) ≡ false
backslash-quote quote q = ground arith

-- Escapes that stand for their character.
escape_of_self :
    (quote c : ℕ)
    → is_quote quote ≡ true
    → (c == quote || c == backslash) ≡ true
    → ((c == b'x') ≡ false) × (escape_of c ≡ c)
unfolding escape_of
escape_of_self quote c q e = ground arith

or_no : (a b : Bool) → (a || b) ≡ false → (a ≡ false) × (b ≡ false)
or_no a b e = ground arith

-- The loop on one written character.
loop_character :
    (quote c : ℕ) (s rest : Text) (p : Position)
    → is_quote quote ≡ true
    → string_loop quote (escaped quote c (quoted quote s rest)) p
      ≡ put c (
          string_loop quote
            (quoted quote s rest)
            (right_of (if c == newline || c == quote || c == backslash then 2 else 1) p))
unfolding nat_eq escape_of
loop_character quote c s rest p q =
    let more = quoted quote s rest in
    let apart = backslash-quote quote q in
    elim (Bool-cases (c == newline)) [
      | inl e ↦
          rw
            (
              e,
              loop_escaped quote b'n' more p apart refl,
              two_right b'n' p refl,
              (==_iff c newline).0 e,
            )
            refl
      | inr e ↦ rw e (elim (Bool-cases (c == quote || c == backslash)) [
        | inl f ↦
            let (plain, same) = escape_of_self quote c q f in
            rw (f, loop_escaped quote c more p apart plain, same, two_right c p e) refl
        | inr f ↦
            rw
              (
                f,
                loop_plain quote c more p (or_no _ _ f).0 e (or_no _ _ f).1
                    (quoted-pos quote s rest),
                move-right c p e,
              )
              refl
      ])
    ]

loop_quoted :
    (quote : ℕ) (s rest : Text) (p : Position)
    → is_quote quote ≡ true
    → string_loop quote (quoted quote s rest) p
      ≡ done (s, record { rest = rest; at = right_of (columns quote s) p })
unfolding quoted columns
loop_quoted quote [] rest p q = rw (loop_end quote rest p, move-right quote p (ground arith)) refl
loop_quoted quote (c ∷ s) rest p q =
    let n : ℕ = (if c == newline || c == quote || c == backslash then 2 else 1) in
    rw
      (
        loop_character quote c s rest p q,
        loop_quoted quote s rest (right_of n p) q,
        right_of-right_of n (columns quote s) p,
      )
      refl

-- Whether three quotes in a row begin at the quote before `k`.
abbrev triple : ℕ → Text → Bool
triple quote k = head_or_space k == quote && head_or_space (tail k) == quote

read_string-loop :
    (is_fstring : Bool) (quote : ℕ) (k : Text) (p : Position)
    → triple quote k ≡ false
    → 1 ≤ length k
    → read_string is_fstring (quote ∷ k) p
      ≡ string_token is_fstring p (string_loop quote k (move quote p))
unfolding read_string
read_string-loop is_fstring quote [] p e h = absurd (omega arith)
read_string-loop is_fstring quote (c ∷ r) p e h = rw e refl

quoted-triple :
    (quote c : ℕ) (s rest : Text)
    → is_quote quote ≡ true
    → triple quote (quoted quote (c ∷ s) rest) ≡ false
unfolding quoted
quoted-triple quote c s rest q = ground arith

empty-triple :
    (quote : ℕ) (s rest : Text)
    → is_quote quote ≡ true
    → (s ≡ [] → head_or_space rest ≢ quote)
    → triple quote (quoted quote s rest) ≡ false
unfolding quoted
empty-triple quote [] rest q h = let k = h refl in ground (arith, k)
empty-triple quote (c ∷ s) rest q h = quoted-triple quote c s rest q

-- A text written between single or double quotes, with a backslash before a quote and before a
-- backslash and `\n` for a newline, is read back by `read_string`: a string token with that text
-- from the opening quote, the lexer behind the closing quote, on the same line. The condition is
-- that an empty text is not followed by a third quote.
pub read_string-quoted :
    (quote : ℕ) (s rest : Text) (p : Position)
    → is_quote quote ≡ true
    → (s ≡ [] → head_or_space rest ≢ quote)
    → read_string false (quote ∷ quoted quote s rest) p ≡ (
        let end = right_of (1 + columns quote s) p in
        done (new_token tt_string (word s) p end, record { rest = rest; at = end }))
read_string-quoted quote s rest p q h =
    rw
      (
        read_string-loop false quote (quoted quote s rest) p (empty-triple quote s rest q h)
            (quoted-pos quote s rest),
        move-right quote p (ground arith),
        loop_quoted quote s rest (right_of 1 p) q,
        right_of-right_of 1 (columns quote s) p,
      )
      refl
