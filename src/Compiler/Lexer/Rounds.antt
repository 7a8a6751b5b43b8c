-- ===== src/Compiler/Lexer/Rounds.antt =====
-- Every round of `tokenize` of compiler/lexer.py passes a character, and its token stands between
-- the places where the round begins and ends.
use poodillion.Prelude.{
  ℕ, zero, suc, ◌+◌, ◌≤◌, Bool, true, false, not, ◌||◌, ◌≡◌, inl, inr, refl, none, some, List, [],
  ◌∷◌, ◌==◌, nat_eq, length, Text, if◌then◌else◌, arith, Bool-cases, Option-cases,
}
use poodillion.Compiler.Lexer.Kinds.{tt_newline}
use poodillion.Compiler.Lexer.Cursor.{
  Outcome, done, raises, newline, backslash, double_quote, no_value, underscore, Position, Lexer,
  Token, new_token, move, advance, head_or_space, tail, span, is_digit, is_alpha,
}
use poodillion.Compiler.Lexer.Literals.{read_number, read_string, read_char, read_identifier}
use poodillion.Compiler.Lexer.Tokens.{
  one, operator, char_ahead, is_quote, is_prefix, drift, read_quoted, advance_by, read_operator,
  is_blank, round,
}
use poodillion.Compiler.Lexer.Readers.{Reads-done, read_number-Reads}
use poodillion.Compiler.Lexer.Quoted.{
  read_string-Reads, read_char-Reads, read_identifier-Reads, advance_goes,
}
use poodillion.Compiler.Lexer.Progress.{
  Upto, IsPlace, After, Upto-refl, move-After, After-trans, span_goes_one, Ordered-from, Reads,
}

Reads-from :
    (n : ℕ) (r : Text) (p q : Position) (o : Outcome (List Token × Lexer))
    → Upto p q
    → Reads n r q o
    → Reads n r p o
Reads-from n r p q (raises e) u h = h
Reads-from n r p q (done (ts, l)) u h = (h.0, (Ordered-from p q ts l.at u h.1.0, h.1.1))

Reads-cons :
    (n c : ℕ) (r : Text) (p : Position) (o : Outcome (List Token × Lexer))
    → IsPlace p
    → Reads n r (move c p) o
    → Reads n (c ∷ r) p o
Reads-cons n c r p (raises e) k h = h
Reads-cons n c r p (done (ts, l)) k h =
    (omega (arith, h.0), (Ordered-from p (move c p) ts l.at (move-After c p k).0 h.1.0, h.1.1))

drift-Upto : (n : ℕ) (p : Position) → Upto p (drift n p)
drift-Upto zero p = inr (omega arith, omega arith)
drift-Upto (suc n) p = inl (omega arith)

drift-IsPlace : (n : ℕ) (p : Position) → IsPlace p → IsPlace (drift n p)
drift-IsPlace n p h = (omega arith, h.1)

read_quoted-Reads :
    (c : ℕ) (r : Text) (p : Position) → IsPlace p → Reads 1 (c ∷ r) p (one (read_quoted c r p))
unfolding read_quoted
read_quoted-Reads c r p h = elim (Bool-cases (c == double_quote)) [
  | inl e ↦ rw e (read_string-Reads false c r p h)
  | inr e ↦
      let n = (char_ahead r).1 in
      let q = drift n p in
      let k = drift-IsPlace n p h in
      rw e (elim (Bool-cases (char_ahead r).0) [
        | inl f ↦ rw f (
            Reads-from 1 (c ∷ r) p q (one (read_char (c ∷ r) q)) (drift-Upto n p)
              (read_char-Reads c r q k))
        | inr f ↦ rw f (
            Reads-from 1 (c ∷ r) p q (one (read_string false (c ∷ r) q)) (drift-Upto n p)
              (read_string-Reads false c r q k))
      ])
]

-- A string after its prefix.
prefixed-Reads :
    (is_fstring : Bool) (c : ℕ) (r : Text) (p : Position)
    → IsPlace p
    → Reads 1 (c ∷ r) p (one (read_string is_fstring r (move c p)))
unfolding read_string
prefixed-Reads is_fstring c [] p h = λ k. cc
prefixed-Reads is_fstring c (d ∷ r) p h =
    Reads-cons 1 c (d ∷ r) p (one (read_string is_fstring (d ∷ r) (move c p))) h
      (read_string-Reads is_fstring d r (move c p) (move-After c p h).1)

advance_by_goes :
    (n : ℕ) (l : Lexer)
    → IsPlace l.at
    → (length (advance_by n l).rest ≤ length l.rest) × After l.at (advance_by n l).at
unfolding advance_by
advance_by_goes zero l h = (omega arith, (Upto-refl l.at, h))
advance_by_goes (suc n) l h =
    let first = advance_goes l.rest l.at h in
    let (less, on) = advance_by_goes n (advance l) first.1.1 in
    (omega (arith, first.0), After-trans l.at (advance l).at _ first.1 (λ k. on))

operator_pos : (c d e n type : ℕ) → operator c d e ≡ some (n, type) → 1 ≤ n
unfolding operator
operator_pos c d e n type h = ground arith

operator-Reads :
    (n type c : ℕ) (r : Text) (p : Position)
    → IsPlace p
    → 1 ≤ n
    → Reads 1 (c ∷ r) p (
        one (
          done (
            new_token type no_value p (advance_by n (record { rest = c ∷ r; at = p })).at,
            advance_by n (record { rest = c ∷ r; at = p }),
          )))
unfolding advance_by
operator-Reads zero type c r p h k = absurd (omega arith)
operator-Reads (suc n) type c r p h k =
    let l : Lexer = record { rest = r; at = move c p } in
    let first = move-After c p h in
    let (less, on) = advance_by_goes n l first.1 in
    Reads-done 1 (c ∷ r) type no_value p (advance_by n l) (omega arith)
      (After-trans p (move c p) _ first (λ q. on))

-- A step that appends no token.
Reads-nothing :
    (n : ℕ) (r : Text) (p : Position) (l : Lexer)
    → length l.rest + n ≤ length r
    → After p l.at
    → Reads n r p (done ([], l))
Reads-nothing n r p l h k = (h, k)

advance_if_goes :
    (b : Bool) (l : Lexer)
    → IsPlace l.at
    → (length (if b then advance l else l).rest ≤ length l.rest)
      × After l.at (if b then advance l else l).at
advance_if_goes true l h = advance_goes l.rest l.at h
advance_if_goes false l h = (omega arith, (Upto-refl l.at, h))

backslash-Reads :
    (c : ℕ) (r : Text) (p : Position)
    → IsPlace p
    → operator c (head_or_space r) (head_or_space (tail r)) ≡ none
    → Reads 1 (c ∷ r) p (read_operator c r p)
unfolding read_operator
backslash-Reads c [] p h o =
    rw (o, Reads)
      (elim (Bool-cases (c == backslash)) [ inl e ↦ rw e (λ k. cc) | inr e ↦ rw e (λ k. cc) ])
backslash-Reads c (d ∷ r) p h o =
    rw (o, Reads)
      (elim (Bool-cases (c == backslash)) [
        | inl e ↦
            let first = move-After c p h in
            let l : Lexer = record { rest = d ∷ r; at = move c p } in
            let (less, on) = advance_if_goes (d == newline) l first.1 in
            rw e (
              Reads-nothing 1 (c ∷ d ∷ r) p (if d == newline then advance l else l) (omega arith)
                (After-trans p (move c p) _ first (λ q. on)))
        | inr e ↦ rw e (λ k. cc)
      ])

read_operator-Reads :
    (c : ℕ) (r : Text) (p : Position) → IsPlace p → Reads 1 (c ∷ r) p (read_operator c r p)
unfolding read_operator
read_operator-Reads c r p h =
    elim (Option-cases (operator c (head_or_space r) (head_or_space (tail r)))) [
      | inl e ↦ backslash-Reads c r p h e
      | inr ((n, type), e) ↦
          rw (e, Reads)
            (operator-Reads n type c r p h
              (operator_pos c (head_or_space r) (head_or_space (tail r)) n type e))
    ]

spaces_read :
    (test : ℕ → Bool) (c : ℕ) (r : Text) (p : Position)
    → IsPlace p
    → test c ≡ true
    → Reads 1 (c ∷ r) p (done ([], (span test (c ∷ r) p).1))
spaces_read test c r p h e =
    let (less, on) = span_goes_one test c r p h e in
    Reads-nothing 1 (c ∷ r) p (span test (c ∷ r) p).1 less on

if-Reads :
    (b : Bool) (n : ℕ) (r : Text) (p : Position) (x y : Outcome (List Token × Lexer))
    → (b ≡ true → Reads n r p x)
    → (b ≡ false → Reads n r p y)
    → Reads n r p (if b then x else y)
if-Reads true n r p x y h k = h refl
if-Reads false n r p x y h k = k refl

-- The rest of the tests of a round.
word-Reads :
    (c : ℕ) (r : Text) (p : Position)
    → IsPlace p
    → Reads 1 (c ∷ r) p (
        if is_prefix b'f' b'F' c (head_or_space r)
        then one (read_string true r (move c p))
        else if is_prefix b'r' b'R' c (head_or_space r) || is_prefix b'b' b'B' c (head_or_space r)
        then one (read_string false r (move c p))
        else if is_digit c
        then one (read_number (c ∷ r) p)
        else if is_quote c
        then one (read_quoted c r p)
        else if is_alpha c || c == underscore
        then one (done (read_identifier (c ∷ r) p))
        else read_operator c r p)
word-Reads c r p h =
    let d = head_or_space r in
    if-Reads (is_prefix b'f' b'F' c d) 1 (c ∷ r) p _ _ (λ e. prefixed-Reads true c r p h)
      (λ e.
        if-Reads (is_prefix b'r' b'R' c d || is_prefix b'b' b'B' c d) 1 (c ∷ r) p _ _
          (λ f. prefixed-Reads false c r p h)
          (λ f.
            if-Reads (is_digit c) 1 (c ∷ r) p _ _ (λ g. read_number-Reads c r p h g)
              (λ g.
                if-Reads (is_quote c) 1 (c ∷ r) p _ _ (λ k. read_quoted-Reads c r p h)
                  (λ k.
                    if-Reads (is_alpha c || c == underscore) 1 (c ∷ r) p _ _
                      (λ m. read_identifier-Reads c r p h m) (λ m. read_operator-Reads c r p h)))))

pub round-Reads : (c : ℕ) (r : Text) (p : Position) → IsPlace p → Reads 1 (c ∷ r) p (round c r p)
unfolding round
round-Reads c r p h =
    if-Reads (c == newline) 1 (c ∷ r) p _ _
      (λ e.
        Reads-done 1 (c ∷ r) tt_newline no_value p (record { rest = r; at = move c p })
          (omega arith) (move-After c p h))
      (λ other.
        if-Reads (is_blank c) 1 (c ∷ r) p _ _ (λ e. spaces_read is_blank c r p h e)
          (λ e.
            if-Reads (c == b'#') 1 (c ∷ r) p _ _
              (λ f. spaces_read (λ x. not (x == newline)) c r p h (rw other refl))
              (λ f. word-Reads c r p h)))
