-- ===== src/Compiler/Lexer/Readers.antt =====
-- The readers of literals of compiler/lexer.py go forward: they end after they began.
use poodillion.Prelude.{
  ℕ, suc, ◌+◌, ◌≤◌, Bool, true, not, ◌&&◌, ◌||◌, ◌≡◌, ◌≢◌, inl, inr, refl, [], ◌∷◌, ◌==◌, nat_eq,
  length, Text, arith, keep, Bool-cases,
}
use poodillion.Compiler.Lexer.Kinds.{tt_number}
use poodillion.Compiler.Lexer.Cursor.{
  LexError, Outcome, done, raises, out_of_fuel, underscore, Position, Lexer, Value, number,
  new_token, move, span, is_hex, is_digit,
}
use poodillion.Compiler.Lexer.Literals.{int_of, read_digits, read_prefixed, read_number}
use poodillion.Compiler.Lexer.Tokens.{one}
use poodillion.Compiler.Lexer.Progress.{
  IsPlace, After, move-After, After-trans, Goes, span_goes, span_goes_one, new_token-Ordered, Reads,
  Outcome-cases,
}

-- One more character before what goes on.
pub Goes-cons {ℓ} :
    {A : Type ℓ} (c n : ℕ) (r : Text) (p : Position) (o : Outcome (A × Lexer))
    → IsPlace p
    → (IsPlace (move c p) → Goes n r (move c p) o)
    → Goes (suc n) (c ∷ r) p o
Goes-cons c n r p (raises e) h g = g (move-After c p h).1
Goes-cons c n r p (done (a, l)) h g =
    let step = move-After c p h in
    let (less, on) = g step.1 in (omega arith, After-trans p (move c p) l.at step (λ q. on))

pub Reads-done :
    (n : ℕ) (r : Text) (type : ℕ) (v : Value) (p : Position) (l : Lexer)
    → length l.rest + n ≤ length r
    → After p l.at
    → Reads n r p (one (done (new_token type v p l.at, l)))
Reads-done n r type v p l h k = (h, (new_token-Ordered type v p l.at k, k.1))

pub int_of-value_error :
    (base : ℕ) (s : Text) (e : LexError) → int_of base s ≡ raises e → e ≢ out_of_fuel
unfolding int_of
int_of-value_error base [] e h k = cc
int_of-value_error base (c ∷ s) e h k = cc

-- A number of digits, where its loop has passed `n` characters.
read_digits-Reads :
    (n base : ℕ) (test : ℕ → Bool) (start : Position) (r : Text) (p : Position) (whole : Text)
    → (length (span (λ c. test c || c == underscore) r p).1.rest + n ≤ length whole)
      × After start (span (λ c. test c || c == underscore) r p).1.at
    → Reads n whole start (one (read_digits base test start r p))
unfolding read_digits
read_digits-Reads n base test start r p whole h =
    let got = span (λ c. test c || c == underscore) r p in
    let o = int_of base (keep (λ c. not (c == underscore)) got.0) in
    elim (Outcome-cases o) [
      | inl (e, q) ↦ rw (q, Reads) (int_of-value_error base _ e q)
      | inr (k, q) ↦ rw (q, Reads) (Reads-done n whole tt_number (number k) start got.1 h.0 h.1)
    ]

read_prefixed-Reads :
    (base : ℕ) (test : ℕ → Bool) (b x : ℕ) (r : Text) (p : Position)
    → IsPlace p
    → Reads 1 (b ∷ x ∷ r) p (one (read_prefixed base test p r (move x (move b p))))
unfolding read_prefixed
read_prefixed-Reads base test b x [] p h = λ k. cc
read_prefixed-Reads base test b x (c ∷ r) p h =
    let first = move-After b p h in
    let second = move-After x (move b p) first.1 in
    let start = After-trans p (move b p) _ first (λ q. second) in
    let (less, on) =
      span_goes (λ y. test y || y == underscore) (c ∷ r) (move x (move b p)) second.1 in
    read_digits-Reads 1 base test p (c ∷ r) (move x (move b p)) (b ∷ x ∷ c ∷ r)
      (omega arith, After-trans p (move x (move b p)) _ start (λ q. on))

decimal-Reads :
    (c : ℕ) (r : Text) (p : Position)
    → IsPlace p
    → is_digit c ≡ true
    → Reads 1 (c ∷ r) p (one (read_digits 10 is_digit p (c ∷ r) p))
decimal-Reads c r p h d =
    read_digits-Reads 1 10 is_digit p (c ∷ r) p (c ∷ r)
      (span_goes_one (λ y. is_digit y || y == underscore) c r p h (rw d refl))

pub read_number-Reads :
    (c : ℕ) (r : Text) (p : Position)
    → IsPlace p
    → is_digit c ≡ true
    → Reads 1 (c ∷ r) p (one (read_number (c ∷ r) p))
unfolding read_number
read_number-Reads c [] p h d = decimal-Reads c [] p h d
read_number-Reads c (x ∷ r) p h d = elim (Bool-cases (c == b'0' && (x == b'x' || x == b'X'))) [
  | inl e ↦ rw e (read_prefixed-Reads 16 is_hex c x r p h)
  | inr e ↦ rw e (elim (Bool-cases (c == b'0' && (x == b'b' || x == b'B'))) [
    | inl f ↦ rw f (read_prefixed-Reads 2 _ c x r p h)
    | inr f ↦ rw f (elim (Bool-cases (c == b'0' && (x == b'o' || x == b'O'))) [
      | inl g ↦ rw g (read_prefixed-Reads 8 _ c x r p h)
      | inr g ↦ rw g (decimal-Reads c (x ∷ r) p h d)
    ])
  ])
]
