-- ===== src/Compiler/Lexer/Strings.antt =====
-- The readers of strings, characters and identifiers of compiler/lexer.py go forward.
use poodillion.Prelude.{
  ℕ, suc, ◌&&◌, ◌≡◌, ◌≢◌, inl, inr, [], ◌∷◌, ◌==◌, nat_eq, Text, arith, Bool-cases,
}
use poodillion.Compiler.Lexer.Cursor.{
  LexError, Outcome, done, raises, index_error, out_of_fuel, newline, backslash, Position, Lexer,
  move,
}
use poodillion.Compiler.Lexer.Literals.{
  hex_pair, put, put_outcome, triple_loop, string_round, string_loop, escape_of,
}
use poodillion.Compiler.Lexer.Readers.{Goes-cons}
use poodillion.Compiler.Lexer.Progress.{IsPlace, move-After, After-trans, Goes, Outcome-cases}

put-Goes :
    (c n : ℕ) (r : Text) (p : Position) (o : Outcome (Text × Lexer))
    → Goes n r p o
    → Goes n r p (put c o)
put-Goes c n r p (raises e) h = h
put-Goes c n r p (done (s, l)) h = h

Goes-less {ℓ} :
    {A : Type ℓ} (n : ℕ) (r : Text) (p : Position) (o : Outcome (A × Lexer))
    → Goes (suc n) r p o
    → Goes n r p o
Goes-less n r p (raises e) h = h
Goes-less n r p (done (a, l)) h = (omega (arith, h.0), h.1)

-- Further characters before what goes on.
pub Goes-on {ℓ} :
    {A : Type ℓ} (c : ℕ) (r : Text) (p : Position) (o : Outcome (A × Lexer))
    → IsPlace p
    → (IsPlace (move c p) → Goes 1 r (move c p) o)
    → Goes 1 (c ∷ r) p o
Goes-on c r p o h g = Goes-less 1 (c ∷ r) p o (Goes-cons c 1 r p o h g)

pub triple_loop-Goes :
    (quote : ℕ) (r : Text) (p : Position) → IsPlace p → Goes 1 r p (triple_loop quote r p)
unfolding triple_loop
triple_loop-Goes quote [] p h = λ k. cc
triple_loop-Goes quote (c ∷ []) p h = elim (Bool-cases (c == quote && b' ' == quote)) [
  | inl e ↦ rw e (omega arith, move-After c p h)
  | inr e ↦ rw e (λ k. cc)
]
triple_loop-Goes quote (c ∷ d ∷ []) p h =
    elim (Bool-cases (c == quote && d == quote && b' ' == quote)) [
      | inl e ↦ rw e (
        omega arith,
        After-trans p (move c p) _ (move-After c p h) (λ q. move-After d (move c p) q),
      )
      | inr e ↦ rw e (λ k. cc)
    ]
triple_loop-Goes quote (c ∷ d ∷ e ∷ r) p h =
    let end = move e (move d (move c p)) in
    elim (Bool-cases (c == quote && d == quote && e == quote)) [
      | inl q ↦ rw q (
        omega arith,
        After-trans p (move c p) end (move-After c p h) (λ k.
            After-trans (move c p) (move d (move c p)) end (move-After d (move c p) k)
              (λ m. move-After e (move d (move c p)) m)),
      )
      | inr q ↦
          let more = triple_loop quote (d ∷ e ∷ r) (move c p) in
          rw q (
            put-Goes c 1 (c ∷ d ∷ e ∷ r) p more (
              Goes-on c (d ∷ e ∷ r) p more h
                (λ k. triple_loop-Goes quote (d ∷ e ∷ r) (move c p) k)))
    ]

string_round-Goes :
    (quote c esc : ℕ) (r : Text) (p : Position) (plain escaped hex : Outcome (Text × Lexer))
    → IsPlace p
    → Goes 1 (c ∷ esc ∷ r) p plain
    → Goes 1 (c ∷ esc ∷ r) p escaped
    → Goes 1 (c ∷ esc ∷ r) p hex
    → Goes 1 (c ∷ esc ∷ r) p (string_round quote c esc r p plain escaped hex)
string_round-Goes quote c esc r p plain escaped hex h a b x = elim (Bool-cases (c == quote)) [
  | inl e ↦ rw e (omega arith, move-After c p h)
  | inr e ↦ rw e (elim (Bool-cases (c == newline)) [
    | inl f ↦ rw f (λ k. cc)
    | inr f ↦ rw f (elim (Bool-cases (c == backslash)) [
      | inl g ↦ rw g (elim (Bool-cases (esc == b'x')) [
        | inl i ↦ rw i x
        | inr i ↦ rw i (put-Goes (escape_of esc) 1 (c ∷ esc ∷ r) p escaped b)
      ])
      | inr g ↦ rw g (put-Goes c 1 (c ∷ esc ∷ r) p plain a)
    ])
  ])
]

hex_pair-value_error : (h k : ℕ) (e : LexError) → hex_pair h k ≡ raises e → e ≢ out_of_fuel
unfolding hex_pair
hex_pair-value_error h k e q w = ground arith

put_outcome-Goes :
    (n h k : ℕ) (r : Text) (p : Position) (o : Outcome (Text × Lexer))
    → Goes n r p o
    → Goes n r p (put_outcome (hex_pair h k) o)
put_outcome-Goes n h k r p o g = elim (Outcome-cases (hex_pair h k)) [
  | inl (e, q) ↦ rw (q, put_outcome) (hex_pair-value_error h k e q)
  | inr (c, q) ↦ rw (q, put_outcome) (put-Goes c n r p o g)
]

pub string_loop-Goes :
    (quote : ℕ) (r : Text) (p : Position) → IsPlace p → Goes 1 r p (string_loop quote r p)
unfolding string_loop
string_loop-Goes quote [] p h = λ k. cc
string_loop-Goes quote (c ∷ []) p h = elim (Bool-cases (c == quote)) [
  | inl e ↦ rw e (omega arith, move-After c p h)
  | inr e ↦
      rw e (elim (Bool-cases (c == newline)) [ inl f ↦ rw f (λ k. cc) | inr f ↦ rw f (λ k. cc) ])
]
string_loop-Goes quote (c ∷ d ∷ []) p h =
    string_round-Goes quote c d [] p (string_loop quote (d ∷ []) (move c p))
      (string_loop quote [] (move d (move c p))) (raises index_error) h
      (Goes-on c (d ∷ []) p (string_loop quote (d ∷ []) (move c p)) h
        (λ k. string_loop-Goes quote (d ∷ []) (move c p) k))
      (λ k. cc) (λ k. cc)
string_loop-Goes quote (c ∷ d ∷ e ∷ []) p h =
    let escaped = string_loop quote (e ∷ []) (move d (move c p)) in
    string_round-Goes quote c d (e ∷ []) p (string_loop quote (d ∷ e ∷ []) (move c p)) escaped
      (raises index_error) h
      (Goes-on c (d ∷ e ∷ []) p (string_loop quote (d ∷ e ∷ []) (move c p)) h
        (λ k. string_loop-Goes quote (d ∷ e ∷ []) (move c p) k))
      (Goes-on c (d ∷ e ∷ []) p escaped h (λ k.
        Goes-on d (e ∷ []) (move c p) escaped k
          (λ m. string_loop-Goes quote (e ∷ []) (move d (move c p)) m)))
      (λ k. cc)
string_loop-Goes quote (c ∷ d ∷ e ∷ f ∷ r) p h =
    let p2 = move d (move c p) in
    let escaped = string_loop quote (e ∷ f ∷ r) p2 in
    let rest = string_loop quote r (move f (move e p2)) in
    string_round-Goes quote c d (e ∷ f ∷ r) p (string_loop quote (d ∷ e ∷ f ∷ r) (move c p)) escaped
      (put_outcome (hex_pair e f) rest) h
      (Goes-on c (d ∷ e ∷ f ∷ r) p (string_loop quote (d ∷ e ∷ f ∷ r) (move c p)) h
        (λ k. string_loop-Goes quote (d ∷ e ∷ f ∷ r) (move c p) k))
      (Goes-on c (d ∷ e ∷ f ∷ r) p escaped h (λ k.
        Goes-on d (e ∷ f ∷ r) (move c p) escaped k (λ m. string_loop-Goes quote (e ∷ f ∷ r) p2 m)))
      (put_outcome-Goes 1 e f (c ∷ d ∷ e ∷ f ∷ r) p rest (
        Goes-on c (d ∷ e ∷ f ∷ r) p rest h (λ k. Goes-on d (e ∷ f ∷ r) (move c p) rest k (λ m.
          Goes-on e (f ∷ r) p2 rest m (λ n.
            Goes-on f r (move e p2) rest n
              (λ i. string_loop-Goes quote r (move f (move e p2)) i))))))
