-- ===== src/Compiler/Lexer/Progress.antt =====
-- The lexer of compiler/lexer.py goes forward: every round passes a character, and the tokens stand
-- in the order of the source.
use poodillion.Prelude.{
  ℕ, ◌+◌, ◌≤◌, ◌<◌, Bool, true, false, ◌≡◌, ◌≢◌, ◌⊎◌, inl, inr, refl, List, [], ◌∷◌, ◌++◌, ◌==◌,
  nat_eq, length, Text, arith, Bool-cases,
}
use poodillion.Compiler.Lexer.Cursor.{
  LexError, Outcome, done, raises, out_of_fuel, newline, Position, Lexer, Value, Token, new_token,
  move, span,
}

-- The order of positions in a source.
abbrev pub Upto : Position → Position → Type 0
Upto p q = (p.line < q.line) ⊎ ((p.line ≡ q.line) × (p.column ≤ q.column))

-- Lines and columns count from 1.
abbrev pub IsPlace : Position → Type 0
IsPlace p = (1 ≤ p.line) × (1 ≤ p.column)

abbrev pub After : Position → Position → Type 0
After p q = Upto p q × IsPlace q

pub Upto-refl : (p : Position) → Upto p p
Upto-refl p = inr (refl, omega arith)

pub Upto-trans : (p q r : Position) → Upto p q → Upto q r → Upto p r
Upto-trans p q r (inl a) (inl b) = inl (omega arith)
Upto-trans p q r (inl a) (inr b) = inl (omega (arith, b.0))
Upto-trans p q r (inr a) (inl b) = inl (omega (arith, a.0))
Upto-trans p q r (inr a) (inr b) = inr (omega (arith, a.0, b.0), omega (arith, a.1, b.1))

pub move-After : (c : ℕ) (p : Position) → IsPlace p → After p (move c p)
unfolding move
move-After c p h = elim (Bool-cases (c == newline)) [
  | inl e ↦ rw e (inl (omega arith), (omega arith, omega arith))
  | inr e ↦ rw e (inr (refl, omega arith), (omega (arith, h.0), omega arith))
]

pub After-trans : (p q r : Position) → After p q → (IsPlace q → After q r) → After p r
After-trans p q r a b = let c = b a.1 in (Upto-trans p q r a.0 c.0, c.1)

-- An outcome that has gone on from the source `r` at `p`, by `n` characters or more.
abbrev pub Goes {ℓ} : {A : Type ℓ} → ℕ → Text → Position → Outcome (A × Lexer) → Type 0
Goes n r p (raises e) = e ≢ out_of_fuel
Goes n r p (done (a, l)) = (length l.rest + n ≤ length r) × After p l.at

pub span_goes :
    (test : ℕ → Bool) (r : Text) (p : Position)
    → IsPlace p
    → (length (span test r p).1.rest ≤ length r) × After p (span test r p).1.at
unfolding span
span_goes test [] p h = (omega arith, (Upto-refl p, h))
span_goes test (c ∷ r) p h = elim (Bool-cases (test c)) [
  | inl e ↦
      let step = move-After c p h in
      let (less, on) = span_goes test r (move c p) step.1 in
      rw e (omega arith, After-trans p (move c p) _ step (λ q. on))
  | inr e ↦ rw e (omega arith, (Upto-refl p, h))
]

pub span_goes_one :
    (test : ℕ → Bool) (c : ℕ) (r : Text) (p : Position)
    → IsPlace p
    → test c ≡ true
    → (length (span test (c ∷ r) p).1.rest + 1 ≤ length (c ∷ r))
      × After p (span test (c ∷ r) p).1.at
unfolding span
span_goes_one test c r p h e =
    let step = move-After c p h in
    let (less, on) = span_goes test r (move c p) step.1 in
    rw e (omega arith, After-trans p (move c p) _ step (λ q. on))

-- Tokens from `p` to `q` in the order of the source, each before its end.
abbrev pub Ordered : Position → List Token → Position → Type 0
Ordered p [] q = Upto p q
Ordered p (t ∷ ts) q = (Upto p t.start × Upto t.start t.end) × Ordered t.end ts q

pub Ordered-append :
    (p : Position) (ts : List Token) (q : Position) (us : List Token) (r : Position)
    → Ordered p ts q
    → Ordered q us r
    → Ordered p (ts ++ us) r
Ordered-append p [] q [] r h k = Upto-trans p q r h k
Ordered-append p [] q (u ∷ us) r h k = ((Upto-trans p q u.start h k.0.0, k.0.1), k.1)
Ordered-append p (t ∷ ts) q us r h k = (h.0, Ordered-append t.end ts q us r h.1 k)

pub Ordered-from :
    (p q : Position) (ts : List Token) (r : Position) → Upto p q → Ordered q ts r → Ordered p ts r
Ordered-from p q ts r h k = Ordered-append p [] q ts r h k

pub new_token-Ordered :
    (type : ℕ) (v : Value) (p q : Position) → After p q → Ordered p (new_token type v p q ∷ []) q
unfolding new_token
new_token-Ordered type v p q h =
    let e : (q.line == 0) ≡ false = ground (arith, h.1.0) in
    let f : (q.column == 0) ≡ false = ground (arith, h.1.1) in
    rw (e, f) ((Upto-refl p, h.0), Upto-refl q)

-- Outcomes that read tokens, likewise.
abbrev pub Reads : ℕ → Text → Position → Outcome (List Token × Lexer) → Type 0
Reads n r p (raises e) = e ≢ out_of_fuel
Reads n r p (done (ts, l)) = (length l.rest + n ≤ length r) × (Ordered p ts l.at × IsPlace l.at)

pub Outcome-cases {ℓ} :
    {A : Type ℓ} (o : Outcome A) → ((e : LexError) × (o ≡ raises e)) ⊎ ((a : A) × (o ≡ done a))
Outcome-cases (raises e) = inl (e, refl)
Outcome-cases (done a) = inr (a, refl)
