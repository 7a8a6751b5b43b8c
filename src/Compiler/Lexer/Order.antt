-- ===== src/Compiler/Lexer/Order.antt =====
-- `tokenize` of compiler/lexer.py ends, and gives the tokens in the order of the source.
use poodillion.Prelude.{
  ℕ, zero, suc, ◌<◌, ◌≡◌, ◌≢◌, inl, inr, refl, subst, List, [], ◌∷◌, ◌++◌, length, Text, arith,
}
use poodillion.Compiler.Lexer.Kinds.{tt_eof}
use poodillion.Compiler.Lexer.Cursor.{
  Outcome, done, raises, out_of_fuel, Position, Token, no_value, new_token,
}
use poodillion.Compiler.Lexer.Tokens.{round, tokenize_from, tokenize}
use poodillion.Compiler.Lexer.Progress.{
  IsPlace, Upto-refl, Ordered, Ordered-append, new_token-Ordered, Reads, Outcome-cases,
}
use poodillion.Compiler.Lexer.Rounds.{round-Reads}

-- The list ends with a token of type EOF, and the tokens before it have been read in order.
abbrev pub EndsInEof : List Token → Type 0
EndsInEof [] = ⊥
EndsInEof (t ∷ []) = t.type ≡ tt_eof
EndsInEof (t ∷ u ∷ ts) = EndsInEof (u ∷ ts)

EndsInEof-append : (ts us : List Token) → EndsInEof us → EndsInEof (ts ++ us)
EndsInEof-append [] us h = h
EndsInEof-append (t ∷ []) [] h = absurd h
EndsInEof-append (t ∷ []) (u ∷ us) h = h
EndsInEof-append (t ∷ v ∷ ts) us h = EndsInEof-append (v ∷ ts) us h

-- What a run from `p` gives: an exception of the program, or all the tokens in order.
abbrev Runs : Position → Outcome (List Token) → Type 0
Runs p (raises e) = e ≢ out_of_fuel
Runs p (done ts) = ((q : Position) × Ordered p ts q) × EndsInEof ts

Runs-after :
    (p q : Position) (ts : List Token) (o : Outcome (List Token))
    → Ordered p ts q
    → Runs q o
    → Runs p (elim o [ raises e ↦ raises e | done us ↦ done (ts ++ us) ])
Runs-after p q ts (raises e) h k = k
Runs-after p q ts (done us) h ((r, k), end) =
    ((r, Ordered-append p ts q us r h k), EndsInEof-append ts us end)

Runs-ends : (p : Position) (o : Outcome (List Token)) → Runs p o → o ≢ raises out_of_fuel
Runs-ends p (raises e) h q = h (cc)
Runs-ends p (done ts) h q = cc

new_token-type : (p : Position) → (new_token tt_eof no_value p p).type ≡ tt_eof
unfolding new_token
new_token-type p = refl

tokenize_from-Runs :
    (fuel : ℕ) (r : Text) (p : Position)
    → IsPlace p
    → length r < fuel
    → Runs p (tokenize_from fuel (record { rest = r; at = p }))
unfolding tokenize_from
tokenize_from-Runs zero r p h k = absurd (omega arith)
tokenize_from-Runs (suc fuel) [] p h k =
    ((p, new_token-Ordered tt_eof no_value p p (Upto-refl p, h)), new_token-type p)
tokenize_from-Runs (suc fuel) (c ∷ r) p h k = elim (Outcome-cases (round c r p)) [
  | inl (e, q) ↦ rw (q, Runs) (subst (Reads 1 (c ∷ r) p) q (round-Reads c r p h))
  | inr ((ts, l), q) ↦
      let (less, (on, place)) = subst (Reads 1 (c ∷ r) p) q (round-Reads c r p h) in
      rw (q, Runs)
        (Runs-after p l.at ts (tokenize_from fuel l) on
          (tokenize_from-Runs fuel l.rest l.at place (omega arith)))
]

-- `tokenize` ends on every source: one round for each character and one more are enough.
pub tokenize_ends : (source : Text) → tokenize source ≢ raises out_of_fuel
unfolding tokenize
tokenize_ends source =
    Runs-ends (record { line = 1; column = 1 }) _
      (tokenize_from-Runs (suc (length source)) source (record { line = 1; column = 1 })
        (omega arith, omega arith) (omega arith))

-- When `tokenize` returns tokens, they stand in the order of the source, from line 1 and column 1:
-- no token ends before it starts, none starts before the one before it has ended, and the last is
-- the EOF token.
pub tokenize-Ordered :
    (source : Text) (ts : List Token)
    → tokenize source ≡ done ts
    → ((q : Position) × Ordered (record { line = 1; column = 1 }) ts q) × EndsInEof ts
unfolding tokenize
tokenize-Ordered source ts e =
    let start : Position = record { line = 1; column = 1 } in
    subst (Runs start) e (
      tokenize_from-Runs (suc (length source)) source start (omega arith, omega arith)
        (omega arith))
