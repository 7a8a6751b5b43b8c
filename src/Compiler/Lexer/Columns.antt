-- ===== src/Compiler/Lexer/Columns.antt =====
-- Texts of compiler/lexer.py on one line: the column after them, and the loops that pass them.
use poodillion.Prelude.{
  ℕ, suc, ◌+◌, Bool, true, false, ◌≡◌, ◌≢◌, refl, [], ◌∷◌, ◌++◌, ◌==◌, nat_eq, length, Text, arith,
}
use poodillion.Compiler.Lexer.Cursor.{newline, Position, move, head_or_space, span}

unfoldable pub right_of : ℕ → Position → Position
right_of n p = record { line = p.line; column = p.column + n }

pub move-right : (c : ℕ) (p : Position) → (c == newline) ≡ false → move c p ≡ right_of 1 p
unfolding move right_of
move-right c p e = rw e refl

pub right_of-right_of : (m n : ℕ) (p : Position) → right_of n (right_of m p) ≡ right_of (m + n) p
unfolding right_of
right_of-right_of m n p = ground arith

pub test_false : (a b : ℕ) → a ≢ b → (a == b) ≡ false
test_false a b h = ground (arith, h)

pub right_of_zero : (p : Position) → right_of 0 p ≡ p
unfolding right_of
right_of_zero p = ground arith

right_of-suc : (n : ℕ) (p : Position) → right_of n (right_of 1 p) ≡ right_of (suc n) p
unfolding right_of
right_of-suc n p = ground arith

abbrev pub All : (ℕ → Bool) → Text → Type 0
All test [] = Unit {0}
All test (c ∷ s) = (test c ≡ true) × All test s

-- A loop passes the characters that meet its test, and stops at the first that does not.
pub span-All :
    (test : ℕ → Bool) (line : (c : ℕ) → test c ≡ true → (c == newline) ≡ false) (s rest : Text)
    (p : Position)
    → All test s
    → test (head_or_space rest) ≡ false
    → span test (s ++ rest) p ≡ (s, record { rest = rest; at = right_of (length s) p })
unfolding span
span-All test line [] [] p h k = rw (right_of_zero p) refl
span-All test line [] (c ∷ rest) p h k = rw (k, right_of_zero p) refl
span-All test line (c ∷ s) rest p h k =
    rw
      (
        h.0,
        move-right c p (line c h.0),
        span-All test line s rest (right_of 1 p) h.1 k,
        right_of-suc (length s) p,
      )
      refl
