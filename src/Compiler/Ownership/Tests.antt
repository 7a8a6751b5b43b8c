-- ===== src/Compiler/Ownership/Tests.antt =====
-- Programs for compiler/ownership.py, and its theorems at concrete data.
use poodillion.Prelude.{
  ℕ, true, false, arith, ◌≡◌, ◌≢◌, ◌==◌, String, refl, some, List, [], ◌∷◌, ◌++◌, string_eq,
  text_eq, nat_eq, text_of,
}
use poodillion.Prelude.Dict.{lookup, insert}
use poodillion.Compiler.Ownership.Syntax.{
  Line, Expr, Stmt, Stmts, Decl, named, identifier, addr_of_expr, struct_literal, other_expr,
  no_exprs, var_decl, assignment, expr_stmt, no_stmts, more_stmts, proc_decl, other_decl,
}
use poodillion.Compiler.Ownership.Scope.{owned, move_kind, declare, new_info, find, change}
use poodillion.Compiler.Ownership.Checker.{
  use_moved, assign_borrowed, OwnershipChecker, is_copy_type, value_kind,
}
use poodillion.Compiler.Ownership.Check.{
  check_expression, check_statement, check_statements, check_assignment, check_ownership,
}
use poodillion.Compiler.Ownership.Steps.{DeclaresProgram, Declares}
use poodillion.Compiler.Ownership.Growth.{Grows, check_statement-Grows}
use poodillion.Compiler.Ownership.Each.{Each}
use poodillion.Compiler.Ownership.Errors.{
  is_mut_error, is_assign_borrowed, IsCopy, check_ownership-no_mut, check_ownership-copies,
}
use poodillion.Compiler.Ownership.Mentions.{AvoidsStmts, Avoids}
use poodillion.Compiler.Ownership.Moves.{use_after_move, taking_loop}

abbrev use_at : ℕ → Expr
use_at line = identifier "x" (some line)

-- var x: Data = Data(...); while ...: take(x)
abbrev loop : Stmt
loop = taking_loop "x" (some 2)

abbrev moves_twice : List Decl
moves_twice =
    other_decl
    ∷ proc_decl [] (
        more_stmts (var_decl "x" (named (text_of "Data")) (some (struct_literal no_exprs))) (
          more_stmts loop
            (more_stmts (var_decl "y" (named (text_of "Data")) (some (use_at 3))) no_stmts)))
    ∷ []

-- The repeated move of the loop is not seen; the one after the loop is.
moves_twice_errors : check_ownership moves_twice ≡ use_moved "x" (some 2) (some 3) ∷ []
unfolding check_ownership find lookup insert change declare value_kind string_eq text_eq
moves_twice_errors = refl

check_ownership-no_mut_example : Each (λ e. is_mut_error e ≡ false) (check_ownership moves_twice)
check_ownership-no_mut_example = check_ownership-no_mut moves_twice

-- proc p(x: INT32): addr(x); x = ...
abbrev copies : List Decl
copies =
    proc_decl (("x", named (text_of "INT32")) ∷ []) (
      more_stmts (expr_stmt (addr_of_expr (use_at 2) (some 2)))
        (more_stmts (assignment (use_at 3) other_expr (some 3)) no_stmts))
    ∷ []

copies_errors : check_ownership copies ≡ assign_borrowed "x" (some 3) ∷ []
unfolding check_ownership find lookup insert change declare value_kind string_eq text_eq
copies_errors = refl

copies-DeclaresProgram : DeclaresProgram IsCopy copies
unfolding is_copy_type text_eq nat_eq Declares
copies-DeclaresProgram = (((refl, tt), (tt, (tt, tt))), tt)

check_ownership-copies_example : Each (λ e. is_assign_borrowed e ≡ true) (check_ownership copies)
check_ownership-copies_example = check_ownership-copies copies copies-DeclaresProgram

-- The checker inside of a procedure that has declared x.
abbrev with_x : OwnershipChecker
with_x = record { errors = []; scopes = (("x", new_info "x" move_kind) ∷ []) ∷ [] ∷ [] }

check_statement-Grows_example : Grows with_x (check_statement loop with_x)
check_statement-Grows_example = check_statement-Grows loop with_x

find_x : find "x" with_x.scopes ≡ some (new_info "x" move_kind)
unfolding find lookup string_eq
find_x = refl

x_facts : ((new_info "x" move_kind).state ≡ owned) × ((new_info "x" move_kind).kind ≡ move_kind)
unfolding new_info
x_facts = (refl, refl)

-- while ...: take(y)
abbrev others : Stmts
others = more_stmts (taking_loop "y" (some 6)) no_stmts

ne_of_eqb : (a b : String) → (a == b) ≡ false → a ≢ b
ne_of_eqb a b h = ground arith

y_is_other : ◌==◌ {A = String} "y" "x" ≡ false
unfolding string_eq text_eq
y_is_other = refl

others-AvoidsStmts : AvoidsStmts "x" others
unfolding AvoidsStmts Avoids
others-AvoidsStmts = ((tt, ((ne_of_eqb "y" "x" y_is_other, tt), tt)), tt)

other_expr-Avoids : Avoids "x" other_expr
unfolding Avoids
other_expr-Avoids = tt

use_after_move_example :
    let c1 : OwnershipChecker = check_statements others (check_expression (use_at 4) true with_x) in
    ((check_expression (use_at 5) false c1).errors
      ≡ c1.errors ++ (use_moved "x" (some 4) (some 5) ∷ []))
    × ((l line : Line)
        → let c2 : OwnershipChecker =
            check_statements others (check_assignment (identifier "x" l) other_expr line c1) in
          (check_expression (use_at 5) false c2).errors ≡ c2.errors)
use_after_move_example =
    use_after_move "x" (new_info "x" move_kind) (some 4) (some 5) false others others other_expr
      with_x find_x x_facts.0 x_facts.1 others-AvoidsStmts others-AvoidsStmts other_expr-Avoids
