-- ===== src/Compiler/Ownership/Mentions.antt =====
-- Code that does not mention a variable, for compiler/ownership.py.
pub mod Seen
pub mod Walk
use poodillion.Prelude.{
  String, Bool, true, false, ◌&&◌, ◌≡◌, ◌≢◌, refl, ap, ◌∙◌, Option, none, some, List, [], ◌∷◌, ◌==◌,
  string_eq, if◌then◌else◌, arith, Option-cases, inl, inr,
}
use poodillion.Prelude.Dict.{lookup, lookup-insert, lookup-nil}
use poodillion.Compiler.Ownership.Syntax.{
  Line, Expr, Exprs, Stmt, Stmts, Elifs, identifier, binary_expr, unary_expr, call_expr, index_expr,
  addr_of_expr, deref_expr, cast_expr, field_access_expr, struct_literal, array_literal,
  conditional_expr, other_expr, no_exprs, more_exprs, var_decl, assignment, return_stmt, if_stmt,
  while_stmt, for_stmt, expr_stmt, other_stmt, no_stmts, more_stmts, no_elifs, more_elifs,
}
use poodillion.Compiler.Ownership.Scope.{
  ValueKind, copy_kind, OwnershipInfo, Scopes, State-cases, is_move, new_info, declare, find,
  change, to_moved, to_borrowed,
}
use poodillion.Compiler.Ownership.Checker.{
  OwnershipChecker, value_kind, report, update, push_scope, pop_scope, declare_in, use_found,
  check_identifier_use, borrow_found, check_addr_of,
}
use poodillion.Compiler.Ownership.Check.{
  check_expression, check_expressions, check_value, check_var_decl, check_statement,
  check_statements, check_elifs, check_assignment, assign_found, restore_found, check_target,
  restore_target, to_owned,
}

module _ (x : String) where
  -- No identifier in it that the checker reads is `x`, and no variable that it declares is.
  unfoldable mutual
    pub Avoids : Expr → Type 0
    Avoids (identifier name line) = name ≢ x
    Avoids (binary_expr l r) = Avoids l × Avoids r
    Avoids (unary_expr e) = Avoids e
    Avoids (call_expr args) = AvoidsAll args
    Avoids (index_expr base index) = Avoids base × Avoids index
    Avoids (addr_of_expr e line) = Avoids e
    Avoids (deref_expr e) = Avoids e
    Avoids (cast_expr e) = Avoids e
    Avoids (field_access_expr e) = Avoids e
    Avoids (struct_literal vals) = AvoidsAll vals
    Avoids (array_literal elems) = AvoidsAll elems
    Avoids (conditional_expr cond t e) = Avoids cond × Avoids t × Avoids e
    Avoids other_expr = Unit

    pub AvoidsAll : Exprs → Type 0
    AvoidsAll no_exprs = Unit
    AvoidsAll (more_exprs e es) = Avoids e × AvoidsAll es

  abbrev pub AvoidsValue : Option Expr → Type 0
  AvoidsValue none = Unit
  AvoidsValue (some e) = Avoids e

  unfoldable mutual
    pub AvoidsStmt : Stmt → Type 0
    AvoidsStmt (var_decl name ty value) = (name ≢ x) × AvoidsValue value
    AvoidsStmt (assignment target value line) = Avoids target × Avoids value
    AvoidsStmt (return_stmt value) = AvoidsValue value
    AvoidsStmt (if_stmt cond then_block elifs else_block) =
        Avoids cond × AvoidsStmts then_block × AvoidsElifs elifs × AvoidsStmts else_block
    AvoidsStmt (while_stmt cond body) = Avoids cond × AvoidsStmts body
    AvoidsStmt (for_stmt var start end body) =
        (var ≢ x) × Avoids start × Avoids end × AvoidsStmts body
    AvoidsStmt (expr_stmt e) = Avoids e
    AvoidsStmt other_stmt = Unit

    pub AvoidsStmts : Stmts → Type 0
    AvoidsStmts no_stmts = Unit
    AvoidsStmts (more_stmts s ss) = AvoidsStmt s × AvoidsStmts ss

    pub AvoidsElifs : Elifs → Type 0
    AvoidsElifs no_elifs = Unit
    AvoidsElifs (more_elifs cond block rest) = Avoids cond × AvoidsStmts block × AvoidsElifs rest
