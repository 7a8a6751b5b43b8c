-- ===== src/Compiler/Ownership/Mentions/Walk.antt =====
-- The walk of compiler/ownership.py over code that does not mention a variable leaves what is known of
-- it.
use poodillion.Prelude.{String, Bool, true, false, refl, ◌∙◌, Option, none, some, string_eq}
use poodillion.Compiler.Ownership.Syntax.{
  Line, Expr, Exprs, Stmt, Stmts, Elifs, identifier, binary_expr, unary_expr, call_expr, index_expr,
  addr_of_expr, deref_expr, cast_expr, field_access_expr, struct_literal, array_literal,
  conditional_expr, other_expr, no_exprs, more_exprs, var_decl, assignment, return_stmt, if_stmt,
  while_stmt, for_stmt, expr_stmt, other_stmt, no_stmts, more_stmts, no_elifs, more_elifs,
}
use poodillion.Compiler.Ownership.Scope.{copy_kind, find}
use poodillion.Compiler.Ownership.Checker.{
  OwnershipChecker, value_kind, push_scope, pop_scope, declare_in, check_identifier_use,
}
use poodillion.Compiler.Ownership.Check.{
  check_expression, check_expressions, check_value, check_var_decl, check_statement,
  check_statements, check_elifs, check_assignment, check_target,
}
use poodillion.Compiler.Ownership.Mentions.{
  Avoids, AvoidsAll, AvoidsValue, AvoidsStmt, AvoidsStmts, AvoidsElifs,
}
use poodillion.Compiler.Ownership.Mentions.Seen.{
  Same, declares_other, uses_other, borrows_other, assigns_other, restores_other, block_other,
}

module _ (x : String) where
  mutual
    unfolding check_expression Avoids check_identifier_use

    pub check_expression-Same :
        (e : Expr) (consuming : Bool) (c : OwnershipChecker)
        → Avoids x e
        → Same x c (check_expression e consuming c)
    check_expression-Same (identifier name line) consuming c a =
        uses_other x name consuming line (find name c.scopes) c a
    check_expression-Same (binary_expr l r) consuming c (a, b) =
        check_expression-Same l false c a
        ∙ check_expression-Same r false (check_expression l false c) b
    check_expression-Same (unary_expr e) consuming c a = check_expression-Same e false c a
    check_expression-Same (call_expr args) consuming c a = check_expressions-Same args c a
    check_expression-Same (index_expr base index) consuming c (a, b) =
        check_expression-Same base false c a
        ∙ check_expression-Same index false (check_expression base false c) b
    check_expression-Same (addr_of_expr e line) consuming c a = borrows_other x e line c a
    check_expression-Same (deref_expr e) consuming c a = check_expression-Same e false c a
    check_expression-Same (cast_expr e) consuming c a = check_expression-Same e consuming c a
    check_expression-Same (field_access_expr e) consuming c a = check_expression-Same e false c a
    check_expression-Same (struct_literal vals) consuming c a = check_expressions-Same vals c a
    check_expression-Same (array_literal elems) consuming c a = check_expressions-Same elems c a
    check_expression-Same (conditional_expr cond t e) consuming c (a, b, d) =
        let c1 = check_expression cond false c in
        check_expression-Same cond false c a
        ∙ (check_expression-Same t consuming c1 b
            ∙ check_expression-Same e consuming (check_expression t consuming c1) d)
    check_expression-Same other_expr consuming c a = refl

    check_expressions-Same :
        (es : Exprs) (c : OwnershipChecker) → AvoidsAll x es → Same x c (check_expressions es c)
    check_expressions-Same no_exprs c a = refl
    check_expressions-Same (more_exprs e es) c (a, b) =
        check_expression-Same e true c a ∙ check_expressions-Same es (check_expression e true c) b

  check_value-Same :
      (v : Option Expr) (c : OwnershipChecker) → AvoidsValue x v → Same x c (check_value v c)
  unfolding check_value
  check_value-Same none c a = refl
  check_value-Same (some e) c a = check_expression-Same e true c a

  check_assignment-Same :
      (target value : Expr) (line : Line) (c : OwnershipChecker)
      → Avoids x target
      → Avoids x value
      → Same x c (check_assignment target value line c)
  unfolding check_assignment
  check_assignment-Same target value line c a b =
      let c1 = check_target target line c in
      assigns_other x target line c a
      ∙ (check_expression-Same value true c1 b
          ∙ restores_other x target (check_expression value true c1) a)

  mutual
    unfolding check_statement AvoidsStmt check_var_decl

    check_statement-Same :
        (s : Stmt) (c : OwnershipChecker) → AvoidsStmt x s → Same x c (check_statement s c)
    check_statement-Same (var_decl name ty value) c (a, b) =
        check_value-Same value c b ∙ declares_other x name (value_kind ty) (check_value value c) a
    check_statement-Same (assignment target value line) c (a, b) =
        check_assignment-Same target value line c a b
    check_statement-Same (return_stmt value) c a = check_value-Same value c a
    check_statement-Same (if_stmt cond then_block elifs else_block) c (a, b, d, e) =
        let c1 = check_expression cond false c in
        let c2 = pop_scope (check_statements then_block (push_scope c1)) in
        let c3 = check_elifs elifs c2 in
        check_expression-Same cond false c a
        ∙ (block_other x c1 (check_statements then_block (push_scope c1))
              (check_statements-Same then_block (push_scope c1) b)
            ∙ (check_elifs-Same elifs c2 d
                ∙ block_other x c3 (check_statements else_block (push_scope c3))
                    (check_statements-Same else_block (push_scope c3) e)))
    check_statement-Same (while_stmt cond body) c (a, b) =
        let c1 = check_expression cond false c in
        check_expression-Same cond false c a
        ∙ block_other x c1 (check_statements body (push_scope c1))
            (check_statements-Same body (push_scope c1) b)
    check_statement-Same (for_stmt var start end body) c (n, a, b, d) =
        let c1 = check_expression start false c in
        let c2 = check_expression end false c1 in
        let c3 = declare_in var copy_kind (push_scope c2) in
        check_expression-Same start false c a
        ∙ (check_expression-Same end false c1 b
            ∙ block_other x c2 (check_statements body c3) (
                declares_other x var copy_kind (push_scope c2) n ∙ check_statements-Same body c3 d))
    check_statement-Same (expr_stmt e) c a = check_expression-Same e false c a
    check_statement-Same other_stmt c a = refl

    pub check_statements-Same :
        (ss : Stmts) (c : OwnershipChecker) → AvoidsStmts x ss → Same x c (check_statements ss c)
    check_statements-Same no_stmts c a = refl
    check_statements-Same (more_stmts s ss) c (a, b) =
        check_statement-Same s c a ∙ check_statements-Same ss (check_statement s c) b

    check_elifs-Same :
        (es : Elifs) (c : OwnershipChecker) → AvoidsElifs x es → Same x c (check_elifs es c)
    check_elifs-Same no_elifs c a = refl
    check_elifs-Same (more_elifs cond block rest) c (a, b, d) =
        let c1 = check_expression cond false c in
        let c2 = pop_scope (check_statements block (push_scope c1)) in
        check_expression-Same cond false c a
        ∙ (block_other x c1 (check_statements block (push_scope c1))
              (check_statements-Same block (push_scope c1) b)
            ∙ check_elifs-Same rest c2 d)
