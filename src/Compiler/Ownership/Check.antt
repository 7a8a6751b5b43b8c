-- ===== src/Compiler/Ownership/Check.antt =====
-- The walk over the tree of compiler/ownership.py: `_check_expression`, `_check_statement`,
-- `_check_declaration` and `check`, with the methods that they dispatch to.
use poodillion.Prelude.{String, Bool, true, false, Option, none, some, List, [], ◌∷◌}
use poodillion.Compiler.Ownership.Syntax.{
  Line, Ty, Expr, Exprs, Stmt, Stmts, Elifs, Decl, identifier, binary_expr, unary_expr, call_expr,
  index_expr, addr_of_expr, deref_expr, cast_expr, field_access_expr, struct_literal, array_literal,
  conditional_expr, other_expr, no_exprs, more_exprs, var_decl, assignment, return_stmt, if_stmt,
  while_stmt, for_stmt, expr_stmt, other_stmt, no_stmts, more_stmts, no_elifs, more_elifs,
  proc_decl, global_decl, other_decl,
}
use poodillion.Compiler.Ownership.Scope.{
  owned, moved, borrowed, mut_borrowed, copy_kind, OwnershipInfo, find,
}
use poodillion.Compiler.Ownership.Checker.{
  OwnershipError, assign_borrowed, assign_mut_borrowed, OwnershipChecker, value_kind, report,
  update, push_scope, pop_scope, declare_in, check_identifier_use, check_addr_of,
}

-- `consuming` is true for the arguments of a call and the parts of a literal.
unfoldable mutual
  unfolding check_identifier_use check_addr_of

  pub check_expression : Expr → Bool → OwnershipChecker → OwnershipChecker
  check_expression (identifier name line) consuming c = check_identifier_use name consuming line c
  check_expression (binary_expr l r) consuming c =
      check_expression r false (check_expression l false c)
  check_expression (unary_expr e) consuming c = check_expression e false c
  check_expression (call_expr args) consuming c = check_expressions args c
  check_expression (index_expr base index) consuming c =
      check_expression index false (check_expression base false c)
  check_expression (addr_of_expr e line) consuming c = check_addr_of e line c
  check_expression (deref_expr e) consuming c = check_expression e false c
  check_expression (cast_expr e) consuming c = check_expression e consuming c
  check_expression (field_access_expr e) consuming c = check_expression e false c
  check_expression (struct_literal vals) consuming c = check_expressions vals c
  check_expression (array_literal elems) consuming c = check_expressions elems c
  check_expression (conditional_expr cond t e) consuming c =
      check_expression e consuming (check_expression t consuming (check_expression cond false c))
  check_expression other_expr consuming c = c

  pub check_expressions : Exprs → OwnershipChecker → OwnershipChecker
  check_expressions no_exprs c = c
  check_expressions (more_exprs e es) c = check_expressions es (check_expression e true c)

unfoldable pub check_value : Option Expr → OwnershipChecker → OwnershipChecker
unfolding check_expression
check_value none c = c
check_value (some e) c = check_expression e true c

unfoldable pub check_var_decl : String → Ty → Option Expr → OwnershipChecker → OwnershipChecker
unfolding check_value declare_in
check_var_decl name ty value c = declare_in name (value_kind ty) (check_value value c)

-- The test of an assignment's target before its value is checked.
unfoldable pub assign_found :
    String → Line → Option OwnershipInfo → OwnershipChecker → OwnershipChecker
unfolding report
assign_found name line none c = c
assign_found name line (some info) c = elim info.state [
  | borrowed ↦ report (assign_borrowed name line) c
  | mut_borrowed ↦ report (assign_mut_borrowed name line) c
  | owned ↦ c
  | moved ↦ c
]

-- `info.state = OWNED; info.moved_at = None`
abbrev pub to_owned : OwnershipInfo → OwnershipInfo
to_owned i = record i { state = owned; moved_at = none }

-- Its test after the value is checked: a moved variable is owned again.
unfoldable pub restore_found : String → Option OwnershipInfo → OwnershipChecker → OwnershipChecker
unfolding update
restore_found name none c = c
restore_found name (some info) c = elim info.state [
  | moved ↦ update name to_owned c
  | owned ↦ c
  | borrowed ↦ c
  | mut_borrowed ↦ c
]

unfoldable pub check_target : Expr → Line → OwnershipChecker → OwnershipChecker
unfolding assign_found
check_target (identifier name l) line c = assign_found name line (find name c.scopes) c
check_target _ line c = c

unfoldable pub restore_target : Expr → OwnershipChecker → OwnershipChecker
unfolding restore_found
restore_target (identifier name l) c = restore_found name (find name c.scopes) c
restore_target _ c = c

unfoldable pub check_assignment : Expr → Expr → Line → OwnershipChecker → OwnershipChecker
unfolding check_expression check_target restore_target
check_assignment target value line c =
    restore_target target (check_expression value true (check_target target line c))

unfoldable mutual
  unfolding check_expression check_value check_var_decl check_assignment push_scope pop_scope
      declare_in

  pub check_statement : Stmt → OwnershipChecker → OwnershipChecker
  check_statement (var_decl name ty value) c = check_var_decl name ty value c
  check_statement (assignment target value line) c = check_assignment target value line c
  check_statement (return_stmt value) c = check_value value c
  check_statement (if_stmt cond then_block elifs else_block) c = pop_scope (
      check_statements else_block (
        push_scope (
          check_elifs elifs (
            pop_scope (check_statements then_block (push_scope (check_expression cond false c)))))))
  check_statement (while_stmt cond body) c =
      pop_scope (check_statements body (push_scope (check_expression cond false c)))
  check_statement (for_stmt var start end body) c = pop_scope (
      check_statements body (
        declare_in var copy_kind
          (push_scope (check_expression end false (check_expression start false c)))))
  check_statement (expr_stmt e) c = check_expression e false c
  check_statement other_stmt c = c

  pub check_statements : Stmts → OwnershipChecker → OwnershipChecker
  check_statements no_stmts c = c
  check_statements (more_stmts s ss) c = check_statements ss (check_statement s c)

  pub check_elifs : Elifs → OwnershipChecker → OwnershipChecker
  check_elifs no_elifs c = c
  check_elifs (more_elifs cond block rest) c =
      check_elifs rest
        (pop_scope (check_statements block (push_scope (check_expression cond false c))))

unfoldable pub declare_params : List (String × Ty) → OwnershipChecker → OwnershipChecker
unfolding declare_in
declare_params [] c = c
declare_params ((name, ty) ∷ ps) c = declare_params ps (declare_in name (value_kind ty) c)

unfoldable pub check_declaration : Decl → OwnershipChecker → OwnershipChecker
unfolding check_statement check_var_decl declare_params push_scope pop_scope
check_declaration (proc_decl params body) c =
    pop_scope (check_statements body (declare_params params (push_scope c)))
check_declaration (global_decl name ty value) c = check_var_decl name ty value c
check_declaration other_decl c = c

unfoldable pub check_declarations : List Decl → OwnershipChecker → OwnershipChecker
unfolding check_declaration
check_declarations [] c = c
check_declarations (d ∷ ds) c = check_declarations ds (check_declaration d c)

abbrev pub start_checker : OwnershipChecker
start_checker = record { errors = []; scopes = [] ∷ [] }

-- `check` and `check_ownership`
unfoldable pub check_ownership : List Decl → List OwnershipError
unfolding check_declarations
check_ownership program = (check_declarations program start_checker).errors
