-- ===== src/Compiler/Ownership/Steps.antt =====
-- Induction over the walk of compiler/ownership.py: a relation between checkers that the single
-- steps have, and that blocks pass on, holds across whole programs.
use poodillion.Prelude.{String, Bool, true, false, Option, none, some, List, [], ◌∷◌}
use poodillion.Compiler.Ownership.Syntax.{
  Line, Ty, Expr, Exprs, Stmt, Stmts, Elifs, Decl, identifier, binary_expr, unary_expr, call_expr,
  index_expr, addr_of_expr, deref_expr, cast_expr, field_access_expr, struct_literal, array_literal,
  conditional_expr, other_expr, no_exprs, more_exprs, var_decl, assignment, return_stmt, if_stmt,
  while_stmt, for_stmt, expr_stmt, other_stmt, no_stmts, more_stmts, no_elifs, more_elifs,
  proc_decl, global_decl, other_decl,
}
use poodillion.Compiler.Ownership.Scope.{copy_kind}
use poodillion.Compiler.Ownership.Checker.{
  OwnershipChecker, value_kind, push_scope, pop_scope, declare_in, check_identifier_use,
  check_addr_of,
}
use poodillion.Compiler.Ownership.Check.{
  check_expression, check_expressions, check_value, check_var_decl, check_target, restore_target,
  check_assignment, check_statement, check_statements, check_elifs, declare_params,
  check_declaration, check_declarations,
}

-- Every type that is declared, of a variable or of a parameter, satisfies `T`.
module _ (T : Ty → Type 0) where
  unfoldable mutual
    pub Declares : Stmt → Type 0
    Declares (var_decl name ty value) = T ty
    Declares (assignment target value line) = Unit
    Declares (return_stmt value) = Unit
    Declares (if_stmt cond then_block elifs else_block) =
        DeclaresAll then_block × DeclaresElifs elifs × DeclaresAll else_block
    Declares (while_stmt cond body) = DeclaresAll body
    Declares (for_stmt var start end body) = DeclaresAll body
    Declares (expr_stmt e) = Unit
    Declares other_stmt = Unit

    pub DeclaresAll : Stmts → Type 0
    DeclaresAll no_stmts = Unit
    DeclaresAll (more_stmts s ss) = Declares s × DeclaresAll ss

    pub DeclaresElifs : Elifs → Type 0
    DeclaresElifs no_elifs = Unit
    DeclaresElifs (more_elifs cond block rest) = DeclaresAll block × DeclaresElifs rest

  abbrev pub DeclaresParams : List (String × Ty) → Type 0
  DeclaresParams [] = Unit
  DeclaresParams ((name, ty) ∷ ps) = T ty × DeclaresParams ps

  abbrev pub DeclaresDecl : Decl → Type 0
  DeclaresDecl (proc_decl params body) = DeclaresParams params × DeclaresAll body
  DeclaresDecl (global_decl name ty value) = T ty
  DeclaresDecl other_decl = Unit

  abbrev pub DeclaresProgram : List Decl → Type 0
  DeclaresProgram [] = Unit
  DeclaresProgram (d ∷ ds) = DeclaresDecl d × DeclaresProgram ds

-- What the single steps of the walk do to a relation between checkers.
pub record IsSteps (T : Ty → Type 0) (R : OwnershipChecker → OwnershipChecker → Type 0)
    : Type 0 where
  pub stay : (c : OwnershipChecker) → R c c
  pub chain : (a b c : OwnershipChecker) → R a b → R b c → R a c
  pub uses :
      (name : String) (consuming : Bool) (line : Line) (c : OwnershipChecker)
      → R c (check_identifier_use name consuming line c)
  pub borrows : (e : Expr) (line : Line) (c : OwnershipChecker) → R c (check_addr_of e line c)
  pub targets : (e : Expr) (line : Line) (c : OwnershipChecker) → R c (check_target e line c)
  pub restores : (e : Expr) (c : OwnershipChecker) → R c (restore_target e c)
  pub declares :
      (name : String) (ty : Ty) (c : OwnershipChecker)
      → T ty
      → R c (declare_in name (value_kind ty) c)
  pub loops : (name : String) (c : OwnershipChecker) → R c (declare_in name copy_kind c)
  pub block : (c c' : OwnershipChecker) → R (push_scope c) c' → R c (pop_scope c')

module _ {T : Ty → Type 0} {R : OwnershipChecker → OwnershipChecker → Type 0}
    (s : IsSteps T R) where
  mutual
    unfolding check_expression

    pub expression_lem :
        (e : Expr) (consuming : Bool) (c : OwnershipChecker) → R c (check_expression e consuming c)
    expression_lem (identifier name line) consuming c = s.uses name consuming line c
    expression_lem (binary_expr l r) consuming c =
        s.chain _ _ _ (expression_lem l false c)
          (expression_lem r false (check_expression l false c))
    expression_lem (unary_expr e) consuming c = expression_lem e false c
    expression_lem (call_expr args) consuming c = expressions_lem args c
    expression_lem (index_expr base index) consuming c =
        s.chain _ _ _ (expression_lem base false c)
          (expression_lem index false (check_expression base false c))
    expression_lem (addr_of_expr e line) consuming c = s.borrows e line c
    expression_lem (deref_expr e) consuming c = expression_lem e false c
    expression_lem (cast_expr e) consuming c = expression_lem e consuming c
    expression_lem (field_access_expr e) consuming c = expression_lem e false c
    expression_lem (struct_literal vals) consuming c = expressions_lem vals c
    expression_lem (array_literal elems) consuming c = expressions_lem elems c
    expression_lem (conditional_expr cond t e) consuming c =
        let c1 = check_expression cond false c in
        let c2 = check_expression t consuming c1 in
        s.chain c c1 _ (expression_lem cond false c)
          (s.chain c1 c2 _ (expression_lem t consuming c1) (expression_lem e consuming c2))
    expression_lem other_expr consuming c = s.stay c

    expressions_lem : (es : Exprs) (c : OwnershipChecker) → R c (check_expressions es c)
    expressions_lem no_exprs c = s.stay c
    expressions_lem (more_exprs e es) c =
        s.chain _ _ _ (expression_lem e true c) (expressions_lem es (check_expression e true c))

  value_lem : (v : Option Expr) (c : OwnershipChecker) → R c (check_value v c)
  unfolding check_value
  value_lem none c = s.stay c
  value_lem (some e) c = expression_lem e true c

  var_decl_lem :
      (name : String) (ty : Ty) (v : Option Expr) (c : OwnershipChecker)
      → T ty
      → R c (check_var_decl name ty v c)
  unfolding check_var_decl
  var_decl_lem name ty v c t =
      s.chain _ _ _ (value_lem v c) (s.declares name ty (check_value v c) t)

  assignment_lem :
      (target value : Expr) (line : Line) (c : OwnershipChecker)
      → R c (check_assignment target value line c)
  unfolding check_assignment
  assignment_lem target value line c =
      let c1 = check_target target line c in
      let c2 = check_expression value true c1 in
      s.chain c c1 _ (s.targets target line c)
        (s.chain c1 c2 _ (expression_lem value true c1) (s.restores target c2))

  mutual
    unfolding check_statement Declares

    pub statement_lem : (x : Stmt) (c : OwnershipChecker) → Declares T x → R c (check_statement x c)
    statement_lem (var_decl name ty value) c t = var_decl_lem name ty value c t
    statement_lem (assignment target value line) c t = assignment_lem target value line c
    statement_lem (return_stmt value) c t = value_lem value c
    statement_lem (if_stmt cond then_block elifs else_block) c t =
        let c1 = check_expression cond false c in
        let c2 = pop_scope (check_statements then_block (push_scope c1)) in
        let c3 = check_elifs elifs c2 in
        s.chain c c1 _ (expression_lem cond false c) (
          s.chain c1 c2 _ (s.block c1 _ (statements_lem then_block (push_scope c1) t.0)) (
            s.chain c2 c3 _ (elifs_lem elifs c2 t.1)
              (s.block c3 _ (statements_lem else_block (push_scope c3) t.2))))
    statement_lem (while_stmt cond body) c t = s.chain _ _ _ (expression_lem cond false c) (
        s.block (check_expression cond false c) _
          (statements_lem body (push_scope (check_expression cond false c)) t))
    statement_lem (for_stmt var start end body) c t =
        let c1 = check_expression start false c in
        let c2 = check_expression end false c1 in
        let c3 = declare_in var copy_kind (push_scope c2) in
        s.chain c c1 _ (expression_lem start false c) (
          s.chain c1 c2 _ (expression_lem end false c1) (
            s.block c2 (check_statements body c3) (
              s.chain (push_scope c2) c3 _ (s.loops var (push_scope c2))
                (statements_lem body c3 t))))
    statement_lem (expr_stmt e) c t = expression_lem e false c
    statement_lem other_stmt c t = s.stay c

    pub statements_lem :
        (xs : Stmts) (c : OwnershipChecker) → DeclaresAll T xs → R c (check_statements xs c)
    statements_lem no_stmts c t = s.stay c
    statements_lem (more_stmts x xs) c t =
        s.chain _ _ _ (statement_lem x c t.0) (statements_lem xs (check_statement x c) t.1)

    elifs_lem : (xs : Elifs) (c : OwnershipChecker) → DeclaresElifs T xs → R c (check_elifs xs c)
    elifs_lem no_elifs c t = s.stay c
    elifs_lem (more_elifs cond block rest) c t =
        let c1 = check_expression cond false c in
        let c2 = pop_scope (check_statements block (push_scope c1)) in
        s.chain c c1 _ (expression_lem cond false c) (
          s.chain c1 c2 _ (s.block c1 _ (statements_lem block (push_scope c1) t.0))
            (elifs_lem rest c2 t.1))

  params_lem :
      (ps : List (String × Ty)) (c : OwnershipChecker)
      → DeclaresParams T ps
      → R c (declare_params ps c)
  unfolding declare_params
  params_lem [] c t = s.stay c
  params_lem ((name, ty) ∷ ps) c t =
      s.chain _ _ _ (s.declares name ty c t.0)
        (params_lem ps (declare_in name (value_kind ty) c) t.1)

  declaration_lem :
      (d : Decl) (c : OwnershipChecker) → DeclaresDecl T d → R c (check_declaration d c)
  unfolding check_declaration
  declaration_lem (proc_decl params body) c t =
      let c1 = declare_params params (push_scope c) in
      s.block c (check_statements body c1) (
        s.chain (push_scope c) c1 _ (params_lem params (push_scope c) t.0)
          (statements_lem body c1 t.1))
  declaration_lem (global_decl name ty value) c t = var_decl_lem name ty value c t
  declaration_lem other_decl c t = s.stay c

  pub program_lem :
      (ds : List Decl) (c : OwnershipChecker) → DeclaresProgram T ds → R c (check_declarations ds c)
  unfolding check_declarations
  program_lem [] c t = s.stay c
  program_lem (d ∷ ds) c t =
      s.chain _ _ _ (declaration_lem d c t.0) (program_lem ds (check_declaration d c) t.1)
