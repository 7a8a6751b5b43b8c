-- ===== src/Compiler/Ownership/Syntax.antt =====
-- The nodes of compiler/ast_nodes.py as compiler/ownership.py reads them. A field that it does not
-- read (operators, names of functions, structs and fields) is left out, and so is every span but
-- those whose line it takes: of an identifier, an address-of and an assignment.
use poodillion.Prelude.{ℕ, String, Option, List}
use poodillion.Prelude.{Text}

-- `node.span.line`, if there is one.
abbrev pub Line : Type 0
Line = Option ℕ

-- Type by its name, PointerType, and the other classes of types.
pub data Ty : Type 0 where
  named : Text → Ty
  pointer : Ty
  other_type : Ty

-- `other_expr` is an expression of any other class: literals, method calls, slices and so on.
mutual
  pub data Expr : Type 0 where
    identifier : String → Line → Expr
    binary_expr : Expr → Expr → Expr
    unary_expr : Expr → Expr
    call_expr : Exprs → Expr
    index_expr : Expr → Expr → Expr
    addr_of_expr : Expr → Line → Expr
    deref_expr : Expr → Expr
    cast_expr : Expr → Expr
    field_access_expr : Expr → Expr
    struct_literal : Exprs → Expr
    array_literal : Exprs → Expr
    conditional_expr : Expr → Expr → Expr → Expr
    other_expr : Expr

  pub data Exprs : Type 0 where
    no_exprs : Exprs
    more_exprs : Expr → Exprs → Exprs

-- An absent else block is an empty one. `other_stmt` is a statement of any other class.
mutual
  pub data Stmt : Type 0 where
    var_decl : String → Ty → Option Expr → Stmt
    assignment : Expr → Expr → Line → Stmt
    return_stmt : Option Expr → Stmt
    if_stmt : Expr → Stmts → Elifs → Stmts → Stmt
    while_stmt : Expr → Stmts → Stmt
    for_stmt : String → Expr → Expr → Stmts → Stmt
    expr_stmt : Expr → Stmt
    other_stmt : Stmt

  pub data Stmts : Type 0 where
    no_stmts : Stmts
    more_stmts : Stmt → Stmts → Stmts

  pub data Elifs : Type 0 where
    no_elifs : Elifs
    more_elifs : Expr → Stmts → Elifs → Elifs

-- ProcDecl by its parameters and its body.
pub data Decl : Type 0 where
  proc_decl : List (String × Ty) → Stmts → Decl
  global_decl : String → Ty → Option Expr → Decl
  other_decl : Decl
