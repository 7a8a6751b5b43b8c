-- ===== src/Compiler/Ownership/Moves.antt =====
-- What compiler/ownership.py finds of a value that is used again after it was given away.
use poodillion.Prelude.{
  String, Bool, true, ◌&&◌, ◌≡◌, refl, ◌∙◌, some, [], ◌∷◌, ◌++◌, string_eq, arith, Bool-cases,
  Option-cases, inl, inr,
}
use poodillion.Prelude.Dict.{lookup, lookup-insert}
use poodillion.Compiler.Ownership.Syntax.{
  Line, Expr, Stmt, Stmts, identifier, call_expr, other_expr, no_exprs, more_exprs, while_stmt,
  expr_stmt, no_stmts, more_stmts,
}
use poodillion.Compiler.Ownership.Scope.{
  owned, moved, move_kind, OwnershipInfo, Scopes, is_move, find, change, to_moved,
}
use poodillion.Compiler.Ownership.Checker.{
  use_moved, OwnershipChecker, report, update, use_found, check_identifier_use,
}
use poodillion.Compiler.Ownership.Check.{
  check_expression, check_statements, check_assignment, check_target, restore_target, assign_found,
  restore_found, to_owned,
}
use poodillion.Compiler.Ownership.Mentions.{Avoids, AvoidsStmts}
use poodillion.Compiler.Ownership.Mentions.Seen.{find-Same}
use poodillion.Compiler.Ownership.Mentions.Walk.{check_expression-Same, check_statements-Same}

-- A change reaches the variable that the name finds.
find-change :
    (name : String) (f : OwnershipInfo → OwnershipInfo) (i : OwnershipInfo) (s : Scopes)
    → find name s ≡ some i
    → find name (change name f s) ≡ some (f i)
unfolding find change
find-change name f i [] e = cc
find-change name f i (d ∷ s) e = elim (Option-cases (lookup name d)) [
  | inl g ↦ rw (g, change) (rw (g, find) (find-change name f i s (rw (g, find) at e)))
  | inr (j, g) ↦ ground (arith, lookup-insert name name (f j) d)
]

first_use :
    (name : String) (i : OwnershipInfo) (line : Line) (c : OwnershipChecker)
    → find name c.scopes ≡ some i
    → i.state ≡ owned
    → i.kind ≡ move_kind
    → check_identifier_use name true line c ≡ update name (to_moved line) c
unfolding check_identifier_use use_found
first_use name i line c e o m = rw (e, use_found) (rw (o, use_found) (rw m refl))

use_of_moved :
    (name : String) (i : OwnershipInfo) (line : Line) (consuming : Bool) (c : OwnershipChecker)
    → find name c.scopes ≡ some i
    → i.state ≡ moved
    → check_identifier_use name consuming line c ≡ report (use_moved name i.moved_at line) c
unfolding check_identifier_use use_found
use_of_moved name i line consuming c e o = rw (e, use_found) (rw (o, use_found) refl)

use_of_owned :
    (name : String) (i : OwnershipInfo) (line : Line) (consuming : Bool) (c : OwnershipChecker)
    → find name c.scopes ≡ some i
    → i.state ≡ owned
    → (check_identifier_use name consuming line c).errors ≡ c.errors
unfolding check_identifier_use use_found update
use_of_owned name i line consuming c e o =
    rw (e, use_found)
      (rw (o, use_found)
        (elim (Bool-cases (consuming && is_move i.kind)) [ inl h ↦ rw h refl | inr h ↦ rw h refl ]))

target_moved :
    (name : String) (i : OwnershipInfo) (l line : Line) (c : OwnershipChecker)
    → find name c.scopes ≡ some i
    → i.state ≡ moved
    → check_target (identifier name l) line c ≡ c
unfolding check_target assign_found
target_moved name i l line c e o = rw (e, assign_found) (rw (o, assign_found) refl)

restore_moved :
    (name : String) (i : OwnershipInfo) (l : Line) (c : OwnershipChecker)
    → find name c.scopes ≡ some i
    → i.state ≡ moved
    → restore_target (identifier name l) c ≡ update name to_owned c
unfolding restore_target restore_found
restore_moved name i l c e o = rw (e, restore_found) (rw (o, restore_found) refl)

module _ (name : String) (i : OwnershipInfo) (c : OwnershipChecker)
    (found : find name c.scopes ≡ some i) where
  -- What is known of the variable stays through statements that do not mention it.
  after_others :
      (ss : Stmts) → AvoidsStmts name ss → find name (check_statements ss c).scopes ≡ some i
  after_others ss a =
      find-Same name c (check_statements ss c) (check_statements-Same name ss c a) ∙ found

  after_value : (e : Expr) → Avoids name e → find name (check_expression e true c).scopes ≡ some i
  after_value e a =
      find-Same name c (check_expression e true c) (check_expression-Same name e true c a) ∙ found

  after_move :
      (line : Line)
      → i.state ≡ owned
      → i.kind ≡ move_kind
      → find name (check_expression (identifier name line) true c).scopes ≡ some (to_moved line i)
  unfolding check_expression update
  after_move line o m =
      rw (first_use name i line c found o m) (find-change name (to_moved line) i c.scopes found)

  after_assignment :
      (l line : Line) (value : Expr)
      → i.state ≡ moved
      → Avoids name value
      → find name (check_assignment (identifier name l) value line c).scopes ≡ some (to_owned i)
  unfolding check_assignment update
  after_assignment l line value o a =
      let c1 : OwnershipChecker = check_expression value true c in
      rw (target_moved name i l line c found o) (
        rw (restore_moved name i l c1 (after_value value a) o)
          (find-change name to_owned i c1.scopes (after_value value a)))

-- A variable that is owned and of no copied type is moved by its first consuming use. After any
-- statements that do not mention it, a use of it adds one error, which names the lines of the move
-- and of the use. If instead a value that does not mention it is assigned to it there, a use adds
-- no error after any further statements that do not mention it.
pub use_after_move :
    (name : String) (i : OwnershipInfo) (first second : Line) (again : Bool) (between later : Stmts)
    (value : Expr) (c : OwnershipChecker)
    → find name c.scopes ≡ some i
    → i.state ≡ owned
    → i.kind ≡ move_kind
    → AvoidsStmts name between
    → AvoidsStmts name later
    → Avoids name value
    → let c1 : OwnershipChecker =
        check_statements between (check_expression (identifier name first) true c) in
      ((check_expression (identifier name second) again c1).errors
        ≡ c1.errors ++ (use_moved name first second ∷ []))
      × ((l line : Line)
          → let c2 : OwnershipChecker =
              check_statements later (check_assignment (identifier name l) value line c1) in
            (check_expression (identifier name second) again c2).errors ≡ c2.errors)
unfolding check_expression report
use_after_move name i first second again between later value c e o m b d a =
    let c0 : OwnershipChecker = check_expression (identifier name first) true c in
    let c1 : OwnershipChecker = check_statements between c0 in
    let e1 : find name c1.scopes ≡ some (to_moved first i) =
      after_others name (to_moved first i) c0 (after_move name i c e first o m) between b in
    (
      rw (use_of_moved name (to_moved first i) second again c1 e1 refl) refl,
      λ l line.
          let c2 : OwnershipChecker = check_assignment (identifier name l) value line c1 in
          use_of_owned name (to_owned (to_moved first i)) second again (check_statements later c2)
            (after_others name (to_owned (to_moved first i)) c2
              (after_assignment name (to_moved first i) c1 e1 l line value refl a) later d)
            refl,
    )

-- A loop on a literal, whose body is a call with one variable as its argument.
abbrev pub taking_loop : String → Line → Stmt
taking_loop name line =
    while_stmt other_expr
      (more_stmts (expr_stmt (call_expr (more_exprs (identifier name line) no_exprs))) no_stmts)
