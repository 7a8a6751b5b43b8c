-- ===== src/Compiler/Ownership/Growth.antt =====
-- Errors of compiler/ownership.py are only added, and every block leaves as many scopes as it found.
use poodillion.Prelude.{
  ℕ, suc, String, Bool, true, false, ◌&&◌, ◌≡◌, refl, ap, ◌∙◌, Option, none, some, List, [], ◌∷◌,
  ◌++◌, length, string_eq, if◌then◌else◌, arith, Option-cases, inl, inr,
}
use poodillion.Prelude.Dict.{lookup}
use poodillion.Compiler.Ownership.Syntax.{
  Line, Ty, Expr, Stmt, Stmts, Elifs, Decl, identifier, no_stmts, more_stmts, no_elifs, more_elifs,
  var_decl, assignment, return_stmt, if_stmt, while_stmt, for_stmt, expr_stmt, other_stmt,
  proc_decl, global_decl, other_decl,
}
use poodillion.Compiler.Ownership.Scope.{
  ValueKind, copy_kind, OwnershipInfo, Scopes, State-cases, is_move, declare, find, change,
  to_moved, to_borrowed,
}
use poodillion.Compiler.Ownership.Checker.{
  OwnershipError, OwnershipChecker, value_kind, report, update, push_scope, pop_scope, declare_in,
  use_found, check_identifier_use, borrow_found, check_addr_of,
}
use poodillion.Compiler.Ownership.Check.{
  check_statement, assign_found, restore_found, check_target, restore_target, to_owned,
}
use poodillion.Compiler.Ownership.Steps.{
  IsSteps, Declares, DeclaresAll, DeclaresElifs, DeclaresParams, DeclaresDecl, DeclaresProgram,
  statement_lem,
}

-- The errors of the first are the first errors of the second, and the depths are the same.
abbrev pub Grows : OwnershipChecker → OwnershipChecker → Type 0
Grows c c' =
    (length c.scopes ≡ length c'.scopes) × (es : List OwnershipError) × (c'.errors ≡ c.errors ++ es)

append_nil {ℓ} : {A : Type ℓ} (xs : List A) → xs ≡ xs ++ []
append_nil [] = refl
append_nil (x ∷ xs) = ap (λ ys. x ∷ ys) (append_nil xs)

append_assoc {ℓ} : {A : Type ℓ} (xs ys zs : List A) → (xs ++ ys) ++ zs ≡ xs ++ (ys ++ zs)
append_assoc [] ys zs = refl
append_assoc (x ∷ xs) ys zs = ap (λ ws. x ∷ ws) (append_assoc xs ys zs)

length-change :
    (name : String) (f : OwnershipInfo → OwnershipInfo) (s : Scopes)
    → length s ≡ length (change name f s)
unfolding change
length-change name f [] = refl
length-change name f (d ∷ s) = elim (Option-cases (lookup name d)) [
  | inl e ↦ rw (e, change) (ap suc (length-change name f s))
  | inr (i, e) ↦ rw (e, change) refl
]

length-declare : (name : String) (k : ValueKind) (s : Scopes) → length s ≡ length (declare name k s)
unfolding declare
length-declare name k [] = refl
length-declare name k (d ∷ s) = refl

stays : (c : OwnershipChecker) → Grows c c
stays c = (refl, [], append_nil c.errors)

reports : (e : OwnershipError) (c : OwnershipChecker) → Grows c (report e c)
unfolding report
reports e c = (refl, e ∷ [], refl)

updates :
    (name : String) (f : OwnershipInfo → OwnershipInfo) (c : OwnershipChecker)
    → Grows c (update name f c)
unfolding update
updates name f c = (length-change name f c.scopes, [], append_nil c.errors)

moves :
    (name : String) (line : Line) (b : Bool) (c : OwnershipChecker)
    → Grows c (if b then update name (to_moved line) c else c)
moves name line true c = updates name (to_moved line) c
moves name line false c = stays c

uses :
    (name : String) (consuming : Bool) (line : Line) (o : Option OwnershipInfo)
    (c : OwnershipChecker)
    → Grows c (use_found name consuming line o c)
unfolding use_found
uses name consuming line none c = stays c
uses name consuming line (some i) c = elim (State-cases i.state) [
  | inl e ↦ rw (e, use_found) (moves name line (consuming && is_move i.kind) c)
  | inr (inl e) ↦ rw (e, use_found) (reports _ c)
  | inr (inr (inl e)) ↦ rw (e, use_found) (moves name line (consuming && is_move i.kind) c)
  | inr (inr (inr e)) ↦ rw (e, use_found) (reports _ c)
]

borrows :
    (name : String) (line : Line) (o : Option OwnershipInfo) (c : OwnershipChecker)
    → Grows c (borrow_found name line o c)
unfolding borrow_found
borrows name line none c = stays c
borrows name line (some i) c = elim (State-cases i.state) [
  | inl e ↦ rw (e, borrow_found) (updates name (to_borrowed "addr_of") c)
  | inr (inl e) ↦ rw (e, borrow_found) (reports _ c)
  | inr (inr (inl e)) ↦ rw (e, borrow_found) (updates name (to_borrowed "addr_of") c)
  | inr (inr (inr e)) ↦ rw (e, borrow_found) (reports _ c)
]

assigns :
    (name : String) (line : Line) (o : Option OwnershipInfo) (c : OwnershipChecker)
    → Grows c (assign_found name line o c)
unfolding assign_found
assigns name line none c = stays c
assigns name line (some i) c = elim (State-cases i.state) [
  | inl e ↦ rw (e, assign_found) (stays c)
  | inr (inl e) ↦ rw (e, assign_found) (stays c)
  | inr (inr (inl e)) ↦ rw (e, assign_found) (reports _ c)
  | inr (inr (inr e)) ↦ rw (e, assign_found) (reports _ c)
]

restores :
    (name : String) (o : Option OwnershipInfo) (c : OwnershipChecker)
    → Grows c (restore_found name o c)
unfolding restore_found
restores name none c = stays c
restores name (some i) c = elim (State-cases i.state) [
  | inl e ↦ rw (e, restore_found) (stays c)
  | inr (inl e) ↦ rw (e, restore_found) (updates name to_owned c)
  | inr (inr (inl e)) ↦ rw (e, restore_found) (stays c)
  | inr (inr (inr e)) ↦ rw (e, restore_found) (stays c)
]

chains : (a b c : OwnershipChecker) → Grows a b → Grows b c → Grows a c
chains a b c (p, es, q) (r, fs, t) =
    (p ∙ r, es ++ fs, t ∙ (ap (λ xs. xs ++ fs) q ∙ append_assoc a.errors es fs))

length-pop :
    (n : ℕ) (s : Scopes)
    → suc n ≡ length s
    → n ≡ length (elim s [ [] ↦ [] | d ∷ parents ↦ parents ])
length-pop n [] h = cc
length-pop n (d ∷ s) h = omega arith

blocks : (c c' : OwnershipChecker) → Grows (push_scope c) c' → Grows c (pop_scope c')
unfolding push_scope pop_scope
blocks c c' (p, es, q) = (length-pop (length c.scopes) c'.scopes p, es, q)

abbrev pub AnyType : Ty → Type 0
AnyType ty = Unit

declares : (name : String) (k : ValueKind) (c : OwnershipChecker) → Grows c (declare_in name k c)
unfolding declare_in
declares name k c = (length-declare name k c.scopes, [], append_nil c.errors)

Grows-IsSteps : IsSteps AnyType Grows
unfolding check_identifier_use check_addr_of check_target restore_target
Grows-IsSteps = record {
  stay = stays;
  chain = chains;
  uses = λ name consuming line c. uses name consuming line (find name c.scopes) c;
  borrows = borrow;
  targets = target;
  restores = restore;
  declares = λ name ty c t. declares name (value_kind ty) c;
  loops = λ name c. declares name copy_kind c;
  block = blocks;
}
  where
    borrow : (e : Expr) (line : Line) (c : OwnershipChecker) → Grows c (check_addr_of e line c)
    borrow (identifier name l) line c = borrows name line (find name c.scopes) c
    borrow _ line c = stays c

    target : (e : Expr) (line : Line) (c : OwnershipChecker) → Grows c (check_target e line c)
    target (identifier name l) line c = assigns name line (find name c.scopes) c
    target _ line c = stays c

    restore : (e : Expr) (c : OwnershipChecker) → Grows c (restore_target e c)
    restore (identifier name l) c = restores name (find name c.scopes) c
    restore _ c = stays c

mutual
  unfolding Declares

  Declares-any : (x : Stmt) → Declares AnyType x
  Declares-any (var_decl name ty value) = tt
  Declares-any (assignment target value line) = tt
  Declares-any (return_stmt value) = tt
  Declares-any (if_stmt cond then_block elifs else_block) =
      (declares_all then_block, declares_elifs elifs, declares_all else_block)
  Declares-any (while_stmt cond body) = declares_all body
  Declares-any (for_stmt var start end body) = declares_all body
  Declares-any (expr_stmt e) = tt
  Declares-any other_stmt = tt

  declares_all : (xs : Stmts) → DeclaresAll AnyType xs
  declares_all no_stmts = tt
  declares_all (more_stmts x xs) = (Declares-any x, declares_all xs)

  declares_elifs : (xs : Elifs) → DeclaresElifs AnyType xs
  declares_elifs no_elifs = tt
  declares_elifs (more_elifs cond block rest) = (declares_all block, declares_elifs rest)

-- Checking a statement leaves as many scopes open as it found, and only adds errors at the end of
-- the list.
pub check_statement-Grows : (x : Stmt) (c : OwnershipChecker) → Grows c (check_statement x c)
check_statement-Grows x c = statement_lem Grows-IsSteps x c (Declares-any x)

declares_params : (ps : List (String × Ty)) → DeclaresParams AnyType ps
declares_params [] = tt
declares_params ((name, ty) ∷ ps) = (tt, declares_params ps)

declares_decl : (d : Decl) → DeclaresDecl AnyType d
declares_decl (proc_decl params body) = (declares_params params, declares_all body)
declares_decl (global_decl name ty value) = tt
declares_decl other_decl = tt

pub declares_program : (ds : List Decl) → DeclaresProgram AnyType ds
declares_program [] = tt
declares_program (d ∷ ds) = (declares_decl d, declares_program ds)
