-- ===== src/Compiler/Ownership/Errors.antt =====
-- Which errors compiler/ownership.py can report, for every program and for programs of Copy types.
use poodillion.Prelude.{Bool, true, false, ◌≡◌, ◌≢◌, refl, List, arith}
use poodillion.Compiler.Ownership.Syntax.{Ty, Decl}
use poodillion.Compiler.Ownership.Scope.{moved, mut_borrowed, is_move, new_info}
use poodillion.Compiler.Ownership.Checker.{
  OwnershipError, assign_borrowed, assign_mut_borrowed, use_moved, use_mut_borrowed, borrow_moved,
  borrow_mut_borrowed, is_copy_type, value_kind,
}
use poodillion.Compiler.Ownership.Check.{check_ownership}
use poodillion.Compiler.Ownership.Steps.{DeclaresProgram}
use poodillion.Compiler.Ownership.Growth.{AnyType, declares_program}
use poodillion.Compiler.Ownership.Invariants.{IsInvariant, check_ownership-Each}
use poodillion.Compiler.Ownership.Each.{Each}

-- The errors that only a mutably borrowed variable gives.
abbrev pub is_mut_error : OwnershipError → Bool
is_mut_error (assign_borrowed name line) = false
is_mut_error (assign_mut_borrowed name line) = true
is_mut_error (use_moved name at line) = false
is_mut_error (use_mut_borrowed name by line) = true
is_mut_error (borrow_moved name line) = false
is_mut_error (borrow_mut_borrowed name line) = true

abbrev pub is_assign_borrowed : OwnershipError → Bool
is_assign_borrowed (assign_borrowed name line) = true
is_assign_borrowed _ = false

never_mut : IsInvariant AnyType (λ i. i.state ≢ mut_borrowed) (λ e. is_mut_error e ≡ false)
never_mut = record {
  fresh = λ name ty t e. unfold new_info in cc;
  fresh_copy = λ name e. unfold new_info in cc;
  moves = λ i line p m e. cc;
  borrows = λ i p m n e. ground arith;
  restores = λ i p e. cc;
  when_moved = λ i name line p e. (refl, refl);
  when_borrowed = λ i name line p e. refl;
  when_mut_borrowed = λ i name line p e. absurd (p e);
}

-- No program gets an error about a mutable borrow: the three messages are never reported.
pub check_ownership-no_mut :
    (program : List Decl) → Each (λ e. is_mut_error e ≡ false) (check_ownership program)
check_ownership-no_mut program = check_ownership-Each never_mut program (declares_program program)

-- The types that are copied.
abbrev pub IsCopy : Ty → Type 0
IsCopy ty = is_copy_type ty ≡ true

only_copies :
    IsInvariant IsCopy
      (λ i. (is_move i.kind ≡ false) × (i.state ≢ moved) × (i.state ≢ mut_borrowed))
      (λ e. is_assign_borrowed e ≡ true)
only_copies = record {
  fresh = λ name ty t. unfold new_info value_kind in (rw t refl, λ e. cc, λ e. cc);
  fresh_copy = λ name. unfold new_info in (refl, λ e. cc, λ e. cc);
  moves = λ i line p m. absurd (ground arith);
  borrows = λ i p m n. (p.0, λ e. ground arith, λ e. ground arith);
  restores = λ i p. (p.0, λ e. cc, λ e. cc);
  when_moved = λ i name line p e. absurd (p.1 e);
  when_borrowed = λ i name line p e. refl;
  when_mut_borrowed = λ i name line p e. absurd (p.2 e);
}

-- In a program all of whose variables and parameters have types that are copied, nothing is ever
-- moved: the only errors are assignments to a variable whose address was taken.
pub check_ownership-copies :
    (program : List Decl)
    → DeclaresProgram IsCopy program
    → Each (λ e. is_assign_borrowed e ≡ true) (check_ownership program)
check_ownership-copies program t = check_ownership-Each only_copies program t
