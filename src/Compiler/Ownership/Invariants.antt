-- ===== src/Compiler/Ownership/Invariants.antt =====
-- Invariants of the walk of compiler/ownership.py: a predicate on the variables in scope and one on
-- the errors reported.
use poodillion.Prelude.{
  String, Bool, true, false, ◌&&◌, ◌≡◌, ◌≢◌, refl, subst, Option, none, some, List, [], ◌∷◌, ◌++◌,
  string_eq, if◌then◌else◌, arith, Bool-cases, inl, inr,
}
use poodillion.Compiler.Ownership.Syntax.{Line, Ty, Expr, Decl, identifier}
use poodillion.Compiler.Ownership.Scope.{
  moved, borrowed, mut_borrowed, ValueKind, copy_kind, OwnershipInfo, Scopes, State-cases, is_move,
  new_info, declare, find, to_moved, to_borrowed,
}
use poodillion.Compiler.Ownership.Checker.{
  OwnershipError, assign_borrowed, assign_mut_borrowed, use_moved, use_mut_borrowed, borrow_moved,
  borrow_mut_borrowed, OwnershipChecker, value_kind, report, update, push_scope, pop_scope,
  declare_in, use_found, check_identifier_use, borrow_found, check_addr_of,
}
use poodillion.Compiler.Ownership.Check.{
  assign_found, restore_found, check_target, restore_target, to_owned, check_ownership,
  start_checker,
}
use poodillion.Compiler.Ownership.Each.{Each, EachIn, insert-EachIn, find-Each, change-Each}
use poodillion.Compiler.Ownership.Steps.{IsSteps, DeclaresProgram, program_lem}

-- What single variables and errors must satisfy, for types that satisfy `T`.
pub record IsInvariant (T : Ty → Type 0) (P : OwnershipInfo → Type 0) (Q : OwnershipError → Type 0)
    : Type 0 where
  pub fresh : (name : String) (ty : Ty) → T ty → P (new_info name (value_kind ty))
  pub fresh_copy : (name : String) → P (new_info name copy_kind)
  pub moves : (i : OwnershipInfo) (line : Line) → P i → is_move i.kind ≡ true → P (to_moved line i)
  pub borrows :
      (i : OwnershipInfo)
      → P i
      → i.state ≢ moved
      → i.state ≢ mut_borrowed
      → P (to_borrowed "addr_of" i)
  pub restores : (i : OwnershipInfo) → P i → P (to_owned i)
  pub when_moved :
      (i : OwnershipInfo) (name : String) (line : Line)
      → P i
      → i.state ≡ moved
      → Q (use_moved name i.moved_at line) × Q (borrow_moved name line)
  pub when_borrowed :
      (i : OwnershipInfo) (name : String) (line : Line)
      → P i
      → i.state ≡ borrowed
      → Q (assign_borrowed name line)
  pub when_mut_borrowed :
      (i : OwnershipInfo) (name : String) (line : Line)
      → P i
      → i.state ≡ mut_borrowed
      → Q (assign_mut_borrowed name line)
        × Q (use_mut_borrowed name i.mutable_borrow line)
        × Q (borrow_mut_borrowed name line)

module _ {T : Ty → Type 0} {P : OwnershipInfo → Type 0} {Q : OwnershipError → Type 0}
    (v : IsInvariant T P Q) where
  abbrev Good : OwnershipChecker → Type 0
  Good c = Each (EachIn P) c.scopes × Each Q c.errors

  snoc-Each :
      (e : OwnershipError) (es : List OwnershipError) → Each Q es → Q e → Each Q (es ++ (e ∷ []))
  snoc-Each e [] h q = (q, tt)
  snoc-Each e (x ∷ es) (p, h) q = (p, snoc-Each e es h q)

  report-Good : (e : OwnershipError) (c : OwnershipChecker) → Good c → Q e → Good (report e c)
  unfolding report
  report-Good e c (h, k) q = (h, snoc-Each e c.errors k q)

  update-Good :
      (name : String) (f : OwnershipInfo → OwnershipInfo) (i : OwnershipInfo) (c : OwnershipChecker)
      → Good c
      → find name c.scopes ≡ some i
      → P (f i)
      → Good (update name f c)
  unfolding update
  update-Good name f i c (h, k) e p = (
    change-Each P name f c.scopes h
        (λ j g. let same : i ≡ j = ground arith in subst (λ x. P (f x)) same p),
    k,
  )

  moves-Good :
      (name : String) (line : Line) (consuming : Bool) (i : OwnershipInfo) (c : OwnershipChecker)
      → Good c
      → find name c.scopes ≡ some i
      → Good (if consuming && is_move i.kind then update name (to_moved line) c else c)
  moves-Good name line false i c g e = g
  moves-Good name line true i c g e = elim (Bool-cases (is_move i.kind)) [
    | inl m ↦ rw m (
        update-Good name (to_moved line) i c g e
          (v.moves i line (find-Each P name i c.scopes g.0 e) m))
    | inr m ↦ rw m g
  ]

  use-Good :
      (name : String) (consuming : Bool) (line : Line) (o : Option OwnershipInfo)
      (c : OwnershipChecker)
      → find name c.scopes ≡ o
      → Good c
      → Good (use_found name consuming line o c)
  unfolding use_found
  use-Good name consuming line none c e g = g
  use-Good name consuming line (some i) c e g =
      let p : P i = find-Each P name i c.scopes g.0 e in
      elim (State-cases i.state) [
        | inl s ↦ rw (s, use_found) (moves-Good name line consuming i c g e)
        | inr (inl s) ↦ rw (s, use_found) (report-Good _ c g (v.when_moved i name line p s).0)
        | inr (inr (inl s)) ↦ rw (s, use_found) (moves-Good name line consuming i c g e)
        | inr (inr (inr s)) ↦
            rw (s, use_found) (report-Good _ c g (v.when_mut_borrowed i name line p s).1)
      ]

  borrow-Good :
      (name : String) (line : Line) (o : Option OwnershipInfo) (c : OwnershipChecker)
      → find name c.scopes ≡ o
      → Good c
      → Good (borrow_found name line o c)
  unfolding borrow_found
  borrow-Good name line none c e g = g
  borrow-Good name line (some i) c e g =
      let p : P i = find-Each P name i c.scopes g.0 e in
      elim (State-cases i.state) [
        | inl s ↦
            rw (s, borrow_found)
              (update-Good name (to_borrowed "addr_of") i c g e (v.borrows i p (λ m. cc) (λ m. cc)))
        | inr (inl s) ↦ rw (s, borrow_found) (report-Good _ c g (v.when_moved i name line p s).1)
        | inr (inr (inl s)) ↦
            rw (s, borrow_found)
              (update-Good name (to_borrowed "addr_of") i c g e (v.borrows i p (λ m. cc) (λ m. cc)))
        | inr (inr (inr s)) ↦
            rw (s, borrow_found) (report-Good _ c g (v.when_mut_borrowed i name line p s).2)
      ]

  assign-Good :
      (name : String) (line : Line) (o : Option OwnershipInfo) (c : OwnershipChecker)
      → find name c.scopes ≡ o
      → Good c
      → Good (assign_found name line o c)
  unfolding assign_found
  assign-Good name line none c e g = g
  assign-Good name line (some i) c e g =
      let p : P i = find-Each P name i c.scopes g.0 e in
      elim (State-cases i.state) [
        | inl s ↦ rw (s, assign_found) g
        | inr (inl s) ↦ rw (s, assign_found) g
        | inr (inr (inl s)) ↦
            rw (s, assign_found) (report-Good _ c g (v.when_borrowed i name line p s))
        | inr (inr (inr s)) ↦
            rw (s, assign_found) (report-Good _ c g (v.when_mut_borrowed i name line p s).0)
      ]

  restore-Good :
      (name : String) (o : Option OwnershipInfo) (c : OwnershipChecker)
      → find name c.scopes ≡ o
      → Good c
      → Good (restore_found name o c)
  unfolding restore_found
  restore-Good name none c e g = g
  restore-Good name (some i) c e g =
      let p : P i = find-Each P name i c.scopes g.0 e in
      elim (State-cases i.state) [
        | inl s ↦ rw (s, restore_found) g
        | inr (inl s) ↦ rw (s, restore_found) (update-Good name to_owned i c g e (v.restores i p))
        | inr (inr (inl s)) ↦ rw (s, restore_found) g
        | inr (inr (inr s)) ↦ rw (s, restore_found) g
      ]

  declare-Good :
      (name : String) (k : ValueKind) (c : OwnershipChecker)
      → P (new_info name k)
      → Good c
      → Good (declare_in name k c)
  unfolding declare_in
  declare-Good name k c p (h, g) = (go c.scopes h, g)
    where
      go : (s : Scopes) → Each (EachIn P) s → Each (EachIn P) (declare name k s)
      go [] h = unfold declare in tt
      go (d ∷ s) (q, h) = unfold declare in (insert-EachIn P name (new_info name k) d p q, h)

  abbrev Keeps : OwnershipChecker → OwnershipChecker → Type 0
  Keeps c c' = Good c → Good c'

  Keeps-IsSteps : IsSteps T Keeps
  unfolding check_identifier_use check_addr_of check_target restore_target
  Keeps-IsSteps = record {
    stay = λ c g. g;
    chain = λ a b c p q g. q (p g);
    uses = λ name consuming line c g. use-Good name consuming line (find name c.scopes) c refl g;
    borrows = borrow;
    targets = target;
    restores = restore;
    declares = λ name ty c t g. declare-Good name (value_kind ty) c (v.fresh name ty t) g;
    loops = λ name c g. declare-Good name copy_kind c (v.fresh_copy name) g;
    block = block;
  }
    where
      borrow : (e : Expr) (line : Line) (c : OwnershipChecker) → Keeps c (check_addr_of e line c)
      borrow (identifier name l) line c g = borrow-Good name line (find name c.scopes) c refl g
      borrow _ line c g = g

      target : (e : Expr) (line : Line) (c : OwnershipChecker) → Keeps c (check_target e line c)
      target (identifier name l) line c g = assign-Good name line (find name c.scopes) c refl g
      target _ line c g = g

      restore : (e : Expr) (c : OwnershipChecker) → Keeps c (restore_target e c)
      restore (identifier name l) c g = restore-Good name (find name c.scopes) c refl g
      restore _ c g = g

      pop : (s : Scopes) → Each (EachIn P) s → Each (EachIn P) (elim s [ [] ↦ [] | d ∷ ds ↦ ds ])
      pop [] h = tt
      pop (d ∷ s) h = h.1

      block : (c c' : OwnershipChecker) → Keeps (push_scope c) c' → Keeps c (pop_scope c')
      block c c' k g =
          unfold pop_scope push_scope in
          let r : Good c' = k ((tt, g.0), g.1) in (pop c'.scopes r.0, r.1)

  -- The errors of a program satisfy the predicate on errors.
  pub check_ownership-Each :
      (program : List Decl) → DeclaresProgram T program → Each Q (check_ownership program)
  unfolding check_ownership
  check_ownership-Each program t =
      (program_lem Keeps-IsSteps program start_checker t ((tt, tt), tt)).1
