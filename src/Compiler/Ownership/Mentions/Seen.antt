-- ===== src/Compiler/Ownership/Mentions/Seen.antt =====
-- The single steps of compiler/ownership.py on one variable leave what is known of another.
use poodillion.Prelude.{
  String, Bool, true, false, ◌&&◌, ◌≡◌, ◌≢◌, refl, ap, Option, none, some, List, [], ◌∷◌, string_eq,
  if◌then◌else◌, arith, Option-cases, inl, inr,
}
use poodillion.Prelude.Dict.{lookup, lookup-insert}
use poodillion.Compiler.Ownership.Syntax.{Line, Expr, identifier}
use poodillion.Compiler.Ownership.Scope.{
  ValueKind, OwnershipInfo, Scopes, State-cases, is_move, new_info, declare, find, change, to_moved,
  to_borrowed,
}
use poodillion.Compiler.Ownership.Checker.{
  OwnershipChecker, report, update, push_scope, pop_scope, declare_in, use_found, borrow_found,
  check_addr_of,
}
use poodillion.Compiler.Ownership.Check.{
  assign_found, restore_found, check_target, restore_target, to_owned,
}
use poodillion.Compiler.Ownership.Mentions.{Avoids}

module _ (x : String) where
  -- What each scope has under the name.
  unfoldable pub seen : Scopes → List (Option OwnershipInfo)
  seen [] = []
  seen (d ∷ s) = lookup x d ∷ seen s

  unfoldable first_seen : List (Option OwnershipInfo) → Option OwnershipInfo
  first_seen [] = none
  first_seen (some i ∷ os) = some i
  first_seen (none ∷ os) = first_seen os

  find-seen : (s : Scopes) → find x s ≡ first_seen (seen s)
  unfolding find seen first_seen
  find-seen [] = refl
  find-seen (d ∷ s) = elim (Option-cases (lookup x d)) [
    | inl e ↦ rw (e, find) (find-seen s)
    | inr (i, e) ↦ rw (e, find) refl
  ]

  -- The same is known of the variable, in every scope.
  abbrev pub Same : OwnershipChecker → OwnershipChecker → Type 0
  Same c c' = seen c.scopes ≡ seen c'.scopes

  pub find-Same : (c c' : OwnershipChecker) → Same c c' → find x c'.scopes ≡ find x c.scopes
  find-Same c c' e = cc (find-seen c.scopes, find-seen c'.scopes, ap first_seen e)

  seen-change :
      (name : String) (f : OwnershipInfo → OwnershipInfo) (s : Scopes)
      → name ≢ x
      → seen s ≡ seen (change name f s)
  unfolding change seen
  seen-change name f [] ne = refl
  seen-change name f (d ∷ s) ne = elim (Option-cases (lookup name d)) [
    | inl e ↦ rw (e, change) (ap (λ os. lookup x d ∷ os) (seen-change name f s ne))
    | inr (i, e) ↦
        rw (e, change) (ap (λ o. o ∷ seen s) (ground (arith, lookup-insert x name (f i) d)))
  ]

  pub declares_other :
      (name : String) (k : ValueKind) (c : OwnershipChecker)
      → name ≢ x
      → Same c (declare_in name k c)
  unfolding declare_in declare seen
  declares_other name k c ne = go c.scopes
    where
      go : (s : Scopes) → seen s ≡ seen (declare name k s)
      go [] = refl
      go (d ∷ s) = ap (λ o. o ∷ seen s) (ground (arith, lookup-insert x name (new_info name k) d))

  updates_other :
      (name : String) (f : OwnershipInfo → OwnershipInfo) (c : OwnershipChecker)
      → name ≢ x
      → Same c (update name f c)
  unfolding update
  updates_other name f c ne = seen-change name f c.scopes ne

  moves_other :
      (name : String) (line : Line) (b : Bool) (c : OwnershipChecker)
      → name ≢ x
      → Same c (if b then update name (to_moved line) c else c)
  moves_other name line true c ne = updates_other name (to_moved line) c ne
  moves_other name line false c ne = refl

  pub uses_other :
      (name : String) (consuming : Bool) (line : Line) (o : Option OwnershipInfo)
      (c : OwnershipChecker)
      → name ≢ x
      → Same c (use_found name consuming line o c)
  unfolding use_found report
  uses_other name consuming line none c ne = refl
  uses_other name consuming line (some i) c ne = elim (State-cases i.state) [
    | inl e ↦ rw (e, use_found) (moves_other name line (consuming && is_move i.kind) c ne)
    | inr (inl e) ↦ rw (e, use_found) refl
    | inr (inr (inl e)) ↦
        rw (e, use_found) (moves_other name line (consuming && is_move i.kind) c ne)
    | inr (inr (inr e)) ↦ rw (e, use_found) refl
  ]

  pub borrows_other :
      (e : Expr) (line : Line) (c : OwnershipChecker) → Avoids x e → Same c (check_addr_of e line c)
  unfolding check_addr_of Avoids borrow_found report
  borrows_other (identifier name l) line c ne = go (find name c.scopes)
    where
      go : (o : Option OwnershipInfo) → Same c (borrow_found name line o c)
      go none = refl
      go (some i) = elim (State-cases i.state) [
        | inl e ↦ rw (e, borrow_found) (updates_other name (to_borrowed "addr_of") c ne)
        | inr (inl e) ↦ rw (e, borrow_found) refl
        | inr (inr (inl e)) ↦ rw (e, borrow_found) (updates_other name (to_borrowed "addr_of") c ne)
        | inr (inr (inr e)) ↦ rw (e, borrow_found) refl
      ]
  borrows_other _ line c a = refl

  pub assigns_other :
      (e : Expr) (line : Line) (c : OwnershipChecker) → Avoids x e → Same c (check_target e line c)
  unfolding check_target Avoids assign_found report
  assigns_other (identifier name l) line c ne = go (find name c.scopes)
    where
      go : (o : Option OwnershipInfo) → Same c (assign_found name line o c)
      go none = refl
      go (some i) = elim (State-cases i.state) [
        | inl e ↦ rw (e, assign_found) refl
        | inr (inl e) ↦ rw (e, assign_found) refl
        | inr (inr (inl e)) ↦ rw (e, assign_found) refl
        | inr (inr (inr e)) ↦ rw (e, assign_found) refl
      ]
  assigns_other _ line c a = refl

  pub restores_other : (e : Expr) (c : OwnershipChecker) → Avoids x e → Same c (restore_target e c)
  unfolding restore_target Avoids restore_found
  restores_other (identifier name l) c ne = go (find name c.scopes)
    where
      go : (o : Option OwnershipInfo) → Same c (restore_found name o c)
      go none = refl
      go (some i) = elim (State-cases i.state) [
        | inl e ↦ rw (e, restore_found) refl
        | inr (inl e) ↦ rw (e, restore_found) (updates_other name to_owned c ne)
        | inr (inr (inl e)) ↦ rw (e, restore_found) refl
        | inr (inr (inr e)) ↦ rw (e, restore_found) refl
      ]
  restores_other _ c a = refl

  -- A block that leaves every scope alone, its own included, leaves those around it alone.
  pub block_other : (c c' : OwnershipChecker) → Same (push_scope c) c' → Same c (pop_scope c')
  unfolding push_scope pop_scope seen
  block_other c c' e = go c'.scopes e
    where
      go :
          (s : Scopes)
          → lookup x [] ∷ seen c.scopes ≡ seen s
          → seen c.scopes ≡ seen (elim s [ [] ↦ [] | d ∷ parents ↦ parents ])
      go [] h = cc
      go (d ∷ s) h = cc
