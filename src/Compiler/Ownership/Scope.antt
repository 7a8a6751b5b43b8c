-- ===== src/Compiler/Ownership/Scope.antt =====
-- OwnershipInfo and OwnershipScope of compiler/ownership.py. A scope and its parents are a list,
-- innermost first; `name` and `children`, which nothing reads, are left out.
use poodillion.Prelude.{
  String, Bool, true, false, ◌&&◌, Option, none, some, List, [], ◌∷◌, ◌++◌, ◌==◌, contains, nat_eq,
  string_eq, ◌≡◌, refl, ◌⊎◌, inl, inr, if◌then◌else◌,
}
use poodillion.Prelude.Dict.{Dict, lookup, insert, map_values}
use poodillion.Compiler.Ownership.Syntax.{Line}

pub data OwnershipState : Type 0 where
  owned moved borrowed mut_borrowed : OwnershipState

-- BORROW is not used by the checker.
pub data ValueKind : Type 0 where
  copy_kind move_kind borrow_kind : ValueKind

pub record OwnershipInfo : Type 0 where
  pub name : String
  pub state : OwnershipState
  pub kind : ValueKind
  pub moved_at : Line
  pub borrowed_by : List String
  pub mutable_borrow : Option String

abbrev pub Scopes : Type 0
Scopes = List (Dict String OwnershipInfo)

pub State-cases :
    (s : OwnershipState) → (s ≡ owned) ⊎ (s ≡ moved) ⊎ (s ≡ borrowed) ⊎ (s ≡ mut_borrowed)
State-cases owned = inl refl
State-cases moved = inr (inl refl)
State-cases borrowed = inr (inr (inl refl))
State-cases mut_borrowed = inr (inr (inr refl))

abbrev pub is_owned : OwnershipState → Bool
is_owned owned = true
is_owned _ = false

abbrev pub is_moved : OwnershipState → Bool
is_moved moved = true
is_moved _ = false

abbrev pub is_borrowed : OwnershipState → Bool
is_borrowed borrowed = true
is_borrowed _ = false

abbrev pub is_move : ValueKind → Bool
is_move move_kind = true
is_move _ = false

-- OwnershipInfo(name, OwnershipState.OWNED, kind)
unfoldable pub new_info : String → ValueKind → OwnershipInfo
new_info name kind = record {
  name = name;
  state = owned;
  kind = kind;
  moved_at = none;
  borrowed_by = [];
  mutable_borrow = none;
}

unfoldable pub declare : String → ValueKind → Scopes → Scopes
unfolding new_info
declare name kind [] = []
declare name kind (s ∷ parents) = insert name (new_info name kind) s ∷ parents

-- OwnershipScope.lookup
unfoldable pub find : String → Scopes → Option OwnershipInfo
find name [] = none
find name (s ∷ parents) = elim (lookup name s) [ some i ↦ some i | none ↦ find name parents ]

-- The change of the object that `find` returns.
unfoldable pub change : String → (OwnershipInfo → OwnershipInfo) → Scopes → Scopes
change name f [] = []
change name f (s ∷ parents) = elim (lookup name s) [
  | some i ↦ insert name (f i) s ∷ parents
  | none ↦ s ∷ change name f parents
]

-- What the methods below write.
abbrev pub to_moved : Line → OwnershipInfo → OwnershipInfo
to_moved line i = record i { state = moved; moved_at = line }

abbrev pub to_borrowed : String → OwnershipInfo → OwnershipInfo
to_borrowed borrower i = record i {
  state = if is_owned i.state then borrowed else i.state;
  borrowed_by = i.borrowed_by ++ (borrower ∷ []);
}

abbrev pub to_mut_borrowed : String → OwnershipInfo → OwnershipInfo
to_mut_borrowed borrower i = record i { state = mut_borrowed; mutable_borrow = some borrower }

unfoldable pub mark_moved : String → Line → Scopes → Scopes
unfolding change
mark_moved name line scopes = change name (to_moved line) scopes

unfoldable pub mark_borrowed : String → String → Scopes → Scopes
unfolding change
mark_borrowed name borrower scopes = change name (to_borrowed borrower) scopes

unfoldable pub mark_mut_borrowed : String → String → Scopes → Scopes
unfolding change
mark_mut_borrowed name borrower scopes = change name (to_mut_borrowed borrower) scopes

-- list.remove
unfoldable pub remove_first : String → List String → List String
remove_first b [] = []
remove_first b (x ∷ xs) = let rest = remove_first b xs in if x == b then xs else x ∷ rest

abbrev pub is_nil {ℓ} : {A : Type ℓ} → List A → Bool
is_nil [] = true
is_nil (x ∷ xs) = false

abbrev pub holds_mut : String → Option String → Bool
holds_mut borrower none = false
holds_mut borrower (some b) = b == borrower

-- The two tests of `release_borrows` on one variable.
unfoldable pub release_shared : String → OwnershipInfo → OwnershipInfo
unfolding remove_first
release_shared borrower i =
    let rest = remove_first borrower i.borrowed_by in
    if contains i.borrowed_by borrower
    then record i {
      state = if is_nil rest && is_borrowed i.state then owned else i.state;
      borrowed_by = rest;
    }
    else i

unfoldable pub release_mut : String → OwnershipInfo → OwnershipInfo
release_mut borrower i =
    if holds_mut borrower i.mutable_borrow
    then record i { state = owned; mutable_borrow = none }
    else i

-- Only the innermost scope is searched.
unfoldable pub release_borrows : String → Scopes → Scopes
unfolding release_shared release_mut
release_borrows borrower [] = []
release_borrows borrower (s ∷ parents) =
    map_values (λ i. release_mut borrower (release_shared borrower i)) s ∷ parents
