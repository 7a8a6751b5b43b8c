-- ===== src/Compiler/Ownership/Checker.antt =====
-- OwnershipChecker of compiler/ownership.py: the checker's two fields, the list of errors and the
-- stack of scopes, are passed on from call to call. `scope_stack` and the chain of parents of
-- `current_scope` are one list, since they are pushed and popped together.
use poodillion.Prelude.{
  ◌+◌, String, Bool, true, false, ◌&&◌, Option, none, some, List, [], ◌∷◌, ◌++◌, leb, contains, map,
  nat_eq, string_eq, text_eq, if◌then◌else◌,
}
use poodillion.Prelude.{Text, text_of}
use poodillion.Compiler.Ownership.Syntax.{Line, Ty, Expr, named, pointer, other_type, identifier}
use poodillion.Compiler.Ownership.Scope.{
  owned, moved, borrowed, mut_borrowed, ValueKind, copy_kind, move_kind, OwnershipInfo, Scopes,
  is_move, declare, find, change, to_moved, to_borrowed,
}

-- OwnershipError: one constructor for each message, with what is printed in it, and the line.
pub data OwnershipError : Type 0 where
  assign_borrowed : String → Line → OwnershipError
  assign_mut_borrowed : String → Line → OwnershipError
  use_moved : String → Line → Line → OwnershipError
  use_mut_borrowed : String → Option String → Line → OwnershipError
  borrow_moved : String → Line → OwnershipError
  borrow_mut_borrowed : String → Line → OwnershipError

pub record OwnershipChecker : Type 0 where
  pub errors : List OwnershipError
  pub scopes : Scopes

abbrev pub copy_types : List Text
copy_types = map text_of (
    "int8" ∷ "int16" ∷ "int32" ∷ "int64" ∷ "uint8" ∷ "uint16" ∷ "uint32" ∷ "uint64" ∷ "bool"
    ∷ "char" ∷ "float32" ∷ "float64" ∷ "i8" ∷ "i16" ∷ "i32" ∷ "i64" ∷ "u8" ∷ "u16" ∷ "u32" ∷ "u64"
    ∷ [])

-- str.lower, on the letters of ASCII: no other character has a letter of `copy_types` below it.
abbrev pub lower : Text → Text
lower s = map (λ c. if leb b'A' c && leb c b'Z' then c + 32 else c) s

unfoldable pub is_copy_type : Ty → Bool
is_copy_type (named name) = contains copy_types (lower name)
is_copy_type pointer = true
is_copy_type other_type = false

-- _get_value_kind
unfoldable pub value_kind : Ty → ValueKind
unfolding is_copy_type
value_kind ty = if is_copy_type ty then copy_kind else move_kind

unfoldable pub report : OwnershipError → OwnershipChecker → OwnershipChecker
report e c = record c { errors = c.errors ++ (e ∷ []) }

unfoldable pub update :
    String → (OwnershipInfo → OwnershipInfo) → OwnershipChecker → OwnershipChecker
update name f c = record c { scopes = change name f c.scopes }

unfoldable pub push_scope : OwnershipChecker → OwnershipChecker
push_scope c = record c { scopes = [] ∷ c.scopes }

unfoldable pub pop_scope : OwnershipChecker → OwnershipChecker
pop_scope c = record c { scopes = elim c.scopes [ [] ↦ [] | s ∷ parents ↦ parents ] }

-- self.current_scope.declare
unfoldable pub declare_in : String → ValueKind → OwnershipChecker → OwnershipChecker
declare_in name kind c = record c { scopes = declare name kind c.scopes }

-- The tests of `_check_identifier_use` on the variable that was found.
unfoldable pub use_found :
    String → Bool → Line → Option OwnershipInfo → OwnershipChecker → OwnershipChecker
unfolding report update
use_found name consuming line none c = c
use_found name consuming line (some info) c = elim info.state [
  | moved ↦ report (use_moved name info.moved_at line) c
  | mut_borrowed ↦ report (use_mut_borrowed name info.mutable_borrow line) c
  | owned ↦ if consuming && is_move info.kind then update name (to_moved line) c else c
  | borrowed ↦ if consuming && is_move info.kind then update name (to_moved line) c else c
]

unfoldable pub check_identifier_use : String → Bool → Line → OwnershipChecker → OwnershipChecker
unfolding use_found
check_identifier_use name consuming line c = use_found name consuming line (find name c.scopes) c

-- The tests of `_check_addr_of` on the variable that was found.
unfoldable pub borrow_found :
    String → Line → Option OwnershipInfo → OwnershipChecker → OwnershipChecker
unfolding report update
borrow_found name line none c = c
borrow_found name line (some info) c = elim info.state [
  | moved ↦ report (borrow_moved name line) c
  | mut_borrowed ↦ report (borrow_mut_borrowed name line) c
  | owned ↦ update name (to_borrowed "addr_of") c
  | borrowed ↦ update name (to_borrowed "addr_of") c
]

unfoldable pub check_addr_of : Expr → Line → OwnershipChecker → OwnershipChecker
unfolding borrow_found
check_addr_of (identifier name l) line c = borrow_found name line (find name c.scopes) c
check_addr_of _ line c = c
