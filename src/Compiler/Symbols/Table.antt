-- ===== src/Compiler/Symbols/Table.antt =====
-- Symbol, Scope and SymbolTable of compiler/symbols.py. The stack of scopes has the innermost first,
-- so the parent of a scope is the next one. A scope is known by a number, which stands for the object.
-- The list of the children of a scope, which only `dump` reads, is left out.
use poodillion.Prelude.{
  ℕ, ◌+◌, String, Bool, false, Option, none, some, List, [], ◌∷◌, ◌++◌, length, Text, text_of, ◌==◌,
  nat_eq, string_eq,
}
use poodillion.Prelude.Dict.{Dict, lookup, insert}
use poodillion.Prelude.Decimal.{decimal}
use poodillion.Compiler.Symbols.Types.{TypeInfo, create_builtin_type}

-- What is particular to a variable, a parameter, a function and a type. The parameters, the type and
-- the fields of these, which the table does not read, are left out.
pub data Details : Type 0 where
  variable : Bool → Bool → Option ℕ → Bool → Details
  parameter : Bool → ℕ → Details
  function : Bool → Bool → Details
  type : Bool → Bool → Bool → Details

pub record Span : Type 0 where
  pub line : ℕ
  pub column : ℕ
  pub length : ℕ

pub record Symbol : Type 0 where
  pub name : String
  pub span : Span
  pub type_info : Option TypeInfo
  pub details : Details

pub record Scope : Type 0 where
  pub id : ℕ
  pub name : Text
  pub symbols : Dict String Symbol

-- symbol.owner_scope = self, for a variable.
unfoldable pub owned_by : ℕ → Symbol → Symbol
owned_by scope s = elim s.details [
  | variable is_mutable is_moved owner is_captured ↦ record s {
    details = variable is_mutable is_moved (some scope) is_captured;
  }
  | other ↦ s
]

-- DuplicateSymbolError, UndefinedSymbolError and the SymbolError of pop_scope.
pub data SymbolError : Type 0 where
  duplicate_symbol : Symbol → Symbol → SymbolError
  undefined_symbol : String → SymbolError
  cannot_pop_global_scope : SymbolError

pub data Result {ℓ} (A : Type ℓ) : Type ℓ where
  ok : A → Result A
  raises : SymbolError → Result A

-- scope.define(symbol)
unfoldable pub define_in : Symbol → Scope → Result Scope
unfolding owned_by
define_in s scope = elim (lookup s.name scope.symbols) [
  | some existing ↦ raises (duplicate_symbol s existing)
  | none ↦ ok (record scope { symbols = insert s.name (owned_by scope.id s) scope.symbols })
]

-- scope.lookup(name), of a scope and its parents.
unfoldable pub lookup_scopes : String → Scope → List Scope → Option Symbol
lookup_scopes n scope [] = lookup n scope.symbols
lookup_scopes n scope (parent ∷ parents) =
    let above = lookup_scopes n parent parents in
    elim (lookup n scope.symbols) [ some s ↦ some s | none ↦ above ]

-- The current scope and those around it. `next` numbers the scopes.
pub record SymbolTable : Type 0 where
  pub current : Scope
  pub outer : List Scope
  pub scope_counter : ℕ
  pub next : ℕ

unfoldable pub push_scope : Option Text → SymbolTable → SymbolTable
push_scope name t =
    let counter : ℕ = elim name [ none ↦ t.scope_counter + 1 | some _ ↦ t.scope_counter ] in
    let label : Text = elim name [ none ↦ text_of "scope_" ++ decimal counter | some s ↦ s ] in
    record {
      current = record { id = t.next; name = label; symbols = [] };
      outer = t.current ∷ t.outer;
      scope_counter = counter;
      next = t.next + 1;
    }

unfoldable pub pop_scope : SymbolTable → Result SymbolTable
pop_scope t = elim t.outer [
  | [] ↦ raises cannot_pop_global_scope
  | parent ∷ parents ↦ ok (record t { current = parent; outer = parents })
]

unfoldable pub define : Symbol → SymbolTable → Result SymbolTable
unfolding define_in
define s t = elim (define_in s t.current) [
  | raises e ↦ raises e
  | ok scope ↦ ok (record t { current = scope })
]

unfoldable pub lookup_optional : String → SymbolTable → Option Symbol
unfolding lookup_scopes
lookup_optional n t = lookup_scopes n t.current t.outer

unfoldable pub lookup_symbol : String → SymbolTable → Result Symbol
unfolding lookup_scopes
lookup_symbol n t = elim (lookup_scopes n t.current t.outer) [
  | none ↦ raises (undefined_symbol n)
  | some s ↦ ok s
]

unfoldable pub lookup_local : String → SymbolTable → Option Symbol
lookup_local n t = lookup n t.current.symbols

unfoldable pub get_scope_depth : SymbolTable → ℕ
get_scope_depth t = length t.outer

unfoldable pub is_global_scope : SymbolTable → Bool
is_global_scope t = length t.outer == 0

abbrev builtin_types : List String
builtin_types =
    "i8" ∷ "i16" ∷ "i32" ∷ "i64" ∷ "u8" ∷ "u16" ∷ "u32" ∷ "u64" ∷ "f32" ∷ "f64" ∷ "bool" ∷ "char"
    ∷ "str" ∷ "void" ∷ []

unfoldable pub builtin : String → Symbol
builtin name = record {
  name = name;
  span = record { line = 0; column = 0; length = 0 };
  type_info = some (create_builtin_type (text_of name));
  details = type false false false;
}

unfoldable pub define_all : List String → SymbolTable → Result SymbolTable
unfolding define builtin
define_all [] t = ok t
define_all (n ∷ ns) t = elim (define (builtin n) t) [
  | raises e ↦ raises e
  | ok t' ↦ define_all ns t'
]

abbrev pub empty_table : SymbolTable
empty_table = record {
  current = record { id = 0; name = text_of "global"; symbols = [] };
  outer = [];
  scope_counter = 0;
  next = 1;
}

unfoldable pub new_table : Result SymbolTable
unfolding define_all
new_table = define_all builtin_types empty_table
