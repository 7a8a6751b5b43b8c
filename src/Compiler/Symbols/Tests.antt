-- ===== src/Compiler/Symbols/Tests.antt =====
-- Calls on the table of compiler/symbols.py, and its theorem at concrete data.
use poodillion.Prelude.{
  ℕ, true, false, ◌≡◌, refl, none, some, List, [], ◌∷◌, nat_eq, string_eq, text_of,
}
use poodillion.Prelude.Decimal.{decimal, digits}
use poodillion.Prelude.Dict.{lookup, insert}
use poodillion.Compiler.Symbols.Types.{
  type_text, create_array_type, create_pointer_type, create_builtin_type,
}
use poodillion.Compiler.Symbols.Table.{
  Symbol, variable, owned_by, empty_table, lookup_scopes, cannot_pop_global_scope, duplicate_symbol,
}
use poodillion.Compiler.Symbols.Environment.{
  Call, define_call, push_call, pop_call, lookup_call, done, found, failed, answer, answers,
  answers_spec, environment,
}
use poodillion.Compiler.Symbols.Refinement.{answers-refine}

abbrev count : ℕ → Symbol
count line = record {
  name = "count";
  span = record { line = line; column = 1; length = 5 };
  type_info = none;
  details = variable true false none false;
}

abbrev calls : List Call
calls =
    define_call (count 1)
    ∷ push_call none
    ∷ define_call (count 2)
    ∷ define_call (count 3)
    ∷ lookup_call "count"
    ∷ pop_call
    ∷ lookup_call "count"
    ∷ pop_call
    ∷ []

-- The inner definition hides the outer one until its scope is left.
answers-calls :
    answers calls empty_table
    ≡ done
      ∷ done
      ∷ done
      ∷ failed (duplicate_symbol (count 3) (owned_by 1 (count 2)))
      ∷ found (some (owned_by 1 (count 2)))
      ∷ done
      ∷ found (some (owned_by 0 (count 1)))
      ∷ failed cannot_pop_global_scope
      ∷ []
unfolding answers answer string_eq lookup insert owned_by lookup_scopes
answers-calls = refl

answers-refine_example : answers calls empty_table ≡ answers_spec calls (environment empty_table)
answers-refine_example = answers-refine calls empty_table

array_text :
    type_text
      (create_array_type (create_pointer_type (create_builtin_type (text_of "u8"))) (some 16))
    ≡ text_of "[*u8; 16]"
unfolding type_text create_array_type create_pointer_type create_builtin_type decimal digits nat_eq
array_text = refl
