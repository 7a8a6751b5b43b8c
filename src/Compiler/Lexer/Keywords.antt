-- ===== src/Compiler/Lexer/Keywords.antt =====
-- `lookup_keyword` and `get_keyword_name` of compiler/lexer.py. Each is a chain of tests in the
-- source, and here the first entry of a table that passes.
use poodillion.Prelude.{
  ℕ, Bool, true, false, Text, text_of, String, List, [], ◌∷◌, ◌==◌, nat_eq, if◌then◌else◌,
}
use poodillion.Compiler.Lexer.Kinds.{
  tt_def, tt_class, tt_from, tt_import, tt_as, tt_return, tt_if, tt_elif, tt_else, tt_while, tt_for,
  tt_in, tt_break, tt_continue, tt_pass, tt_with, tt_raise, tt_try, tt_except, tt_finally,
  tt_lambda, tt_yield, tt_async, tt_await, tt_extern, tt_asm, tt_defer, tt_match, tt_final, tt_ptr,
  tt_list, tt_dict, tt_tuple, tt_optional, tt_int8, tt_int16, tt_int32, tt_int64, tt_uint8,
  tt_uint16, tt_uint32, tt_uint64, tt_float32, tt_float64, tt_bool, tt_char, tt_str, tt_bytes,
  tt_int, tt_float, tt_array, tt_ref, tt_enum, tt_auto, tt_dataclass, tt_isinstance, tt_field,
  tt_property, tt_true, tt_false, tt_none, tt_and, tt_or, tt_not, tt_is, tt_var, tt_discard,
  tt_const,
}

-- `str_eq`, with 0 for a character past the end: a text with the character 0 ends there.
unfoldable pub str_eq : Text → Text → Bool
str_eq [] [] = true
str_eq [] (y ∷ b) = y == 0
str_eq (x ∷ a) [] = x == 0
str_eq (x ∷ a) (y ∷ b) =
    let rest = str_eq a b in if x == y then (if x == 0 then true else rest) else false

abbrev pub Keywords : Type 0
Keywords = List (Text × ℕ)

abbrev keyword : String → ℕ → Text × ℕ
keyword word tt = (text_of word, tt)

abbrev pub keyword_table : Keywords
keyword_table =
    keyword "def" tt_def
    ∷ keyword "class" tt_class
    ∷ keyword "from" tt_from
    ∷ keyword "import" tt_import
    ∷ keyword "as" tt_as
    ∷ keyword "return" tt_return
    ∷ keyword "if" tt_if
    ∷ keyword "elif" tt_elif
    ∷ keyword "else" tt_else
    ∷ keyword "while" tt_while
    ∷ keyword "for" tt_for
    ∷ keyword "in" tt_in
    ∷ keyword "break" tt_break
    ∷ keyword "continue" tt_continue
    ∷ keyword "pass" tt_pass
    ∷ keyword "with" tt_with
    ∷ keyword "raise" tt_raise
    ∷ keyword "try" tt_try
    ∷ keyword "except" tt_except
    ∷ keyword "finally" tt_finally
    ∷ keyword "lambda" tt_lambda
    ∷ keyword "yield" tt_yield
    ∷ keyword "async" tt_async
    ∷ keyword "await" tt_await
    ∷ keyword "and" tt_and
    ∷ keyword "or" tt_or
    ∷ keyword "not" tt_not
    ∷ keyword "is" tt_is
    ∷ keyword "true" tt_true
    ∷ keyword "false" tt_false
    ∷ keyword "True" tt_true
    ∷ keyword "False" tt_false
    ∷ keyword "None" tt_none
    ∷ keyword "extern" tt_extern
    ∷ keyword "asm" tt_asm
    ∷ keyword "defer" tt_defer
    ∷ keyword "match" tt_match
    ∷ keyword "Final" tt_final
    ∷ keyword "Ptr" tt_ptr
    ∷ keyword "List" tt_list
    ∷ keyword "Dict" tt_dict
    ∷ keyword "Tuple" tt_tuple
    ∷ keyword "Optional" tt_optional
    ∷ keyword "Enum" tt_enum
    ∷ keyword "auto" tt_auto
    ∷ keyword "Array" tt_array
    ∷ keyword "array" tt_array
    ∷ keyword "Ref" tt_ref
    ∷ keyword "dataclass" tt_dataclass
    ∷ keyword "isinstance" tt_isinstance
    ∷ keyword "int8" tt_int8
    ∷ keyword "int16" tt_int16
    ∷ keyword "int32" tt_int32
    ∷ keyword "int64" tt_int64
    ∷ keyword "uint8" tt_uint8
    ∷ keyword "uint16" tt_uint16
    ∷ keyword "uint32" tt_uint32
    ∷ keyword "uint64" tt_uint64
    ∷ keyword "float32" tt_float32
    ∷ keyword "float64" tt_float64
    ∷ keyword "bool" tt_bool
    ∷ keyword "char" tt_char
    ∷ keyword "str" tt_str
    ∷ keyword "bytes" tt_bytes
    ∷ keyword "int" tt_int
    ∷ keyword "float" tt_float
    ∷ keyword "var" tt_var
    ∷ keyword "discard" tt_discard
    ∷ keyword "const" tt_const
    ∷ []

unfoldable pub find_keyword : Text → Keywords → ℕ
unfolding str_eq
find_keyword word [] = 0
find_keyword word ((k, tt) ∷ ks) =
    let rest = find_keyword word ks in if str_eq word k then tt else rest

unfoldable pub lookup_keyword : Text → ℕ
unfolding find_keyword
lookup_keyword word = find_keyword word keyword_table

abbrev pub name_table : Keywords
name_table =
    keyword "def" tt_def
    ∷ keyword "class" tt_class
    ∷ keyword "from" tt_from
    ∷ keyword "import" tt_import
    ∷ keyword "as" tt_as
    ∷ keyword "return" tt_return
    ∷ keyword "if" tt_if
    ∷ keyword "elif" tt_elif
    ∷ keyword "else" tt_else
    ∷ keyword "while" tt_while
    ∷ keyword "for" tt_for
    ∷ keyword "in" tt_in
    ∷ keyword "break" tt_break
    ∷ keyword "continue" tt_continue
    ∷ keyword "pass" tt_pass
    ∷ keyword "with" tt_with
    ∷ keyword "raise" tt_raise
    ∷ keyword "try" tt_try
    ∷ keyword "except" tt_except
    ∷ keyword "finally" tt_finally
    ∷ keyword "lambda" tt_lambda
    ∷ keyword "yield" tt_yield
    ∷ keyword "async" tt_async
    ∷ keyword "await" tt_await
    ∷ keyword "and" tt_and
    ∷ keyword "or" tt_or
    ∷ keyword "not" tt_not
    ∷ keyword "is" tt_is
    ∷ keyword "true" tt_true
    ∷ keyword "false" tt_false
    ∷ keyword "none" tt_none
    ∷ keyword "extern" tt_extern
    ∷ keyword "asm" tt_asm
    ∷ keyword "defer" tt_defer
    ∷ keyword "match" tt_match
    ∷ keyword "final" tt_final
    ∷ keyword "ptr" tt_ptr
    ∷ keyword "list" tt_list
    ∷ keyword "dict" tt_dict
    ∷ keyword "tuple" tt_tuple
    ∷ keyword "optional" tt_optional
    ∷ keyword "enum" tt_enum
    ∷ keyword "auto" tt_auto
    ∷ keyword "array" tt_array
    ∷ keyword "ref" tt_ref
    ∷ keyword "dataclass" tt_dataclass
    ∷ keyword "isinstance" tt_isinstance
    ∷ keyword "int8" tt_int8
    ∷ keyword "int16" tt_int16
    ∷ keyword "int32" tt_int32
    ∷ keyword "int64" tt_int64
    ∷ keyword "uint8" tt_uint8
    ∷ keyword "uint16" tt_uint16
    ∷ keyword "uint32" tt_uint32
    ∷ keyword "uint64" tt_uint64
    ∷ keyword "float32" tt_float32
    ∷ keyword "float64" tt_float64
    ∷ keyword "bool" tt_bool
    ∷ keyword "char" tt_char
    ∷ keyword "str" tt_str
    ∷ keyword "bytes" tt_bytes
    ∷ keyword "int" tt_int
    ∷ keyword "float" tt_float
    ∷ keyword "var" tt_var
    ∷ keyword "discard" tt_discard
    ∷ keyword "const" tt_const
    ∷ keyword "property" tt_property
    ∷ keyword "field" tt_field
    ∷ []

unfoldable pub find_name : ℕ → Keywords → Text
find_name tt [] = []
find_name tt ((k, u) ∷ ks) = let rest = find_name tt ks in if tt == u then k else rest

unfoldable pub get_keyword_name : ℕ → Text
unfolding find_name
get_keyword_name tt = find_name tt name_table
