-- ===== src/Compiler/Lexer/Kinds/Words.antt =====
-- The token types of keywords of compiler/lexer.py.
use Prim.Native.Nat.{ℕ}

abbrev pub tt_def : ℕ
tt_def = 1

abbrev pub tt_class : ℕ
tt_class = 2

abbrev pub tt_from : ℕ
tt_from = 3

abbrev pub tt_import : ℕ
tt_import = 4

abbrev pub tt_as : ℕ
tt_as = 5

abbrev pub tt_return : ℕ
tt_return = 6

abbrev pub tt_if : ℕ
tt_if = 7

abbrev pub tt_elif : ℕ
tt_elif = 8

abbrev pub tt_else : ℕ
tt_else = 9

abbrev pub tt_while : ℕ
tt_while = 10

abbrev pub tt_for : ℕ
tt_for = 11

abbrev pub tt_in : ℕ
tt_in = 12

abbrev pub tt_break : ℕ
tt_break = 13

abbrev pub tt_continue : ℕ
tt_continue = 14

abbrev pub tt_pass : ℕ
tt_pass = 15

abbrev pub tt_with : ℕ
tt_with = 16

abbrev pub tt_raise : ℕ
tt_raise = 17

abbrev pub tt_try : ℕ
tt_try = 18

abbrev pub tt_except : ℕ
tt_except = 19

abbrev pub tt_finally : ℕ
tt_finally = 20

abbrev pub tt_lambda : ℕ
tt_lambda = 21

abbrev pub tt_yield : ℕ
tt_yield = 22

abbrev pub tt_async : ℕ
tt_async = 23

abbrev pub tt_await : ℕ
tt_await = 24

abbrev pub tt_extern : ℕ
tt_extern = 25

abbrev pub tt_asm : ℕ
tt_asm = 26

abbrev pub tt_defer : ℕ
tt_defer = 27

abbrev pub tt_match : ℕ
tt_match = 28

abbrev pub tt_final : ℕ
tt_final = 29

abbrev pub tt_ptr : ℕ
tt_ptr = 30

abbrev pub tt_list : ℕ
tt_list = 31

abbrev pub tt_dict : ℕ
tt_dict = 32

abbrev pub tt_tuple : ℕ
tt_tuple = 33

abbrev pub tt_optional : ℕ
tt_optional = 34

abbrev pub tt_int8 : ℕ
tt_int8 = 35

abbrev pub tt_int16 : ℕ
tt_int16 = 36

abbrev pub tt_int32 : ℕ
tt_int32 = 37

abbrev pub tt_int64 : ℕ
tt_int64 = 38

abbrev pub tt_uint8 : ℕ
tt_uint8 = 39

abbrev pub tt_uint16 : ℕ
tt_uint16 = 40

abbrev pub tt_uint32 : ℕ
tt_uint32 = 41

abbrev pub tt_uint64 : ℕ
tt_uint64 = 42

abbrev pub tt_float32 : ℕ
tt_float32 = 43

abbrev pub tt_float64 : ℕ
tt_float64 = 44

abbrev pub tt_bool : ℕ
tt_bool = 45

abbrev pub tt_char : ℕ
tt_char = 46

abbrev pub tt_str : ℕ
tt_str = 47

abbrev pub tt_bytes : ℕ
tt_bytes = 48

abbrev pub tt_int : ℕ
tt_int = 49

abbrev pub tt_float : ℕ
tt_float = 50

abbrev pub tt_array : ℕ
tt_array = 51

abbrev pub tt_ref : ℕ
tt_ref = 52

abbrev pub tt_enum : ℕ
tt_enum = 53

abbrev pub tt_auto : ℕ
tt_auto = 54

abbrev pub tt_dataclass : ℕ
tt_dataclass = 55

abbrev pub tt_isinstance : ℕ
tt_isinstance = 56

abbrev pub tt_field : ℕ
tt_field = 57

abbrev pub tt_property : ℕ
tt_property = 58
