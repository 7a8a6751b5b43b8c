-- ===== src/Compiler/Lexer/Kinds/Marks.antt =====
-- The token types of names, literals, operators and the rest of compiler/lexer.py.
use Prim.Native.Nat.{ℕ}

abbrev pub tt_ident : ℕ
tt_ident = 59

abbrev pub tt_number : ℕ
tt_number = 60

abbrev pub tt_string : ℕ
tt_string = 61

abbrev pub tt_fstring : ℕ
tt_fstring = 62

abbrev pub tt_char_lit : ℕ
tt_char_lit = 63

abbrev pub tt_true : ℕ
tt_true = 64

abbrev pub tt_false : ℕ
tt_false = 65

abbrev pub tt_none : ℕ
tt_none = 66

abbrev pub tt_plus : ℕ
tt_plus = 67

abbrev pub tt_minus : ℕ
tt_minus = 68

abbrev pub tt_star : ℕ
tt_star = 69

abbrev pub tt_slash : ℕ
tt_slash = 70

abbrev pub tt_double_slash : ℕ
tt_double_slash = 71

abbrev pub tt_percent : ℕ
tt_percent = 72

abbrev pub tt_double_star : ℕ
tt_double_star = 73

abbrev pub tt_equals : ℕ
tt_equals = 74

abbrev pub tt_equals_equals : ℕ
tt_equals_equals = 75

abbrev pub tt_not_equals : ℕ
tt_not_equals = 76

abbrev pub tt_less : ℕ
tt_less = 77

abbrev pub tt_less_equals : ℕ
tt_less_equals = 78

abbrev pub tt_greater : ℕ
tt_greater = 79

abbrev pub tt_greater_equals : ℕ
tt_greater_equals = 80

abbrev pub tt_plus_equals : ℕ
tt_plus_equals = 81

abbrev pub tt_minus_equals : ℕ
tt_minus_equals = 82

abbrev pub tt_star_equals : ℕ
tt_star_equals = 83

abbrev pub tt_slash_equals : ℕ
tt_slash_equals = 84

abbrev pub tt_double_slash_equals : ℕ
tt_double_slash_equals = 85

abbrev pub tt_percent_equals : ℕ
tt_percent_equals = 86

abbrev pub tt_ampersand_equals : ℕ
tt_ampersand_equals = 87

abbrev pub tt_pipe_equals : ℕ
tt_pipe_equals = 88

abbrev pub tt_caret_equals : ℕ
tt_caret_equals = 89

abbrev pub tt_shl_equals : ℕ
tt_shl_equals = 90

abbrev pub tt_shr_equals : ℕ
tt_shr_equals = 91

abbrev pub tt_shl : ℕ
tt_shl = 92

abbrev pub tt_shr : ℕ
tt_shr = 93

abbrev pub tt_pipe : ℕ
tt_pipe = 94

abbrev pub tt_ampersand : ℕ
tt_ampersand = 95

abbrev pub tt_caret : ℕ
tt_caret = 96

abbrev pub tt_tilde : ℕ
tt_tilde = 97

abbrev pub tt_and : ℕ
tt_and = 98

abbrev pub tt_or : ℕ
tt_or = 99

abbrev pub tt_not : ℕ
tt_not = 100

abbrev pub tt_is : ℕ
tt_is = 101

abbrev pub tt_lparen : ℕ
tt_lparen = 105

abbrev pub tt_rparen : ℕ
tt_rparen = 106

abbrev pub tt_lbracket : ℕ
tt_lbracket = 107

abbrev pub tt_rbracket : ℕ
tt_rbracket = 108

abbrev pub tt_lbrace : ℕ
tt_lbrace = 109

abbrev pub tt_rbrace : ℕ
tt_rbrace = 110

abbrev pub tt_comma : ℕ
tt_comma = 111

abbrev pub tt_colon : ℕ
tt_colon = 112

abbrev pub tt_semicolon : ℕ
tt_semicolon = 113

abbrev pub tt_dot : ℕ
tt_dot = 114

abbrev pub tt_dotdot : ℕ
tt_dotdot = 115

abbrev pub tt_ellipsis : ℕ
tt_ellipsis = 116

abbrev pub tt_arrow : ℕ
tt_arrow = 117

abbrev pub tt_at : ℕ
tt_at = 118

abbrev pub tt_newline : ℕ
tt_newline = 119

abbrev pub tt_eof : ℕ
tt_eof = 122

abbrev pub tt_var : ℕ
tt_var = 123

abbrev pub tt_discard : ℕ
tt_discard = 124

abbrev pub tt_const : ℕ
tt_const = 125
