-- ===== src/Compiler/Lexer.antt =====
-- compiler/lexer.py: the lexer, by its parts.
pub mod Kinds
pub mod Keywords
pub mod Cursor
pub mod Literals
pub mod Tokens
pub mod Progress
pub mod Readers
pub mod Strings
pub mod Quoted
pub mod Rounds
pub mod Order
pub mod Columns
pub mod Quoting
pub mod Decimal
pub mod Lexemes
pub mod Printing
pub mod RoundTrip
pub mod Tests
