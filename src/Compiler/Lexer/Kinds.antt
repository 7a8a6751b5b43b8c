-- ===== src/Compiler/Lexer/Kinds.antt =====
-- The token types of compiler/lexer.py. They are integers in the source, 0 standing for none.
mod Words
mod Marks
unfoldable pub use Words.*
unfoldable pub use Marks.*
