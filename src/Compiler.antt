-- ===== src/Compiler.antt =====
-- compiler/: the parts of the Brainhair compiler that are modelled.
pub mod Ownership
pub mod Lexer
pub mod Symbols
