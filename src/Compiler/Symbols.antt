-- ===== src/Compiler/Symbols.antt =====
-- compiler/symbols.py: symbols and the table of scopes, what the table promises, and the types.
pub mod Types
pub mod Table
pub mod Environment
pub mod Refinement
mod Tests
