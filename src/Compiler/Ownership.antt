-- ===== src/Compiler/Ownership.antt =====
-- compiler/ownership.py: moves and borrows, by its parts.
pub mod Syntax
pub mod Scope
pub mod Checker
pub mod Check
pub mod Steps
pub mod Growth
pub mod Each
pub mod Invariants
pub mod Errors
pub mod Moves
pub mod Mentions
mod Tests
