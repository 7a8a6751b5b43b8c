-- ===== src/Game.antt =====
-- The simulated Unix machine of game/core.
pub mod Permissions
pub mod Process
pub mod Vfs
pub mod Tty
pub mod Packets
