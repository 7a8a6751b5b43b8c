-- ===== src/Game/Vfs.antt =====
-- game/core/vfs.py: the virtual file system, by its parts.
pub mod Result
pub mod Inode
pub mod PathName
pub mod State
pub mod Resolve
pub mod Place
pub mod Create
pub mod Access
pub mod Remove
pub mod Tree
pub mod Walk
pub mod Landing
pub mod Names
pub mod ModeString
pub mod Effects
pub mod Returns
pub mod Leads
pub mod Success
mod Tests
