-- ===== src/Archive.antt =====
-- src/modules/archive: blocks enter the node's database.
pub mod Database
pub mod Rows
pub mod Blocks
pub mod Put
pub mod Queue
pub mod Steps
pub mod Sync
