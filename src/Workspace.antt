-- ===== src/Workspace.antt =====
-- src/workspace.rs: the store of the records and of the content.
pub mod Identifiers
pub mod Retry
pub mod Disk
pub mod Objects
pub mod Capture
pub mod Steps
pub mod Store
