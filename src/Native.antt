-- ===== src/Native.antt =====
-- src/native.rs, one child for each part that is modelled: what is read back from a tool's output,
-- and the approval of capabilities.
pub mod Projection
pub mod Capabilities
