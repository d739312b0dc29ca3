-- ===== src/Contracts.antt =====
-- The serialised structs and enums of src/contracts.rs, one child for each part of that file.
-- Strings are `Text`, unsigned numbers are ℕ.
pub mod References
pub mod Audit
pub mod Handoff
pub mod Phaseledger
pub mod Run
pub mod Records
