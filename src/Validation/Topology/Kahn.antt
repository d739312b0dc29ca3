-- ===== src/Validation/Topology/Kahn.antt =====
-- Kahn's algorithm in `validate_audit_topology` (src/data_contract_validation.rs): the counts by
-- which it is understood, its inner loop, its start and its outer loop.
pub mod Counting
pub mod Release
pub mod Start
pub mod Round
pub mod Drain
