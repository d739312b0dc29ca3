-- ===== src/Pins.antt =====
-- src/upstream_pins.rs and src/candidate_pins.rs: what is pinned of the tools' upstream sources.
pub mod Records
pub mod Fields
pub mod Candidate
pub mod Upstream
pub mod Registry
