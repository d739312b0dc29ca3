-- ===== src/Validation.antt =====
-- src/data_contract_validation.rs, one child for each contract, over the checks of single fields.
pub mod Fields
pub mod Topology
pub mod Receipt
pub mod Handoffs
