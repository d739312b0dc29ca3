-- ===== src/RunValidation.antt =====
-- src/run_validation.rs: the checks of a recorded run that are not those of the workspace.
pub mod Descriptors
pub mod Observations
