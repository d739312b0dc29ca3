-- ===== src/Tests.antt =====
-- The theorems at concrete inputs, and runs of the code. One file per part of the program.
mod Audit
mod Handoffs
mod Evidence
mod Documents
mod Projection
mod Parameters
mod Store
mod Callers
mod Pins
