-- ===== src/Orchestration.antt =====
-- The workflow engine: sana/modules/orchestration.
pub mod Status
pub mod Values
pub mod Run
pub mod Step
pub mod Attempt
pub mod Lease
pub mod Policy
mod Samples
mod Examples
