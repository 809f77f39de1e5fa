-- ===== src/Execution.antt =====
-- How a worker executes a step: the store of steps and attempts in the database, and the executor.
pub mod Values
pub mod Tables
pub mod Store
pub mod Recovery
pub mod Moves
pub mod System
pub mod Retries
pub mod Executor
mod Samples
mod Examples
