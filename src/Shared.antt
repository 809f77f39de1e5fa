-- ===== src/Shared.antt =====
-- The vocabulary that every bounded context shares: sana/modules/shared, and how a method of a
-- mutable aggregate is written down.
pub mod Errors
pub mod Time
pub mod Method
