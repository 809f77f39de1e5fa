-- ===== src/Answers.antt =====
-- sana/modules/answer: the claims of an answer and their citations.
pub mod Values
pub mod Synthesis
pub mod Selection
pub mod Validation
mod Samples
mod Examples
