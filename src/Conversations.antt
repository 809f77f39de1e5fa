-- ===== src/Conversations.antt =====
-- sana/modules/conversation: the messages of users, and the runs that answer them.
pub mod Values
pub mod Tables
pub mod Submission
pub mod Links
pub mod Join
pub mod Record
pub mod Invariant
pub mod Idempotency
mod Samples
mod Examples
