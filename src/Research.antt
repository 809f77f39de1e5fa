-- ===== src/Research.antt =====
-- The policies of orchestration/research_workflow.py: when a FAST run is upgraded, how far a
-- RESEARCH run expands, and with what it ends.
pub mod Upgrade
pub mod Urgency
pub mod Workflow
pub mod Outcome
mod Samples
mod Examples
