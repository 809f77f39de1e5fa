-- ===== src/Evidence.antt =====
-- Verified evidence and what it covers: sana/modules/evidence/domain.py and coverage.py, with the
-- facts of sana/modules/search_planning/domain.py that they are about.
pub mod Values
pub mod Coverage
pub mod Soundness
pub mod Conflict
