-- ===== src/Campaign.antt =====
-- The shadow campaigns, which replay a fixed set of questions against the system and judge the
-- answers: sana/modules/shadow_campaign, with the budget ledger of
-- sana/platform/db/shadow_campaign_repository.py.
pub mod Status
pub mod Lifecycle
pub mod Money
pub mod Budget
pub mod Lease
pub mod Ledger
mod Samples
mod Examples
