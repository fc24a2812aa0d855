-- ===== src/Outreach/Campaign.antt =====
-- Campaigns (packages/domain/src/outreach/campaign.ts).
pub mod State
pub mod Commands
pub mod Budget
