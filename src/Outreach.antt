-- ===== src/Outreach.antt =====
-- Outreach: protected recipients, message executions, campaigns and sequences
-- (packages/domain/src/outreach), and the gate and service that send a message
-- (packages/outreach/src).
pub mod Recipient
pub mod Execution
pub mod Money
pub mod Step
pub mod Campaign
pub mod Sequence
pub mod Gate
pub mod Send
pub mod Effect
pub mod Repository
pub mod Tests
