-- ===== src/Outreach/Gate.antt =====
-- The check before a message is sent (packages/outreach/src/safety).
pub mod Decision
pub mod Limits
pub mod Evaluate
pub mod Effect
pub mod Once
pub mod Release
pub mod Redis
pub mod Tests
