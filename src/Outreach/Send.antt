-- ===== src/Outreach/Send.antt =====
-- The service that sends a message (packages/outreach/src/application/outreach-execution.service.ts).
pub mod World
pub mod Recovery
pub mod Duplicate
pub mod Steps
pub mod Attempt
pub mod Execute
pub mod Response
pub mod Interleaving
pub mod Identity
pub mod Frame
pub mod Audit
pub mod Touches
pub mod Calm
pub mod Closed
pub mod Apart
pub mod Accepted
pub mod Moved
pub mod Stale
pub mod Answered
pub mod Tests
