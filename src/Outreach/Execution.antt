-- ===== src/Outreach/Execution.antt =====
-- Message executions (packages/domain/src/outreach/message-execution.ts).
pub mod Status
pub mod State
pub mod Commands
pub mod Command
pub mod Safety
