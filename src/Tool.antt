-- ===== src/Tool.antt =====
-- The governed gateway of tool calls (packages/tool-gateway/src).
pub mod Contract
pub mod Resolution
pub mod Registry
pub mod Checks
pub mod Records
pub mod Attempts
pub mod Outcome
pub mod Execute
pub mod Submissions
pub mod Governed
pub mod Stored
pub mod Performed
pub mod Once
pub mod Members
pub mod Shadowing
pub mod Lifecycle
pub mod Tests
