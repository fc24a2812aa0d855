-- ===== src/Approval.antt =====
-- Approvals (packages/mission-orchestrator/src/domain/approval), and their verification for the
-- gate (packages/mission-orchestrator/src/infrastructure/approval-verification-adapter.ts).
pub mod State
pub mod Decisions
pub mod Verify
pub mod Gate
mod Tests
