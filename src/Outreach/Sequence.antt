-- ===== src/Outreach/Sequence.antt =====
-- Sequences (packages/domain/src/outreach/sequence.ts).
pub mod State
pub mod Commands
pub mod Command
pub mod Progress
