-- ===== src/Conversation.antt =====
-- Conversations with the recipients of outreach (packages/domain/src/conversation).
pub mod State
pub mod Commands
pub mod Command
pub mod OptOut
pub mod Tests
pub mod Policy
