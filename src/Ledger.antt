-- ===== src/Ledger.antt =====
-- The budget of an execution's calls to language models
-- (packages/llm-gateway/src/execution-budget-ledger.ts).
pub mod Charges
pub mod Totals
pub mod Tokens
mod Tests
