-- ===== src/Router.antt =====
-- The router of calls to language models (packages/llm-gateway/src/llm-router.ts).
pub mod Catalog
pub mod World
pub mod Deps
pub mod Invoke
pub mod Tokens
pub mod Sorting
pub mod Ranking
pub mod Fallback
pub mod Tests
