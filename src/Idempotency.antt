-- ===== src/Idempotency.antt =====
-- The store of idempotency keys (packages/infrastructure/src/idempotency).
pub mod Store
pub mod Claims
pub mod Tests
