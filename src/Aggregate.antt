-- ===== src/Aggregate.antt =====
-- The base of the aggregates (packages/domain/src/aggregate/aggregate-root.ts).
mod Root
pub mod Log
pub use Root.*
