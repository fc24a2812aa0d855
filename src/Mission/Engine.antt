-- ===== src/Mission/Engine.antt =====
-- The execution of missions
-- (packages/mission-orchestrator/src/workflow/mission-execution-engine.ts): the engine's dependencies,
-- its reads and writes, and its operations.
pub mod World
pub mod Store
pub mod Plans
pub mod Steps
pub mod Results
pub mod Execute
pub mod Evolves
pub mod Does
pub mod Saves
pub mod Works
pub mod Linear
pub mod History
pub mod Selection
mod Tests
pub mod Again
