-- ===== src/Mission.antt =====
-- Missions (packages/domain/src/mission): the states and tasks, the check of a task graph, and
-- the aggregate with its commands.
pub mod Status
pub mod Task
pub mod Graph
pub mod State
pub mod Transitions
pub mod Planning
pub mod Tasks
pub mod Command
pub mod Effect
pub mod Lifecycle
pub mod TaskSet
mod Tests
pub mod Execution
pub mod Engine
