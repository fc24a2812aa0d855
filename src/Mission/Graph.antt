-- ===== src/Mission/Graph.antt =====
-- `validateTaskGraph` (packages/domain/src/mission/mission.ts): the checks of a plan's tasks, and a
-- depth-first search for a cycle of dependencies. A `Set` is the list of what it holds. The search
-- recurs on fuel; one unit for each task and one more is enough.
pub mod Checks
pub mod Search
pub mod Soundness
pub mod Completeness
pub mod Fuel
pub mod Tables
pub mod TaskChecks
pub mod Ranks
pub mod Acyclic
use vega_revenue_os.Prelude.{ℕ, suc, Option, none, some, List, [], length, if◌then◌else◌, ◌==◌}
use vega_revenue_os.Mission.Task.{
  MissionTask, MissionError, version_not_positive, duplicate_task, cyclic_dependency, stuck,
}
use Checks.{ids_of, has_duplicate, check_tasks}
use Search.{Visit, done, cyclic, spent, visit_each, visit}

abbrev pub verdict : Visit → Option MissionError
verdict (done visited stack) = none
verdict cyclic = some cyclic_dependency
verdict spent = some stuck

-- The third loop: a visit from every id.
unfoldable pub find_cycle : List MissionTask → Option MissionError
find_cycle tasks = verdict (visit_each (visit tasks (suc (length tasks))) (ids_of tasks) [] [])

-- `validateTaskGraph`: `none` accepts.
unfoldable pub validate_task_graph : List MissionTask → ℕ → Option MissionError
validate_task_graph tasks plan_version =
    if plan_version == 0
    then some version_not_positive
    else if has_duplicate (ids_of tasks) []
    then some duplicate_task
    else elim (check_tasks (ids_of tasks) tasks) [ some e ↦ some e | none ↦ find_cycle tasks ]
