-- ===== src/Mission/Planning.antt =====
-- `planValid`, `replan` and `addTask` (packages/domain/src/mission/mission.ts).
use vega_revenue_os.Prelude.{
  ℕ, ◌&&◌, Option, none, some, List, [], ◌∷◌, ◌++◌, map, any, ◌==◌, leb, if◌then◌else◌,
}
use vega_revenue_os.Aggregate.{Stamp, ok, fail, emit}
use vega_revenue_os.Mission.Status.{executing}
use vega_revenue_os.Mission.Task.{
  MissionTask, MissionTaskProps, new_task, is_completed, terminal_mission, version_not_positive,
  version_not_greater, duplicate_task, duplicate_key, missing_capability,
}
use vega_revenue_os.Mission.Graph.Checks.{blank_capability}
use vega_revenue_os.Mission.Graph.{validate_task_graph}
use vega_revenue_os.Mission.State.{
  Mission, MissionPlan, is_terminal, transition_to, mission_started, mission_replanned,
  mission_task_added,
}
use vega_revenue_os.Mission.Transitions.{Moved}

-- `planValid`.
unfoldable pub plan_valid : Stamp → Mission → Moved
unfolding transition_to
plan_valid s m = elim (validate_task_graph m.tasks m.plan.version) [
  | some e ↦ (m, fail e)
  | none ↦ transition_to executing s (mission_started m.root.id) m
]

-- `existingCompleted.get(id)`: the last completed task under the id.
unfoldable pub completed_by_id : List MissionTask → ℕ → Option MissionTask
completed_by_id [] id = none
completed_by_id (t ∷ ts) id = elim (completed_by_id ts id) [
  | some u ↦ some u
  | none ↦ if is_completed t.status && (t.props.id == id) then some t else none
]

-- A new task takes over what a completed task under its id has reached.
unfoldable pub carry_over : List MissionTask → MissionTaskProps → MissionTask
unfolding completed_by_id
carry_over tasks p = elim (completed_by_id tasks p.id) [
  | none ↦ new_task p
  | some old ↦ record (new_task p) {
    status = old.status;
    output = old.output;
    started_at = old.started_at;
    completed_at = old.completed_at;
  }
]

-- `replan`.
unfoldable pub replan : MissionPlan → List MissionTaskProps → Stamp → Mission → Moved
unfolding is_terminal
replan plan new_tasks s m =
    if is_terminal m.status
    then (m, fail terminal_mission)
    else if plan.version == 0
    then (m, fail version_not_positive)
    else if leb plan.version m.plan.version
    then (m, fail version_not_greater)
    else (let tasks = map (carry_over m.tasks) new_tasks in
        elim (validate_task_graph tasks plan.version) [
          | some e ↦ (m, fail e)
          | none ↦ (
            record m {
              plan = plan;
              tasks = tasks;
              updated_at = s.now;
              root = emit s (mission_replanned m.root.id plan.version) m.root;
            },
            ok,
          )
        ])

-- `addTask`.
unfoldable pub add_task : MissionTaskProps → Stamp → Mission → Moved
unfolding is_terminal
add_task p s m =
    if is_terminal m.status
    then (m, fail terminal_mission)
    else if any (λ t. t.props.id == p.id) m.tasks
    then (m, fail duplicate_task)
    else if any (λ t. t.props.idempotency_key == p.idempotency_key) m.tasks
    then (m, fail duplicate_key)
    else if blank_capability p.required_capability
    then (m, fail missing_capability)
    else (
      record m {
        tasks = m.tasks ++ (new_task p ∷ []);
        root = emit s (mission_task_added m.root.id p.id p.task_type p.idempotency_key) m.root;
      },
      ok,
    )
