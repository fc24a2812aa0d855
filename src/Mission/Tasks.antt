-- ===== src/Mission/Tasks.antt =====
-- The commands on one task of a mission (packages/domain/src/mission/mission.ts).
use vega_revenue_os.Prelude.{
  ℕ, String, Bool, true, false, not, ◌&&◌, Option, none, some, List, [], ◌∷◌, any, ◌==◌,
  if◌then◌else◌,
}
use vega_revenue_os.Aggregate.{Stamp, AggregateRoot, Outcome, ok, fail, emit}
use vega_revenue_os.Mission.Status.{
  MissionStatus, executing, TaskStatus, running, awaiting_approval, completed, failed, cancelled,
  timed_out,
}
use vega_revenue_os.Mission.Task.{
  MissionTask, MissionError, value, reason, is_completed, task_not_found, not_executing,
  dependencies_incomplete, transition_status,
}
use vega_revenue_os.Mission.State.{
  Mission, MissionEvent, mission_task_status_changed, mission_task_timed_out,
  mission_task_cancelled,
}
use vega_revenue_os.Mission.Transitions.{Moved}

-- `findTask`: the first task with the id.
unfoldable pub find_task : ℕ → List MissionTask → Option MissionTask
find_task id [] = none
find_task id (t ∷ ts) = let rest = find_task id ts in if t.props.id == id then some t else rest

-- The task that `findTask` hands out is changed in place.
unfoldable pub set_task : ℕ → MissionTask → List MissionTask → List MissionTask
set_task id u [] = []
set_task id u (t ∷ ts) =
    let rest = set_task id u ts in if t.props.id == id then u ∷ ts else t ∷ rest

abbrev pub emit_all :
    Stamp → List MissionEvent → AggregateRoot MissionEvent → AggregateRoot MissionEvent
emit_all s [] r = r
emit_all s (e ∷ es) r = emit_all s es (emit s e r)

-- The second half of a command on a task: it returns the transition's error, or stores what it
-- has to store in the task, and emits its events.
unfoldable pub after_transition :
    (MissionTask → MissionTask)
    → List MissionEvent
    → Stamp
    → Mission
    → MissionTask × Outcome MissionError
    → Moved
unfolding set_task
after_transition store events s m (t, fail e) = (m, fail e)
after_transition store events s m (t, ok) = (
  record m { tasks = set_task t.props.id (store t) m.tasks; root = emit_all s events m.root },
  ok,
)

-- What the commands on a task share.
unfoldable pub move_task :
    TaskStatus
    → (MissionTask → MissionTask)
    → List MissionEvent
    → Stamp
    → MissionTask
    → Mission
    → Moved
unfolding transition_status after_transition
move_task to store events s t m = after_transition store events s m (transition_status to s.now t)

unfoldable pub change_task :
    ℕ → TaskStatus → (MissionTask → MissionTask) → List MissionEvent → Stamp → Mission → Moved
unfolding find_task
change_task id to store events s m = elim (find_task id m.tasks) [
  | none ↦ (m, fail task_not_found)
  | some t ↦ move_task to store events s t m
]

abbrev pub is_executing : MissionStatus → Bool
is_executing executing = true
is_executing _ = false

-- `this._tasks.some((t) => t.id === depId && t.status === 'COMPLETED')`
unfoldable pub has_completed : List MissionTask → ℕ → Bool
has_completed tasks dep = any (λ t. (t.props.id == dep) && is_completed t.status) tasks

unfoldable pub incomplete_dependencies : List MissionTask → List ℕ → Bool
incomplete_dependencies tasks deps = any (λ d. not (has_completed tasks d)) deps

-- `startTask`.
unfoldable pub start_task : ℕ → Stamp → Mission → Moved
unfolding find_task
start_task id s m = elim (find_task id m.tasks) [
  | none ↦ (m, fail task_not_found)
  | some t ↦
      if not (is_executing m.status)
      then (m, fail not_executing)
      else if incomplete_dependencies m.tasks t.props.depends_on
      then (m, fail dependencies_incomplete)
      else move_task running (λ u. u) (mission_task_status_changed m.root.id id running ∷ []) s t m
]

-- `completeTask`.
unfoldable pub complete_task : ℕ → ℕ → Stamp → Mission → Moved
unfolding change_task
complete_task id output s m =
    change_task id completed (λ u. record u { output = some (value output) })
      (mission_task_status_changed m.root.id id completed ∷ []) s m

-- `failTask`.
unfoldable pub fail_task : ℕ → String → Stamp → Mission → Moved
unfolding change_task
fail_task id why s m =
    change_task id failed (λ u. record u { output = some (reason why) })
      (mission_task_status_changed m.root.id id failed ∷ []) s m

-- `timeoutTask`.
unfoldable pub timeout_task : ℕ → Stamp → Mission → Moved
unfolding change_task
timeout_task id s m =
    change_task id timed_out (λ u. u)
      (mission_task_status_changed m.root.id id timed_out
        ∷ mission_task_timed_out m.root.id id
        ∷ [])
      s m

-- `cancelTask`.
unfoldable pub cancel_task : ℕ → String → Stamp → Mission → Moved
unfolding change_task
cancel_task id why s m =
    change_task id cancelled (λ u. u)
      (mission_task_status_changed m.root.id id cancelled
        ∷ mission_task_cancelled m.root.id id why
        ∷ [])
      s m

-- `markTaskAwaitingApproval`.
unfoldable pub mark_task_awaiting_approval : ℕ → ℕ → Stamp → Mission → Moved
unfolding change_task
mark_task_awaiting_approval id gate s m =
    change_task id awaiting_approval (λ u. record u { approval_gate_id = some gate })
      (mission_task_status_changed m.root.id id awaiting_approval ∷ []) s m
