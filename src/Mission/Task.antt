-- ===== src/Mission/Task.antt =====
-- A task of a mission (packages/domain/src/mission/mission-task.ts). Its identifiers, its version
-- tags and its input, which no code reads, are numbers; `agent_id` and the capability are texts,
-- since the code tests whether they are blank.
use vega_revenue_os.Prelude.{ℕ, String, Bool, true, false, Option, none, some, List, if◌then◌else◌}
use vega_revenue_os.Aggregate.{Outcome, ok, fail}
use vega_revenue_os.Mission.Status.{
  MissionStatus, TaskStatus, pending, running, completed, failed, cancelled, timed_out,
  can_transition_task,
}

-- `InvalidStateTransitionError` and the messages of `MissionInvariantError`. `stuck` is no error of
-- the source: the model's search would answer it if its fuel ran out.
pub data MissionError : Type 0 where
  invalid_transition : MissionStatus → MissionStatus → MissionError
  invalid_task_transition : TaskStatus → TaskStatus → MissionError
  workspace_required objective_required icp_required deadline_passed : MissionError
  terminal_mission version_not_positive version_not_greater : MissionError
  duplicate_task duplicate_key missing_agent missing_capability : MissionError
  missing_dependency cyclic_dependency stuck : MissionError
  task_not_found not_executing dependencies_incomplete : MissionError

pub record MissionTaskProps : Type 0 where
  pub id : ℕ
  pub mission_id : ℕ
  pub plan_id : ℕ
  pub agent_id : String
  pub agent_version : ℕ
  pub task_type : ℕ
  pub required_capability : Option String
  pub input : ℕ
  pub depends_on : List ℕ
  pub deadline : Option ℕ
  pub approval_gate_id : Option ℕ
  pub idempotency_key : ℕ
  pub correlation_id : ℕ
  pub actor : ℕ

-- `output?: unknown`: what the caller hands over, or `{ reason }`.
pub data TaskOutput : Type 0 where
  value : ℕ → TaskOutput
  reason : String → TaskOutput

-- The fields that never change stay in `props`.
pub record MissionTask : Type 0 where
  pub props : MissionTaskProps
  pub approval_gate_id : Option ℕ
  pub status : TaskStatus
  pub output : Option TaskOutput
  pub started_at : Option ℕ
  pub completed_at : Option ℕ

-- The constructor.
abbrev pub new_task : MissionTaskProps → MissionTask
new_task p = record {
  props = p;
  approval_gate_id = p.approval_gate_id;
  status = pending;
  output = none;
  started_at = none;
  completed_at = none;
}

abbrev pub is_running : TaskStatus → Bool
is_running running = true
is_running _ = false

abbrev pub is_completed : TaskStatus → Bool
is_completed completed = true
is_completed _ = false

-- The states in which a task has ended.
abbrev pub has_ended : TaskStatus → Bool
has_ended completed = true
has_ended failed = true
has_ended cancelled = true
has_ended timed_out = true
has_ended _ = false

-- The assignments of `transitionStatus` at the time `now`.
abbrev pub moved_task : TaskStatus → ℕ → MissionTask → MissionTask
moved_task to now t = record t {
  status = to;
  started_at = if is_running to then some now else t.started_at;
  completed_at = if has_ended to then some now else t.completed_at;
}

-- `transitionStatus` at the time `now`.
unfoldable pub transition_status : TaskStatus → ℕ → MissionTask → MissionTask × Outcome MissionError
unfolding can_transition_task
transition_status to now t =
    if can_transition_task t.status to
    then (moved_task to now t, ok)
    else (t, fail (invalid_task_transition t.status to))
