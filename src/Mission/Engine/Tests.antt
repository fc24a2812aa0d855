-- ===== src/Mission/Engine/Tests.antt =====
-- A concrete mission that the engine executes, alone and beside another engine
-- (packages/mission-orchestrator/src/workflow/mission-execution-engine.ts), and what the theorems
-- state of it.
use mathlib.Core.List.{Memᴰ}
use vega_revenue_os.Prelude.{ℕ, ◌+◌, ◌≡◌, refl, true, none, some, List, [], ◌∷◌, map, is_blank}
use vega_revenue_os.Aggregate.{Stamp, ok}
use vega_revenue_os.Mission.Status.{MissionStatus, TaskStatus}
use vega_revenue_os.Mission.Task.{invalid_task_transition, MissionTaskProps, MissionTask, new_task}
use vega_revenue_os.Mission.State.{Mission, WorkspaceBinding}
use vega_revenue_os.Mission.Tasks.{incomplete_dependencies, start_task, move_task, has_completed}
use vega_revenue_os.Mission.Command.{Command, run, run_all}
use vega_revenue_os.Mission.Engine.World.{
  TenantContext, TaskContract, PlanContract, ExecutionStatus, Dependencies, EngineWorld, Batch,
}
use vega_revenue_os.Mission.Engine.Execute.{Call, executed, stepped, called}
use vega_revenue_os.Mission.Engine.Results.{hand_approval, hand_compensation}
use vega_revenue_os.Mission.Engine.Steps.{
  hand_to_agent, is_pending, start_work, run_started, build_execution_request, new_execution_id,
  select_next_task,
}
use vega_revenue_os.Mission.Graph.{validate_task_graph, find_cycle}
use vega_revenue_os.Mission.Graph.Search.{visit_each, visit, deps_of}
use vega_revenue_os.Mission.Graph.Checks.{ids_of, has_duplicate, check_tasks, check_task}
use vega_revenue_os.Outreach.Effect.{◌>>=◌}
use vega_revenue_os.Mission.Engine.Store.{as_row, save_and_publish, save_once, load_mission}
use vega_revenue_os.Mission.Engine.Again.{refused_start-runs}
use vega_revenue_os.Mission.Engine.Evolves.{Evolves}
use vega_revenue_os.Mission.Engine.History.{called-Evolves}
use vega_revenue_os.Mission.Engine.Selection.{selected_starts}

abbrev stamp : Stamp
stamp = record { event_id = 900; correlation_id = 901; now = 1000 }

abbrev contract : ℕ → List ℕ → TaskContract
contract id deps = record {
  task_id = id;
  plan_id = none;
  agent_id = "research";
  agent_version = 1;
  task_type = 2;
  required_capability = none;
  input = 0;
  depends_on = deps;
  deadline = none;
  approval_gate_id = none;
}

abbrev task : ℕ → List ℕ → MissionTaskProps
task id deps = record {
  id = id;
  mission_id = 1;
  plan_id = 10;
  agent_id = "research";
  agent_version = 1;
  task_type = 2;
  required_capability = none;
  input = 0;
  depends_on = deps;
  deadline = none;
  approval_gate_id = none;
  idempotency_key = id;
  correlation_id = 901;
  actor = 7;
}

-- A plan of two phases, the second of which waits for the first.
abbrev plan : PlanContract
plan = record {
  plan_id = 10;
  version = 1;
  phases = (contract 1 [] ∷ []) ∷ (contract 2 (1 ∷ []) ∷ []) ∷ [];
}

abbrev mission : MissionStatus → List MissionTask → Mission
mission status tasks = record {
  root = record { tenant_id = 7; id = 1; version = 4; loaded_version = some 4; domain_events = [] };
  workspace_id = some "w";
  workspace_binding_state = WorkspaceBinding.workspace_bound;
  name = "Pipeline";
  objective = "Book meetings";
  icp_id = "icp";
  deadline = none;
  plan = record { plan_id = 10; version = 1 };
  created_at = 0;
  updated_at = 0;
  status = status;
  tasks = tasks;
  outcomes = record { meetings_booked = none; opportunities_created = none };
}

abbrev ctx : TenantContext
ctx = record { tenant_id = 7; workspace_id = some "w"; correlation_id = 901 }

-- Agents that answer as they are told, with a plan, a registry and services that never fail.
abbrev answering : ExecutionStatus → Dependencies
answering status = record {
  stamp = λ i j. stamp;
  execution_id = λ i. i + 500;
  task_key = λ t p. t;
  actor = λ t. t;
  plan = λ m. some plan;
  supports = λ agent version capability. true;
  resolve_workspace = λ m. some "w";
  execute = λ r. some (record {
    execution_id = r.execution_id;
    status = status;
    outcome = 77;
    summary = "summary";
  });
  publish = λ e. true;
  request_approval = λ r. true;
  compensate = λ r. true;
  gate_of = λ t. t;
  awaiting_text = λ t. "awaiting approval";
  failed_text = λ t why. why;
  no_runnable_text = "no runnable tasks";
}

abbrev world : Mission → List Batch → EngineWorld
world m others = record {
  stored = m;
  others = others;
  tick = 0;
  published = [];
  executed = [];
  approvals = [];
  compensations = [];
}

-- The mission's status after a call, with the tasks that were handed to agents.
abbrev reported : EngineWorld → MissionStatus × List ℕ
reported w = (w.stored.status, map (λ r. r.task_id) w.executed)

unfoldable reports : Call → ExecutionStatus → EngineWorld → MissionStatus × List ℕ
unfolding called validate_task_graph has_duplicate ids_of check_tasks check_task is_blank find_cycle
    visit_each visit deps_of new_execution_id move_task hand_to_agent hand_approval
    hand_compensation has_completed run_all run
reports c x w = reported (called ctx (answering x) c w)

abbrev unplanned : EngineWorld
unplanned = world (mission MissionStatus.planning []) []

abbrev two_tasks : List MissionTask
two_tasks = new_task (task 1 []) ∷ new_task (task 2 (1 ∷ [])) ∷ []

-- Alone, the engine runs the tasks in the order of their dependencies, and completes the mission.
completes :
    reports (executed 1) ExecutionStatus.completed unplanned ≡ (MissionStatus.completed, 1 ∷ 2 ∷ [])
unfolding reports
completes = refl

-- A failed task blocks the mission, and the next one is not run.
blocks : reports (executed 1) ExecutionStatus.failed unplanned ≡ (MissionStatus.blocked, 1 ∷ [])
unfolding reports
blocks = refl

-- An approval pauses the mission.
pauses :
    reports (executed 1) ExecutionStatus.awaiting_approval unplanned
    ≡ (MissionStatus.paused, 1 ∷ [])
unfolding reports
pauses = refl

-- A task whose tool call has an unknown outcome stays RUNNING, and the mission fails.
fails :
    reports (executed 1) ExecutionStatus.requires_reconciliation unplanned
    ≡ (MissionStatus.failed, 1 ∷ [])
unfolding reports
fails = refl

-- Another engine starts the first task between this engine's read of the mission and its save. Both
-- hand the task to an agent.
abbrev raced : EngineWorld
raced =
    world (mission MissionStatus.executing two_tasks)
      ([] ∷ ((Command.start_task 1, stamp) ∷ []) ∷ [])

runs_again : reports (stepped 1) ExecutionStatus.completed raced ≡ (MissionStatus.executing, 1 ∷ [])
unfolding reports
runs_again = refl

-- Also where the other engine has completed it.
abbrev completed_elsewhere : EngineWorld
completed_elsewhere =
    world (mission MissionStatus.executing two_tasks)
      ([] ∷ ((Command.start_task 1, stamp) ∷ (Command.complete_task 1 66, stamp) ∷ []) ∷ [])

runs_after_completion :
    reports (stepped 1) ExecutionStatus.completed completed_elsewhere
    ≡ (MissionStatus.executing, 1 ∷ [])
unfolding reports
runs_after_completion = refl

called-Evolves_example :
    Evolves raced.stored raced.others
      (called ctx (answering ExecutionStatus.completed) (stepped 1) raced).stored
      (called ctx (answering ExecutionStatus.completed) (stepped 1) raced).others
called-Evolves_example =
    called-Evolves ctx (answering ExecutionStatus.completed) (stepped 1) raced (refl, refl)

selected_starts_example :
    Memᴰ (new_task (task 1 [])) two_tasks
    × (is_pending TaskStatus.pending ≡ true)
    × ((start_task 1 stamp (mission MissionStatus.executing two_tasks)).1 ≡ ok)
unfolding select_next_task ids_of
selected_starts_example =
    selected_starts stamp (mission MissionStatus.executing two_tasks) (new_task (task 1 []))
      ((refl, (refl, tt))) refl refl

-- The mission that was read, the row after the other engine's start, and the start in memory.
abbrev read_mission : Mission
read_mission = mission MissionStatus.executing two_tasks

abbrev other_start : Batch
other_start = (Command.start_task 1, stamp) ∷ []

abbrev started_elsewhere : Mission
unfolding run_all run move_task
started_elsewhere = as_row (run_all other_start read_mission)

refused_start-runs_example :
    ((save_and_publish ctx
          (answering ExecutionStatus.completed)
          (start_work ctx (answering ExecutionStatus.completed) (new_task (task 1 [])))
          (start_task 1 stamp read_mission).0
        >>= run_started ctx (answering ExecutionStatus.completed) (new_task (task 1 [])) 500)
      (world read_mission (other_start ∷ []))).0.executed
    ≡ build_execution_request ctx
        (answering ExecutionStatus.completed)
        started_elsewhere
        (new_task (task 1 []))
        500
        "w"
      ∷ []
unfolding started_elsewhere save_once start_task incomplete_dependencies load_mission
refused_start-runs_example =
    refused_start-runs ctx (answering ExecutionStatus.completed) (new_task (task 1 [])) 500
      (start_task 1 stamp read_mission).0 started_elsewhere
      (invalid_task_transition TaskStatus.running TaskStatus.running) (world started_elsewhere [])
      (world started_elsewhere []) (world read_mission (other_start ∷ [])) "w" refl refl refl refl
      refl
