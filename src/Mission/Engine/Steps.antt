-- ===== src/Mission/Engine/Steps.antt =====
-- The execution of a mission's tasks
-- (packages/mission-orchestrator/src/workflow/mission-execution-engine.ts).
use vega_revenue_os.Prelude.{
  ℕ, String, Bool, true, false, not, ◌&&◌, Option, none, some, List, [], ◌∷◌, ◌++◌, if◌then◌else◌,
}
use vega_revenue_os.Outreach.Effect.{pure, ◌>>=◌, ◌>>◌, update, read}
use vega_revenue_os.Mission.Status.{TaskStatus}
use vega_revenue_os.Mission.Task.{MissionTask, is_running}
use vega_revenue_os.Mission.State.{Mission}
use vega_revenue_os.Mission.Tasks.{find_task, incomplete_dependencies, is_executing, start_task}
use vega_revenue_os.Mission.Engine.World.{
  TenantContext, ExecutionResult, ExecutionRequest, Dependencies, paused,
}
use vega_revenue_os.Mission.Engine.Store.{Run, Work, perform, save_and_publish}
use vega_revenue_os.Mission.Engine.Plans.{expect}

abbrev pub is_pending : TaskStatus → Bool
is_pending TaskStatus.pending = true
is_pending _ = false

-- `selectNextTask`, where `all` are the mission's tasks.
unfoldable pub next_of : List MissionTask → List MissionTask → Option MissionTask
unfolding incomplete_dependencies
next_of all [] = none
next_of all (t ∷ ts) =
    let rest = next_of all ts in
    if is_pending t.status && not (incomplete_dependencies all t.props.depends_on)
    then some t
    else rest

unfoldable pub select_next_task : Mission → Option MissionTask
unfolding next_of
select_next_task m = next_of m.tasks m.tasks

-- `latestTask?.status === 'RUNNING'`
abbrev is_running_task : Option MissionTask → Bool
is_running_task none = false
is_running_task (some t) = is_running t.status

abbrev paused_result : ℕ → ExecutionResult
paused_result id = record {
  execution_id = id;
  status = paused;
  outcome = 0;
  summary = "Mission is no longer executing; aborting task execution";
}

abbrev capabilities_of : Option String → List String
capabilities_of none = "research" ∷ []
capabilities_of (some c) = c ∷ []

abbrev either_deadline : Option ℕ → Option ℕ → Option ℕ
either_deadline none d = d
either_deadline (some d) _ = some d

module _ (ctx : TenantContext) (deps : Dependencies) where
  -- `buildExecutionRequest`.
  abbrev pub build_execution_request : Mission → MissionTask → ℕ → String → ExecutionRequest
  build_execution_request m t id workspace = record {
    execution_id = id;
    tenant_id = ctx.tenant_id;
    mission_id = m.root.id;
    task_id = t.props.id;
    agent_id = t.props.agent_id;
    agent_version = t.props.agent_version;
    task_type = t.props.task_type;
    target = t.props.input;
    capabilities = capabilities_of t.props.required_capability;
    workspace_id = workspace;
    deadline = either_deadline t.props.deadline m.deadline;
  }

  -- `generateExecutionId`.
  unfoldable pub new_execution_id : Run ℕ
  new_execution_id = read λ w. deps.execution_id w.tick

  -- What is handed to the agents.
  unfoldable pub hand_to_agent : ExecutionRequest → Run (Unit {0})
  hand_to_agent r = update λ w. record w { executed = w.executed ++ (r ∷ []) }

  -- `agentExecutor.execute`.
  abbrev pub execute_agent : ExecutionRequest → Run ExecutionResult
  execute_agent r = hand_to_agent r >> expect ctx deps (deps.execute r)

  abbrev pub start_work : MissionTask → Work
  start_work t stamp m = start_task t.props.id (stamp 0) m

  -- The test of `runTask`, before the start and again after it.
  unfoldable pub may_run : Mission → MissionTask → Bool
  unfolding find_task
  may_run m t =
      if is_executing m.status then true else is_running_task (find_task t.props.id m.tasks)

  -- The end of `runTask`, with the mission that was saved or read last.
  unfoldable pub run_started : MissionTask → ℕ → Mission → Run ExecutionResult
  unfolding may_run
  run_started t id m =
      if may_run m t
      then (expect ctx deps (deps.resolve_workspace m.root.id) >>= λ workspace.
          execute_agent (build_execution_request m t id workspace))
      else pure (paused_result id)

  -- `runTask`.
  unfoldable pub run_task : Mission → MissionTask → Run ExecutionResult
  unfolding may_run run_started perform save_and_publish start_task
  run_task m t = new_execution_id >>= λ id.
      if may_run m t
      then (do
        started ← perform ctx deps (start_work t) m
        saved ← save_and_publish ctx deps (start_work t) started
        run_started t id saved)
      else pure (paused_result id)
