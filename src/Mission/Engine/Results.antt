-- ===== src/Mission/Engine/Results.antt =====
-- What the engine does with a task's result, and at the end of a mission
-- (packages/mission-orchestrator/src/workflow/mission-execution-engine.ts).
use vega_revenue_os.Prelude.{
  Bool, true, ◌&&◌, Option, none, some, List, [], ◌∷◌, ◌++◌, ◌==◌, if◌then◌else◌,
}
use vega_revenue_os.Aggregate.{ok}
use vega_revenue_os.Outreach.Effect.{pure, ◌>>=◌, ◌>>◌, update}
use vega_revenue_os.Mission.Task.{MissionTask, is_completed}
use vega_revenue_os.Mission.State.{Mission, MissionOutcomes}
use vega_revenue_os.Mission.Transitions.{pause, block, complete, fail_mission}
use vega_revenue_os.Mission.Tasks.{
  find_task, is_executing, complete_task, fail_task, mark_task_awaiting_approval,
}
use vega_revenue_os.Mission.Engine.World.{
  TenantContext, ExecutionStatus, ExecutionResult, ApprovalRequest, CompensationRequest,
  Dependencies, awaiting_approval, completed, failed, cancelled, timed_out,
}
use vega_revenue_os.Mission.Engine.Store.{Run, Work, load_mission, perform, save_and_publish}
use vega_revenue_os.Mission.Engine.Plans.{chain, require}
use vega_revenue_os.Mission.Engine.Steps.{run_task}

-- `mission.tasks.every((t) => t.status === 'COMPLETED')`
unfoldable pub all_completed : List MissionTask → Bool
all_completed [] = true
all_completed (t ∷ ts) = is_completed t.status && all_completed ts

abbrev pub no_outcomes : MissionOutcomes
no_outcomes = record { meetings_booked = some 0; opportunities_created = some 0 }

abbrev pub or_task : Option MissionTask → MissionTask → MissionTask
or_task none t = t
or_task (some u) _ = u

module _ (ctx : TenantContext) (deps : Dependencies) where
  -- What is handed to the services of approvals and compensations.
  unfoldable pub hand_approval : ApprovalRequest → Run (Unit {0})
  hand_approval r = update λ w. record w { approvals = w.approvals ++ (r ∷ []) }

  unfoldable pub hand_compensation : CompensationRequest → Run (Unit {0})
  hand_compensation r = update λ w. record w { compensations = w.compensations ++ (r ∷ []) }

  abbrev pub complete_work : MissionTask → ExecutionResult → Work
  complete_work t r stamp m = complete_task t.props.id r.outcome (stamp 0) m

  abbrev pub mark_work : MissionTask → Work
  mark_work t stamp m = mark_task_awaiting_approval t.props.id (deps.gate_of t.props.id) (stamp 0) m

  abbrev pub pause_work : MissionTask → Work
  pause_work t stamp m = pause (deps.awaiting_text t.props.id) (stamp 1) m

  abbrev pub fail_work : MissionTask → ExecutionResult → Work
  fail_work t r stamp m = fail_task t.props.id r.summary (stamp 0) m

  abbrev pub block_work : MissionTask → ExecutionResult → Work
  block_work t r stamp m =
      if is_executing m.status
      then block (deps.failed_text t.props.id r.summary) (stamp 1) m
      else (m, ok)

  -- The commands that `handleTaskResult` applies again after a conflict.
  unfoldable pub result_work : MissionTask → ExecutionResult → ExecutionStatus → Work
  unfolding complete_task mark_task_awaiting_approval pause fail_task block
  result_work t r completed stamp m = complete_work t r stamp m
  result_work t r awaiting_approval stamp m = chain (mark_work t stamp m) (pause_work t stamp)
  result_work t r failed stamp m = chain (fail_work t r stamp m) (block_work t r stamp)
  result_work t r timed_out stamp m = chain (fail_work t r stamp m) (block_work t r stamp)
  result_work t r cancelled stamp m = chain (fail_work t r stamp m) (block_work t r stamp)
  result_work t r _ stamp m = (m, ok)

  abbrev pub approval_request : MissionTask → ExecutionResult → Mission → ApprovalRequest
  approval_request t r m = record {
    mission_id = m.root.id;
    task_id = t.props.id;
    execution_id = r.execution_id;
    action_type = t.props.task_type;
    requested_by = t.props.agent_id;
  }

  -- `requestApproval`.
  abbrev pub request_approval : MissionTask → ExecutionResult → Mission → Run Mission
  request_approval t r m = do
    marked ← perform ctx deps (mark_work t) m
    hand_approval (approval_request t r marked)
    require ctx deps (deps.request_approval (approval_request t r marked))
    perform ctx deps (pause_work t) marked

  abbrev pub compensation_request : MissionTask → Mission → CompensationRequest
  compensation_request t m = record {
    mission_id = m.root.id;
    task_id = t.props.id;
    action_type = t.props.task_type;
  }

  -- `compensateIfNeeded`.
  abbrev pub compensate_if_needed : MissionTask → Mission → Run (Unit {0})
  compensate_if_needed t m = do
    hand_compensation (compensation_request t m)
    require ctx deps (deps.compensate (compensation_request t m))

  abbrev pub fail_and_compensate : MissionTask → ExecutionResult → Mission → Run Mission
  fail_and_compensate t r m = do
    failed_mission ← perform ctx deps (fail_work t r) m
    compensate_if_needed t failed_mission
    perform ctx deps (block_work t r) failed_mission

  -- What `handleTaskResult` does before it saves.
  unfoldable pub apply_result :
      MissionTask → ExecutionResult → ExecutionStatus → Mission → Run Mission
  unfolding perform complete_task mark_task_awaiting_approval pause fail_task block
  apply_result t r completed m = perform ctx deps (complete_work t r) m
  apply_result t r awaiting_approval m = request_approval t r m
  apply_result t r failed m = fail_and_compensate t r m
  apply_result t r timed_out m = fail_and_compensate t r m
  apply_result t r cancelled m = fail_and_compensate t r m
  apply_result t r _ m = pure m

  -- `handleTaskResult`.
  unfoldable pub handle_task_result : Mission → MissionTask → ExecutionResult → Run (Unit {0})
  unfolding apply_result save_and_publish result_work
  handle_task_result m t r = do
    require ctx deps (m.root.tenant_id == ctx.tenant_id)
    applied ← apply_result t r r.status m
    _ ← save_and_publish ctx deps (result_work t r r.status) applied
    pure tt

  -- `executeTask`.
  unfoldable pub execute_task : Mission → MissionTask → Run (Unit {0})
  unfolding run_task load_mission handle_task_result find_task
  execute_task m t = do
    r ← run_task ctx deps m t
    latest ← load_mission ctx m.root.id
    handle_task_result latest (or_task (find_task t.props.id latest.tasks) t) r

  unfoldable pub completion_work : Work
  unfolding all_completed complete fail_mission
  completion_work stamp m =
      if all_completed m.tasks
      then complete no_outcomes (stamp 0) m
      else fail_mission deps.no_runnable_text (stamp 0) m

  -- `evaluateCompletion`, which also hands back the mission that it changed in memory.
  unfoldable pub evaluate_completion : Mission → Run Mission
  unfolding completion_work perform save_and_publish
  evaluate_completion m = do
    evaluated ← perform ctx deps completion_work m
    _ ← save_and_publish ctx deps completion_work evaluated
    pure evaluated
