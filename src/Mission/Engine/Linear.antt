-- ===== src/Mission/Engine/Linear.antt =====
-- The parts of the engine among other writers of a mission
-- (packages/mission-orchestrator/src/workflow/mission-execution-engine.ts).
use vega_revenue_os.Prelude.{ℕ, Bool, true, false, not, Option, none, some, ◌==◌}
use vega_revenue_os.Outreach.Effect.{pure, ◌>>=◌}
use vega_revenue_os.Mission.State.{Mission, is_terminal}
use vega_revenue_os.Mission.Task.{MissionTask}
use vega_revenue_os.Mission.Tasks.{find_task}
use vega_revenue_os.Mission.Engine.World.{
  TenantContext, PlanContract, ExecutionStatus, ExecutionResult, ExecutionRequest, ApprovalRequest,
  CompensationRequest, Dependencies, EngineWorld, pending, running, awaiting_approval, paused,
  completed, failed, cancelled, timed_out, requires_reconciliation,
}
use vega_revenue_os.Mission.Engine.Store.{Work, save_and_publish}
use vega_revenue_os.Mission.Engine.Plans.{
  expect, require, new_correlation_id, or_planned, task_props, flatten_tasks, plan_work,
  replan_work, plan_mission, replan_mission, is_planning,
}
use vega_revenue_os.Mission.Engine.Steps.{
  build_execution_request, execute_agent, hand_to_agent, may_run, new_execution_id, run_started,
  run_task, start_work,
}
use vega_revenue_os.Mission.Engine.Results.{
  apply_result, approval_request, block_work, compensate_if_needed, compensation_request,
  complete_work, completion_work, evaluate_completion, execute_task, fail_and_compensate, fail_work,
  handle_task_result, mark_work, pause_work, request_approval, result_work, hand_approval,
  hand_compensation, or_task,
}
use vega_revenue_os.Mission.Engine.Evolves.{still}
use vega_revenue_os.Mission.Engine.Does.{
  Does, Always, Ended, Basis, bind-Does, pure-Does, throw-Does, if-Does,
}
use vega_revenue_os.Mission.Engine.Saves.{
  IsWork, load_mission-Does, perform-Does, save_and_publish-Does,
}
use vega_revenue_os.Mission.Engine.Works.{
  start_work-IsWork, complete_work-IsWork, mark_work-IsWork, pause_work-IsWork, fail_work-IsWork,
  block_work-IsWork, result_work-IsWork, completion_work-IsWork, plan_work-IsWork,
  replan_work-IsWork,
}

-- A computation that says nothing of its value.
pub ends : {A : Type 0} (P : EngineWorld → Type 0) (a : A) → Does P Ended (pure a)
ends P a = pure-Does λ w row p. tt

module _ (ctx : TenantContext) (deps : Dependencies) where
  expect-Does :
      {A : Type 0} (P : EngineWorld → Type 0) (o : Option A) → Does P (λ _. P) (expect ctx deps o)
  expect-Does P none = throw-Does
  expect-Does P (some a) = pure-Does λ w row p. p

  require-Does : (P : EngineWorld → Type 0) (b : Bool) → Does P (λ _. P) (require ctx deps b)
  require-Does P true = pure-Does λ w row p. p
  require-Does P false = throw-Does

  saves-Does :
      (work : Work) (m : Mission)
      → IsWork work
      → Does (Basis m) Ended (save_and_publish ctx deps work m >>= λ _. pure tt)
  saves-Does work m sound =
      bind-Does (save_and_publish-Does ctx deps work m sound) λ _. ends Always tt

  correlation-Does : (m : Mission) → Does (Basis m) (λ _. Basis m) (new_correlation_id ctx deps)
  correlation-Does m = record { at = λ w row p. (still, p) }

  pub plan_mission-Does : (id : ℕ) → Does Always Ended (plan_mission ctx deps id)
  unfolding plan_mission
  plan_mission-Does id = bind-Does (load_mission-Does ctx id) λ m.
      bind-Does (require-Does (Basis m) (is_planning m.status)) λ _.
        bind-Does (expect-Does (Basis m) (deps.plan m)) λ plan. bind-Does (correlation-Does m) λ c.
          let sound : IsWork (plan_work ctx deps c plan) = plan_work-IsWork ctx deps c plan in
          bind-Does (perform-Does ctx deps (plan_work ctx deps c plan) m sound)
            λ n. saves-Does (plan_work ctx deps c plan) n sound

  pub replan_mission-Does :
      (id : ℕ) (new_plan : Option PlanContract)
      → Does Always Ended (replan_mission ctx deps id new_plan)
  unfolding replan_mission
  replan_mission-Does id new_plan = bind-Does (load_mission-Does ctx id) λ m.
      bind-Does (require-Does (Basis m) (not (is_terminal m.status))) λ _.
        bind-Does (expect-Does (Basis m) (or_planned ctx deps new_plan m)) λ plan.
          bind-Does (correlation-Does m) λ c.
            bind-Does
              (expect-Does (Basis m)
                (task_props ctx deps m plan.plan_id c (flatten_tasks plan.phases)))
              λ ps.
                let sound : IsWork (replan_work ctx deps plan ps) =
                  replan_work-IsWork ctx deps plan ps in
                bind-Does (perform-Does ctx deps (replan_work ctx deps plan ps) m sound)
                  λ n. saves-Does (replan_work ctx deps plan ps) n sound

  new_execution_id-Does : (P : EngineWorld → Type 0) → Does P (λ _. P) (new_execution_id ctx deps)
  unfolding new_execution_id
  new_execution_id-Does P = record { at = λ w row p. (still, p) }

  hand_to_agent-Does : (r : ExecutionRequest) → Does Always Ended (hand_to_agent ctx deps r)
  unfolding hand_to_agent
  hand_to_agent-Does r = record { at = λ w row p. (still, tt) }

  hand_approval-Does :
      (r : ApprovalRequest) (m : Mission) → Does (Basis m) (λ _. Basis m) (hand_approval ctx deps r)
  unfolding hand_approval
  hand_approval-Does r m = record { at = λ w row p. (still, p) }

  hand_compensation-Does :
      (r : CompensationRequest) (m : Mission)
      → Does (Basis m) (λ _. Basis m) (hand_compensation ctx deps r)
  unfolding hand_compensation
  hand_compensation-Does r m = record { at = λ w row p. (still, p) }

  execute_agent-Does : (r : ExecutionRequest) → Does Always Ended (execute_agent ctx deps r)
  execute_agent-Does r = bind-Does (hand_to_agent-Does r) λ _. expect-Does Always (deps.execute r)

  run_started-Does :
      (t : MissionTask) (id : ℕ) (m : Mission) → Does Always Ended (run_started ctx deps t id m)
  unfolding run_started
  run_started-Does t id m =
      if-Does (may_run ctx deps m t)
        (bind-Does (expect-Does Always (deps.resolve_workspace m.root.id))
          λ workspace. execute_agent-Does (build_execution_request ctx deps m t id workspace))
        (ends Always _)

  run_task-Does : (m : Mission) (t : MissionTask) → Does (Basis m) Ended (run_task ctx deps m t)
  unfolding run_task
  run_task-Does m t = bind-Does (new_execution_id-Does (Basis m)) λ id.
      if-Does (may_run ctx deps m t)
        (bind-Does (perform-Does ctx deps (start_work ctx deps t) m (start_work-IsWork ctx deps t))
          λ n.
            bind-Does
              (save_and_publish-Does ctx deps (start_work ctx deps t) n
                (start_work-IsWork ctx deps t))
              λ saved. run_started-Does t id saved)
        (ends (Basis m) _)

  request_approval-Does :
      (t : MissionTask) (r : ExecutionResult) (m : Mission)
      → Does (Basis m) Basis (request_approval ctx deps t r m)
  request_approval-Does t r m =
      bind-Does (perform-Does ctx deps (mark_work ctx deps t) m (mark_work-IsWork ctx deps t)) λ n.
        bind-Does (hand_approval-Does (approval_request ctx deps t r n) n) λ _.
          bind-Does
            (require-Does (Basis n) (deps.request_approval (approval_request ctx deps t r n)))
            λ _. perform-Does ctx deps (pause_work ctx deps t) n (pause_work-IsWork ctx deps t)

  compensate_if_needed-Does :
      (t : MissionTask) (m : Mission)
      → Does (Basis m) (λ _. Basis m) (compensate_if_needed ctx deps t m)
  compensate_if_needed-Does t m =
      bind-Does (hand_compensation-Does (compensation_request ctx deps t m) m)
        λ _. require-Does (Basis m) (deps.compensate (compensation_request ctx deps t m))

  fail_and_compensate-Does :
      (t : MissionTask) (r : ExecutionResult) (m : Mission)
      → Does (Basis m) Basis (fail_and_compensate ctx deps t r m)
  fail_and_compensate-Does t r m =
      bind-Does (perform-Does ctx deps (fail_work ctx deps t r) m (fail_work-IsWork ctx deps t r))
        λ n.
          bind-Does (compensate_if_needed-Does t n)
            λ _. perform-Does ctx deps (block_work ctx deps t r) n (block_work-IsWork ctx deps t r)

  unchanged : (m : Mission) → Does (Basis m) Basis (pure m)
  unchanged m = pure-Does λ w row p. p

  apply_result-Does :
      (t : MissionTask) (r : ExecutionResult) (x : ExecutionStatus) (m : Mission)
      → Does (Basis m) Basis (apply_result ctx deps t r x m)
  unfolding apply_result
  apply_result-Does t r completed m =
      perform-Does ctx deps (complete_work ctx deps t r) m (complete_work-IsWork ctx deps t r)
  apply_result-Does t r awaiting_approval m = request_approval-Does t r m
  apply_result-Does t r failed m = fail_and_compensate-Does t r m
  apply_result-Does t r timed_out m = fail_and_compensate-Does t r m
  apply_result-Does t r cancelled m = fail_and_compensate-Does t r m
  apply_result-Does t r pending m = unchanged m
  apply_result-Does t r running m = unchanged m
  apply_result-Does t r paused m = unchanged m
  apply_result-Does t r requires_reconciliation m = unchanged m

  handle_task_result-Does :
      (m : Mission) (t : MissionTask) (r : ExecutionResult)
      → Does (Basis m) Ended (handle_task_result ctx deps m t r)
  unfolding handle_task_result
  handle_task_result-Does m t r =
      bind-Does (require-Does (Basis m) (m.root.tenant_id == ctx.tenant_id)) λ _.
        bind-Does (apply_result-Does t r r.status m) λ n.
          saves-Does (result_work ctx deps t r r.status) n
            (result_work-IsWork ctx deps t r r.status)

  pub execute_task-Does :
      (m : Mission) (t : MissionTask) → Does (Basis m) Ended (execute_task ctx deps m t)
  unfolding execute_task
  execute_task-Does m t = bind-Does (run_task-Does m t) λ r.
      bind-Does (load_mission-Does ctx m.root.id)
        λ latest. handle_task_result-Does latest (or_task (find_task t.props.id latest.tasks) t) r

  pub evaluate_completion-Does :
      (m : Mission) → Does (Basis m) Ended (evaluate_completion ctx deps m)
  unfolding evaluate_completion
  evaluate_completion-Does m =
      bind-Does
        (perform-Does ctx deps (completion_work ctx deps) m (completion_work-IsWork ctx deps))
        λ n.
          bind-Does
            (save_and_publish-Does ctx deps (completion_work ctx deps) n
              (completion_work-IsWork ctx deps))
            λ _. ends Always n
