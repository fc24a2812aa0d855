-- ===== src/Mission/Engine/Works.antt =====
-- The groups of commands of the engine
-- (packages/mission-orchestrator/src/workflow/mission-execution-engine.ts).
use vega_revenue_os.Prelude.{ℕ, ◌+◌, ◌≡◌, refl, List, [], ◌∷◌, if-cases}
use vega_revenue_os.Aggregate.{ok, fail}
use vega_revenue_os.Mission.State.{Mission}
use vega_revenue_os.Mission.Task.{MissionTask, MissionTaskProps}
use vega_revenue_os.Mission.Transitions.{Moved}
use vega_revenue_os.Mission.Command
use vega_revenue_os.Mission.Command.{run}
use vega_revenue_os.Mission.Tasks.{is_executing}
use vega_revenue_os.Mission.Engine.World.{
  TenantContext, TaskContract, PlanContract, ExecutionStatus, ExecutionResult, Dependencies,
  pending, running, awaiting_approval, paused, completed, failed, cancelled, timed_out,
  requires_reconciliation,
}
use vega_revenue_os.Mission.Engine.Evolves.{Derived, ran, adopted}
use vega_revenue_os.Mission.Engine.Saves.{IsWork}
use vega_revenue_os.Mission.Engine.Plans.{
  chain, flatten_tasks, mission_plan, has_capability, map_task_contract_to_props, add_tasks, adopt,
  plan_work, replan_work,
}
use vega_revenue_os.Mission.Engine.Steps.{start_work}
use vega_revenue_os.Mission.Engine.Results.{
  block_work, complete_work, completion_work, fail_work, mark_work, pause_work, result_work,
  all_completed, no_outcomes,
}

-- A step of a group derives what it returns, where it does not fail.
abbrev Derives : Mission → Moved → Type 0
Derives k r = r.1 ≡ ok → Derived k r.0

chain-Derives :
    (k : Mission) (r : Moved) (f : Mission → Moved)
    → Derives k r
    → ((m : Mission) → Derived k m → Derives k (f m))
    → Derives k (chain r f)
chain-Derives k (m, ok) f d g h = g m (d refl) h
chain-Derives k (m, fail e) f d g h = cc

module _ (ctx : TenantContext) (deps : Dependencies) where
  pub start_work-IsWork : (t : MissionTask) → IsWork (start_work ctx deps t)
  unfolding run
  start_work-IsWork t stamp k m d h = ran d (Command.start_task t.props.id) (stamp 0)

  pub complete_work-IsWork :
      (t : MissionTask) (r : ExecutionResult) → IsWork (complete_work ctx deps t r)
  unfolding run
  complete_work-IsWork t r stamp k m d h =
      ran d (Command.complete_task t.props.id r.outcome) (stamp 0)

  pub mark_work-IsWork : (t : MissionTask) → IsWork (mark_work ctx deps t)
  unfolding run
  mark_work-IsWork t stamp k m d h =
      ran d (Command.mark_task_awaiting_approval t.props.id (deps.gate_of t.props.id)) (stamp 0)

  pub pause_work-IsWork : (t : MissionTask) → IsWork (pause_work ctx deps t)
  unfolding run
  pause_work-IsWork t stamp k m d h =
      ran d (Command.pause (deps.awaiting_text t.props.id)) (stamp 1)

  pub fail_work-IsWork : (t : MissionTask) (r : ExecutionResult) → IsWork (fail_work ctx deps t r)
  unfolding run
  fail_work-IsWork t r stamp k m d h = ran d (Command.fail_task t.props.id r.summary) (stamp 0)

  pub block_work-IsWork : (t : MissionTask) (r : ExecutionResult) → IsWork (block_work ctx deps t r)
  unfolding run
  block_work-IsWork t r stamp k m d =
      if-cases (Derives k) (is_executing m.status)
        (λ _ _. ran d (Command.block (deps.failed_text t.props.id r.summary)) (stamp 1)) λ _ _. d

  fail_and_block-IsWork :
      (t : MissionTask) (r : ExecutionResult)
      → IsWork (λ stamp m. chain (fail_work ctx deps t r stamp m) (block_work ctx deps t r stamp))
  fail_and_block-IsWork t r stamp k m d =
      chain-Derives k (fail_work ctx deps t r stamp m) (block_work ctx deps t r stamp)
        (fail_work-IsWork t r stamp k m d) λ n. block_work-IsWork t r stamp k n

  pub result_work-IsWork :
      (t : MissionTask) (r : ExecutionResult) (x : ExecutionStatus)
      → IsWork (result_work ctx deps t r x)
  unfolding result_work
  result_work-IsWork t r completed stamp k m d = complete_work-IsWork t r stamp k m d
  result_work-IsWork t r awaiting_approval stamp k m d =
      chain-Derives k (mark_work ctx deps t stamp m) (pause_work ctx deps t stamp)
        (mark_work-IsWork t stamp k m d) λ n. pause_work-IsWork t stamp k n
  result_work-IsWork t r failed stamp k m d = fail_and_block-IsWork t r stamp k m d
  result_work-IsWork t r timed_out stamp k m d = fail_and_block-IsWork t r stamp k m d
  result_work-IsWork t r cancelled stamp k m d = fail_and_block-IsWork t r stamp k m d
  result_work-IsWork t r pending stamp k m d = λ _. d
  result_work-IsWork t r running stamp k m d = λ _. d
  result_work-IsWork t r paused stamp k m d = λ _. d
  result_work-IsWork t r requires_reconciliation stamp k m d = λ _. d

  pub completion_work-IsWork : IsWork (completion_work ctx deps)
  unfolding completion_work run
  completion_work-IsWork stamp k m d =
      if-cases (Derives k) (all_completed m.tasks)
        (λ _ _. ran d (Command.complete no_outcomes) (stamp 0))
        λ _ _. ran d (Command.fail_mission deps.no_runnable_text) (stamp 0)

  add_tasks-IsWork :
      (i plan_id correlation_id : ℕ) (cs : List TaskContract)
      → IsWork (add_tasks ctx deps i plan_id correlation_id cs)
  unfolding add_tasks run
  add_tasks-IsWork i plan_id correlation_id [] stamp k m d = λ _. d
  add_tasks-IsWork i plan_id correlation_id (c ∷ cs) stamp k m d =
      let p : MissionTaskProps = map_task_contract_to_props ctx deps m plan_id correlation_id c in
      if-cases (Derives k) (has_capability ctx deps c)
        (λ _.
          chain-Derives k (run (Command.add_task p) (stamp i) m)
            (add_tasks ctx deps (i + 1) plan_id correlation_id cs stamp)
            (λ _. ran d (Command.add_task p) (stamp i))
            λ n e. add_tasks-IsWork (i + 1) plan_id correlation_id cs stamp k n e)
        λ _ h. cc

  pub plan_work-IsWork :
      (correlation_id : ℕ) (plan : PlanContract) → IsWork (plan_work ctx deps correlation_id plan)
  unfolding plan_work
  plan_work-IsWork correlation_id plan stamp k m d =
      chain-Derives k
        (add_tasks ctx deps 1 plan.plan_id correlation_id (flatten_tasks plan.phases) stamp m)
        (adopt ctx deps plan (stamp 0))
        (add_tasks-IsWork 1 plan.plan_id correlation_id (flatten_tasks plan.phases) stamp k m d)
        λ n e. adopted e (mission_plan plan) (stamp 0)

  pub replan_work-IsWork :
      (plan : PlanContract) (ps : List MissionTaskProps) → IsWork (replan_work ctx deps plan ps)
  unfolding run
  replan_work-IsWork plan ps stamp k m d h = ran d (Command.replan (mission_plan plan) ps) (stamp 0)
