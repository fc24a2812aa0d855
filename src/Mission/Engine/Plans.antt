-- ===== src/Mission/Engine/Plans.antt =====
-- `planMission` and `replanMission`
-- (packages/mission-orchestrator/src/workflow/mission-execution-engine.ts).
use vega_revenue_os.Prelude.{
  ℕ, ◌+◌, Bool, true, false, not, Option, none, some, List, [], ◌∷◌, ◌++◌, if◌then◌else◌,
}
use vega_revenue_os.Aggregate.{Stamp, ok, fail}
use vega_revenue_os.Outreach.Effect.{value, pure, ◌>>=◌, ◌>>◌, throw}
use vega_revenue_os.Mission.Status.{MissionStatus, planning}
use vega_revenue_os.Mission.Task.{MissionTaskProps, missing_agent}
use vega_revenue_os.Mission.State.{Mission, MissionPlan, is_terminal}
use vega_revenue_os.Mission.Transitions.{Moved}
use vega_revenue_os.Mission.Planning
use vega_revenue_os.Mission.Planning.{add_task, plan_valid}
use vega_revenue_os.Mission.Engine.World.{TenantContext, TaskContract, PlanContract, Dependencies}
use vega_revenue_os.Mission.Engine.Store.{Run, Work, load_mission, perform, save_and_publish}

-- A command after another that did not fail.
abbrev pub chain : Moved → (Mission → Moved) → Moved
chain (m, ok) f = f m
chain (m, fail e) f = (m, fail e)

abbrev plan_id_or : Option ℕ → ℕ → ℕ
plan_id_or none id = id
plan_id_or (some id) _ = id

abbrev pub is_planning : MissionStatus → Bool
is_planning planning = true
is_planning _ = false

-- `flattenTasks`.
unfoldable pub flatten_tasks : List (List TaskContract) → List TaskContract
flatten_tasks [] = []
flatten_tasks (phase ∷ phases) = phase ++ flatten_tasks phases

-- `plan as unknown as MissionPlan`
abbrev pub mission_plan : PlanContract → MissionPlan
mission_plan plan = record { plan_id = plan.plan_id; version = plan.version }

module _ (ctx : TenantContext) (deps : Dependencies) where
  -- `validateCapability`.
  abbrev pub has_capability : TaskContract → Bool
  has_capability c = deps.supports c.agent_id c.agent_version c.required_capability

  -- `mapTaskContractToProps`.
  abbrev pub map_task_contract_to_props : Mission → ℕ → ℕ → TaskContract → MissionTaskProps
  map_task_contract_to_props m plan_id correlation_id c = record {
    id = c.task_id;
    mission_id = m.root.id;
    plan_id = plan_id_or c.plan_id plan_id;
    agent_id = c.agent_id;
    agent_version = c.agent_version;
    task_type = c.task_type;
    required_capability = c.required_capability;
    input = c.input;
    depends_on = c.depends_on;
    deadline = c.deadline;
    approval_gate_id = c.approval_gate_id;
    idempotency_key = deps.task_key c.task_id plan_id;
    correlation_id = correlation_id;
    actor = deps.actor m.root.tenant_id;
  }

  -- The loop over the plan's tasks; its first task takes the stamp numbered `i`.
  unfoldable pub add_tasks : ℕ → ℕ → ℕ → List TaskContract → Work
  unfolding add_task
  add_tasks i plan_id correlation_id [] stamp m = (m, ok)
  add_tasks i plan_id correlation_id (c ∷ cs) stamp m =
      if has_capability c
      then chain (add_task (map_task_contract_to_props m plan_id correlation_id c) (stamp i) m)
          (add_tasks (i + 1) plan_id correlation_id cs stamp)
      else (m, fail missing_agent)

  -- `mission.plan = plan`, and `planValid`.
  abbrev pub adopt : PlanContract → Stamp → Mission → Moved
  adopt plan s m = plan_valid s (record m { plan = mission_plan plan })

  -- What `planMission` does to a mission in memory.
  unfoldable pub plan_work : ℕ → PlanContract → Work
  unfolding add_tasks flatten_tasks plan_valid
  plan_work correlation_id plan stamp m =
      chain (add_tasks 1 plan.plan_id correlation_id (flatten_tasks plan.phases) stamp m)
        (adopt plan (stamp 0))

  abbrev pub expect : {A : Type 0} → Option A → Run A
  expect none = throw
  expect (some a) = pure a

  abbrev pub require : Bool → Run (Unit {0})
  require true = pure tt
  require false = throw

  -- `generateCorrelationId`.
  abbrev pub new_correlation_id : Run ℕ
  new_correlation_id w =
      (record w { tick = w.tick + 1 }, value (deps.stamp w.tick 0).correlation_id)

  -- `planMission`.
  unfoldable pub plan_mission : ℕ → Run (Unit {0})
  unfolding load_mission perform save_and_publish plan_work
  plan_mission id = do
    m ← load_mission ctx id
    require (is_planning m.status)
    plan ← expect (deps.plan m)
    correlation_id ← new_correlation_id
    planned ← perform ctx deps (plan_work correlation_id plan) m
    _ ← save_and_publish ctx deps (plan_work correlation_id plan) planned
    pure tt

  -- The loop that collects the new tasks of `replanMission`.
  unfoldable pub task_props : Mission → ℕ → ℕ → List TaskContract → Option (List MissionTaskProps)
  task_props m plan_id correlation_id [] = some []
  task_props m plan_id correlation_id (c ∷ cs) =
      let rest = task_props m plan_id correlation_id cs in
      if has_capability c
      then elim rest [
        | none ↦ none
        | some ps ↦ some (map_task_contract_to_props m plan_id correlation_id c ∷ ps)
      ]
      else none

  abbrev pub replan_work : PlanContract → List MissionTaskProps → Work
  replan_work plan ps stamp m = Planning.replan (mission_plan plan) ps (stamp 0) m

  abbrev pub or_planned : Option PlanContract → Mission → Option PlanContract
  or_planned (some plan) m = some plan
  or_planned none m = deps.plan m

  -- `replanMission`.
  unfoldable pub replan_mission : ℕ → Option PlanContract → Run (Unit {0})
  unfolding load_mission perform save_and_publish task_props flatten_tasks Planning.replan
      is_terminal
  replan_mission id new_plan = do
    m ← load_mission ctx id
    require (not (is_terminal m.status))
    plan ← expect (or_planned new_plan m)
    correlation_id ← new_correlation_id
    ps ← expect (task_props m plan.plan_id correlation_id (flatten_tasks plan.phases))
    replanned ← perform ctx deps (replan_work plan ps) m
    _ ← save_and_publish ctx deps (replan_work plan ps) replanned
    pure tt
