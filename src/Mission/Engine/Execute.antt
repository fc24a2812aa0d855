-- ===== src/Mission/Engine/Execute.antt =====
-- The engine's operations on a mission
-- (packages/mission-orchestrator/src/workflow/mission-execution-engine.ts).
use vega_revenue_os.Prelude.{ℕ, zero, suc, Option, none, some, if◌then◌else◌}
use vega_revenue_os.Outreach.Effect.{pure, ◌>>=◌, ◌>>◌}
use vega_revenue_os.Mission.Status.{MissionStatus}
use vega_revenue_os.Mission.Task.{MissionTask}
use vega_revenue_os.Mission.State.{Mission}
use vega_revenue_os.Mission.Tasks.{is_executing}
use vega_revenue_os.Mission.Engine.World.{TenantContext, PlanContract, Dependencies, EngineWorld}
use vega_revenue_os.Mission.Engine.Store.{Run, load_mission}
use vega_revenue_os.Mission.Engine.Plans.{plan_mission, replan_mission}
use vega_revenue_os.Mission.Engine.Steps.{select_next_task}
use vega_revenue_os.Mission.Engine.Results.{evaluate_completion, execute_task}

-- What `executeMissionStep` returns besides the mission's id.
pub record StepReport : Type 0 where
  pub status : MissionStatus
  pub completed_task_id : Option ℕ

module _ (ctx : TenantContext) (deps : Dependencies) where
  abbrev pub step_task : ℕ → Mission → Option MissionTask → Run StepReport
  step_task id m none = do
    evaluated ← evaluate_completion ctx deps m
    pure (record { status = evaluated.status; completed_task_id = none })
  step_task id m (some t) = do
    execute_task ctx deps m t
    latest ← load_mission ctx id
    pure (record { status = latest.status; completed_task_id = some t.props.id })

  abbrev pub step_mission : ℕ → Mission → Run StepReport
  step_mission id m =
      if is_executing m.status
      then step_task id m (select_next_task m)
      else pure (record { status = m.status; completed_task_id = none })

  -- `executeMissionStep`: a terminal mission is none that executes.
  unfoldable pub execute_mission_step : ℕ → Run StepReport
  unfolding load_mission select_next_task execute_task evaluate_completion
  execute_mission_step id = load_mission ctx id >>= step_mission id

  abbrev pub iterate_task : Run (Unit {0}) → Mission → Option MissionTask → Run (Unit {0})
  iterate_task next m none = do _ ← evaluate_completion ctx deps m; pure tt
  iterate_task next m (some t) = execute_task ctx deps m t >> next

  abbrev pub iterate : Run (Unit {0}) → Mission → Run (Unit {0})
  iterate next m =
      if is_executing m.status then iterate_task next m (select_next_task m) else pure tt

  -- The loop of `executeMission`, with `left` iterations left.
  unfoldable pub execute_loop : ℕ → ℕ → Run (Unit {0})
  unfolding load_mission select_next_task execute_task evaluate_completion
  execute_loop zero id = pure tt
  execute_loop (suc left) id = load_mission ctx id >>= iterate (execute_loop left id)

  -- `executeMission`, with at most 1000 iterations.
  unfoldable pub execute_mission : ℕ → Run (Unit {0})
  unfolding plan_mission execute_loop
  execute_mission id = plan_mission ctx deps id >> execute_loop 1000 id

-- The calls of the engine.
pub data Call : Type 0 where
  planned executed stepped : ℕ → Call
  replanned : ℕ → Option PlanContract → Call

module _ (ctx : TenantContext) (deps : Dependencies) where
  -- The world after a call, however it ends.
  unfoldable pub called : Call → EngineWorld → EngineWorld
  unfolding plan_mission execute_mission execute_mission_step replan_mission
  called (planned id) w = (plan_mission ctx deps id w).0
  called (executed id) w = (execute_mission ctx deps id w).0
  called (stepped id) w = (execute_mission_step ctx deps id w).0
  called (replanned id plan) w = (replan_mission ctx deps id plan w).0
