-- ===== src/Mission/Engine/History.antt =====
-- The engine's calls among other writers of a mission
-- (packages/mission-orchestrator/src/workflow/mission-execution-engine.ts).
use vega_revenue_os.Prelude.{ℕ, zero, suc, Option, none, some}
use vega_revenue_os.Mission.Task.{MissionTask}
use vega_revenue_os.Mission.State.{Mission}
use vega_revenue_os.Mission.Tasks.{is_executing}
use vega_revenue_os.Mission.Engine.World.{TenantContext, Dependencies, EngineWorld}
use vega_revenue_os.Mission.Engine.Store.{Run}
use vega_revenue_os.Mission.Engine.Steps.{select_next_task}
use vega_revenue_os.Mission.Engine.Execute.{
  Call, planned, executed, stepped, replanned, step_task, execute_mission_step, iterate_task,
  execute_loop, execute_mission, called,
}
use vega_revenue_os.Mission.Engine.Evolves.{IsRow, Evolves}
use vega_revenue_os.Mission.Engine.Does.{Does, Always, Ended, Basis, bind-Does, if-Does}
use vega_revenue_os.Mission.Engine.Saves.{load_mission-Does}
use vega_revenue_os.Mission.Engine.Linear.{
  ends, plan_mission-Does, replan_mission-Does, execute_task-Does, evaluate_completion-Does,
}

module _ (ctx : TenantContext) (deps : Dependencies) where
  step_task-Does :
      (id : ℕ) (m : Mission) (o : Option MissionTask)
      → Does (Basis m) Ended (step_task ctx deps id m o)
  step_task-Does id m none = bind-Does (evaluate_completion-Does ctx deps m) λ n. ends Always _
  step_task-Does id m (some t) =
      bind-Does (execute_task-Does ctx deps m t)
        λ _. bind-Does (load_mission-Does ctx id) λ latest. ends (Basis latest) _

  execute_mission_step-Does : (id : ℕ) → Does Always Ended (execute_mission_step ctx deps id)
  unfolding execute_mission_step
  execute_mission_step-Does id = bind-Does (load_mission-Does ctx id) λ m.
      if-Does (is_executing m.status) (step_task-Does id m (select_next_task m)) (ends (Basis m) _)

  iterate_task-Does :
      (next : Run (Unit {0})) (m : Mission) (o : Option MissionTask)
      → Does Always Ended next
      → Does (Basis m) Ended (iterate_task ctx deps next m o)
  iterate_task-Does next m none h =
      bind-Does (evaluate_completion-Does ctx deps m) λ n. ends Always tt
  iterate_task-Does next m (some t) h = bind-Does (execute_task-Does ctx deps m t) λ _. h

  execute_loop-Does : (left id : ℕ) → Does Always Ended (execute_loop ctx deps left id)
  unfolding execute_loop
  execute_loop-Does zero id = ends Always tt
  execute_loop-Does (suc left) id =
      let next : Does Always Ended (execute_loop ctx deps left id) = execute_loop-Does left id in
      bind-Does (load_mission-Does ctx id) λ m.
        if-Does (is_executing m.status)
          (iterate_task-Does (execute_loop ctx deps left id) m (select_next_task m) next)
          (ends (Basis m) tt)

  execute_mission-Does : (id : ℕ) → Does Always Ended (execute_mission ctx deps id)
  unfolding execute_mission
  execute_mission-Does id = bind-Does (plan_mission-Does ctx deps id) λ _. execute_loop-Does 1000 id

  -- Whatever other writers save between the reads and writes of a call of the engine, and however the
  -- call ends, the mission's row evolves by all the commands of those writers and by writes of the
  -- engine, each of which derives the new row from the very row that it replaces by the aggregate's
  -- commands and by plans that passed their check. The row is one that was saved and loaded.
  pub called-Evolves :
      (c : Call) (w : EngineWorld)
      → IsRow w.stored
      → Evolves w.stored w.others (called ctx deps c w).stored (called ctx deps c w).others
  unfolding called
  called-Evolves (planned id) w row = ((plan_mission-Does ctx deps id).at w row tt).0
  called-Evolves (executed id) w row = ((execute_mission-Does id).at w row tt).0
  called-Evolves (stepped id) w row = ((execute_mission_step-Does id).at w row tt).0
  called-Evolves (replanned id plan) w row = ((replan_mission-Does ctx deps id plan).at w row tt).0
