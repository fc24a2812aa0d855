-- ===== src/Mission/Engine/Again.antt =====
-- What `runTask` does where another writer was faster
-- (packages/mission-orchestrator/src/workflow/mission-execution-engine.ts).
use vega_revenue_os.Prelude.{ℕ, ◌+◌, String, ◌≡◌, refl, true, Option, none, some, [], ◌∷◌, ◌++◌}
use vega_revenue_os.Aggregate.{fail}
use vega_revenue_os.Outreach.Effect.{value, conflict, ◌>>=◌}
use vega_revenue_os.Mission.Task.{MissionTask, MissionError}
use vega_revenue_os.Mission.State.{Mission}
use vega_revenue_os.Mission.Tasks.{is_executing, start_task}
use vega_revenue_os.Mission.Engine.World.{
  TenantContext, ExecutionRequest, Dependencies, EngineWorld,
}
use vega_revenue_os.Mission.Engine.Store.{
  load_mission, save_once, save_loop, save_and_publish, attempt,
}
use vega_revenue_os.Mission.Engine.Plans.{expect}
use vega_revenue_os.Mission.Engine.Steps.{
  start_work, may_run, run_started, hand_to_agent, execute_agent, build_execution_request,
}

module _ (ctx : TenantContext) (deps : Dependencies) where
  expect-executed :
      {A : Type 0} (o : Option A) (w : EngineWorld) → (expect ctx deps o w).0.executed ≡ w.executed
  expect-executed none w = refl
  expect-executed (some a) w = refl

  execute_agent-executed :
      (r : ExecutionRequest) (w : EngineWorld)
      → (execute_agent ctx deps r w).0.executed ≡ w.executed ++ (r ∷ [])
  unfolding hand_to_agent
  execute_agent-executed r w =
      expect-executed (deps.execute r) (record w { executed = w.executed ++ (r ∷ []) })

  run_started-executed :
      (t : MissionTask) (id : ℕ) (m : Mission) (w : EngineWorld) (workspace : String)
      → is_executing m.status ≡ true
      → deps.resolve_workspace m.root.id ≡ some workspace
      → (run_started ctx deps t id m w).0.executed
        ≡ w.executed ++ (build_execution_request ctx deps m t id workspace ∷ [])
  unfolding run_started may_run
  run_started-executed t id m w workspace e r =
      rw (e, r, run_started, may_run)
        (execute_agent-executed (build_execution_request ctx deps m t id workspace) w)

  -- Where the save of a started task meets a newer row, on which the start is refused, as for a task
  -- that another writer has started or completed, the task is handed to an agent all the same, if
  -- only the mission still executes and a workspace is resolved.
  pub refused_start-runs :
      (t : MissionTask) (id : ℕ) (started latest : Mission) (e : MissionError) (u v w : EngineWorld)
      (workspace : String)
      → save_once ctx deps started w ≡ (u, conflict)
      → load_mission ctx started.root.id u ≡ (v, value latest)
      → start_task t.props.id (deps.stamp v.tick 0) latest ≡ (latest, fail e)
      → is_executing latest.status ≡ true
      → deps.resolve_workspace latest.root.id ≡ some workspace
      → ((save_and_publish ctx deps (start_work ctx deps t) started >>= run_started ctx deps t id)
          w).0.executed
        ≡ v.executed ++ (build_execution_request ctx deps latest t id workspace ∷ [])
  unfolding save_and_publish save_loop attempt
  refused_start-runs t id started latest e u v w workspace stale loaded refused runs found =
      rw (stale, loaded, refused)
        (run_started-executed t id latest (record v { tick = v.tick + 1 }) workspace runs found)
