-- ===== src/Mission/Command.antt =====
-- The commands of a mission as data, and histories of them
-- (packages/domain/src/mission/mission.ts).
use vega_revenue_os.Prelude.{ℕ, String, List, [], ◌∷◌}
use vega_revenue_os.Aggregate.{Stamp}
use vega_revenue_os.Mission.Task.{MissionTaskProps}
use vega_revenue_os.Mission.State.{Mission, MissionPlan, MissionOutcomes}
use vega_revenue_os.Mission.Transitions
use vega_revenue_os.Mission.Transitions.{Moved}
use vega_revenue_os.Mission.Planning
use vega_revenue_os.Mission.Tasks

pub data Command : Type 0 where
  approve : ℕ → Command
  schedule start plan_valid resume archive unblock : Command
  pause cancel fail_mission block : String → Command
  complete : MissionOutcomes → Command
  replan : MissionPlan → List MissionTaskProps → Command
  add_task : MissionTaskProps → Command
  start_task timeout_task : ℕ → Command
  complete_task mark_task_awaiting_approval : ℕ → ℕ → Command
  fail_task cancel_task : ℕ → String → Command

unfoldable pub run : Command → Stamp → Mission → Moved
run (approve by) s m = Transitions.approve by s m
run schedule s m = Transitions.schedule s m
run start s m = Transitions.start s m
run plan_valid s m = Planning.plan_valid s m
run resume s m = Transitions.resume s m
run archive s m = Transitions.archive s m
run unblock s m = Transitions.unblock s m
run (pause why) s m = Transitions.pause why s m
run (cancel why) s m = Transitions.cancel why s m
run (fail_mission why) s m = Transitions.fail_mission why s m
run (block why) s m = Transitions.block why s m
run (complete outcomes) s m = Transitions.complete outcomes s m
run (replan plan tasks) s m = Planning.replan plan tasks s m
run (add_task p) s m = Planning.add_task p s m
run (start_task id) s m = Tasks.start_task id s m
run (timeout_task id) s m = Tasks.timeout_task id s m
run (complete_task id output) s m = Tasks.complete_task id output s m
run (mark_task_awaiting_approval id gate) s m = Tasks.mark_task_awaiting_approval id gate s m
run (fail_task id why) s m = Tasks.fail_task id why s m
run (cancel_task id why) s m = Tasks.cancel_task id why s m

-- A history of commands, the refused ones among them.
unfoldable pub run_all : List (Command × Stamp) → Mission → Mission
run_all [] m = m
run_all ((c, s) ∷ cs) m = run_all cs (run c s m).0
