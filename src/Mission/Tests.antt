-- ===== src/Mission/Tests.antt =====
-- Concrete missions (packages/domain/src/mission/mission.ts), and what the theorems state of them.
use mathlib.Core.List.{Memᴰ}
use vega_revenue_os.Prelude.{
  ℕ, ◌≤◌, ◌≡◌, ◌≢◌, ◌↔◌, ◌⊎◌, refl, true, none, some, List, [], ◌∷◌, has, is_blank,
}
use vega_revenue_os.Aggregate.{Stamp, AggregateRoot, ok}
use vega_revenue_os.Aggregate.Log.{IsLogged}
use vega_revenue_os.Mission.Status.{
  MissionStatus, TaskStatus, planning, executing, can_transition_mission, can_transition_task,
}
use vega_revenue_os.Mission.Task.{MissionTaskProps, MissionTask, new_task, stuck, cyclic_dependency}
use vega_revenue_os.Mission.State.{Mission, MissionEvent, WorkspaceBinding, is_terminal}
use vega_revenue_os.Mission.Graph.{validate_task_graph, find_cycle}
use vega_revenue_os.Mission.Graph.Search.{visit_each, visit, deps_of}
use vega_revenue_os.Mission.Graph.Checks.{ids_of, has_duplicate, check_tasks, check_task}
use vega_revenue_os.Mission.Graph.Tables.{IsUnique}
use vega_revenue_os.Mission.Graph.Acyclic.{IsWellFormed, validate_iff, validate-ne-stuck}
use vega_revenue_os.Mission.Transitions.{resume}
use vega_revenue_os.Mission.Planning.{plan_valid}
use vega_revenue_os.Mission.Tasks
use vega_revenue_os.Mission.Tasks.{
  find_task, start_task, move_task, is_executing, has_completed, incomplete_dependencies, emit_all,
  after_transition,
}
use vega_revenue_os.Mission.Command
use vega_revenue_os.Mission.Command.{run, run_all}
use vega_revenue_os.Mission.Execution.{plan_valid_iff, start_task_ready, resume_unvalidated, IsDone}
use vega_revenue_os.Mission.Lifecycle.{Route, run_all_lem, run_all_terminal}
use vega_revenue_os.Mission.TaskSet.{run_all-IsUnique, ended_task_stays}

abbrev stamp : Stamp
stamp = record { event_id = 900; correlation_id = 901; now = 1000 }

abbrev task : ℕ → List ℕ → MissionTaskProps
task id deps = record {
  id = id;
  mission_id = 1;
  plan_id = 10;
  agent_id = "research";
  agent_version = 1;
  task_type = 2;
  required_capability = none;
  input = 0;
  depends_on = deps;
  deadline = none;
  approval_gate_id = none;
  idempotency_key = id;
  correlation_id = 901;
  actor = 5;
}

abbrev root : AggregateRoot MissionEvent
root = record { tenant_id = 7; id = 1; version = 4; loaded_version = some 4; domain_events = [] }

abbrev mission : MissionStatus → List MissionTask → Mission
mission status tasks = record {
  root = root;
  workspace_id = some "w";
  workspace_binding_state = WorkspaceBinding.workspace_bound;
  name = "Pipeline";
  objective = "Book meetings";
  icp_id = "icp";
  deadline = none;
  plan = record { plan_id = 10; version = 1 };
  created_at = 0;
  updated_at = 0;
  status = status;
  tasks = tasks;
  outcomes = record { meetings_booked = none; opportunities_created = none };
}

-- The second task waits for the first.
abbrev two_tasks : List MissionTask
two_tasks = new_task (task 1 []) ∷ new_task (task 2 (1 ∷ [])) ∷ []

-- Each waits for the other.
abbrev a_cycle : List MissionTask
a_cycle = new_task (task 1 (2 ∷ [])) ∷ new_task (task 2 (1 ∷ [])) ∷ []

abbrev done_task : MissionTask
done_task = record (new_task (task 1 [])) { status = TaskStatus.completed; completed_at = some 500 }

abbrev half_done : List MissionTask
half_done = done_task ∷ new_task (task 2 (1 ∷ [])) ∷ []

cycle_refused : validate_task_graph a_cycle 1 ≡ some cyclic_dependency
unfolding validate_task_graph has_duplicate ids_of check_tasks check_task is_blank find_cycle
    visit_each visit deps_of
cycle_refused = refl

two_tasks_accepted : validate_task_graph two_tasks 1 ≡ none
unfolding validate_task_graph has_duplicate ids_of check_tasks check_task is_blank find_cycle
    visit_each visit deps_of
two_tasks_accepted = refl

validate_iff_example : (validate_task_graph two_tasks 1 ≡ none) ↔ IsWellFormed two_tasks 1
validate_iff_example = validate_iff two_tasks 1

validate-ne-stuck_example : validate_task_graph a_cycle 1 ≢ some stuck
validate-ne-stuck_example = validate-ne-stuck a_cycle 1

plan_valid_iff_example :
    ((plan_valid stamp (mission planning two_tasks)).1 ≡ ok)
    ↔ ((can_transition_mission planning executing ≡ true) × IsWellFormed two_tasks 1)
plan_valid_iff_example = plan_valid_iff stamp (mission planning two_tasks)

started : (start_task 2 stamp (mission executing half_done)).1 ≡ ok
unfolding start_task incomplete_dependencies has_completed move_task
started = refl

start_task_ready_example :
    (t : MissionTask) × (find_task 2 half_done ≡ some t)
    × (is_executing executing ≡ true)
    × (can_transition_task t.status TaskStatus.running ≡ true)
    × ((d : ℕ) → has d t.props.depends_on ≡ true → IsDone half_done d)
start_task_ready_example = start_task_ready 2 stamp (mission executing half_done) started

cycle-not-IsWellFormed : ¬ IsWellFormed a_cycle 1
cycle-not-IsWellFormed = λ w. cc ((validate_iff a_cycle 1).1 w, cycle_refused)

resume_unvalidated_example :
    ((plan_valid stamp (mission planning a_cycle)).1 ≢ ok)
    × ((resume stamp (mission planning a_cycle)).1 ≡ ok)
    × ((resume stamp (mission planning a_cycle)).0.status ≡ executing)
    × ((resume stamp (mission planning a_cycle)).0.tasks ≡ a_cycle)
resume_unvalidated_example =
    resume_unvalidated stamp (mission planning a_cycle) refl cycle-not-IsWellFormed

abbrev history : List (Command.Command × Stamp)
history =
    (Command.start_task 2, stamp)
    ∷ (Command.complete_task 2 77, stamp)
    ∷ (Command.pause "hold", stamp)
    ∷ (Command.resume, stamp)
    ∷ []

run_all_lem_example :
    Route executing (run_all history (mission executing half_done)).status
    × (1 ≤ (run_all history (mission executing half_done)).plan.version)
    × IsLogged (run_all history (mission executing half_done)).root
run_all_lem_example = run_all_lem history (mission executing half_done) refl

run_all_terminal_example :
    ((run_all history (mission MissionStatus.cancelled half_done)).status ≡ MissionStatus.cancelled)
    ⊎ ((run_all history (mission MissionStatus.cancelled half_done)).status
        ≡ MissionStatus.archived)
unfolding is_terminal
run_all_terminal_example = run_all_terminal history (mission MissionStatus.cancelled half_done) refl

half_done-IsUnique : IsUnique (ids_of half_done)
unfolding ids_of
half_done-IsUnique = (refl, (refl, tt))

run_all-IsUnique_example : IsUnique (ids_of (run_all history (mission executing half_done)).tasks)
run_all-IsUnique_example = run_all-IsUnique history (mission executing half_done) half_done-IsUnique

same_plan :
    (run (Command.fail_task 1 "late") stamp (mission executing half_done)).0.plan.version ≡ 1
unfolding run Tasks.fail_task move_task
same_plan = refl

ended_task_stays_example :
    Memᴰ done_task (run (Command.fail_task 1 "late") stamp (mission executing half_done)).0.tasks
ended_task_stays_example =
    ended_task_stays (Command.fail_task 1 "late") stamp (mission executing half_done) done_task
      (Memᴰ.head refl) refl same_plan
