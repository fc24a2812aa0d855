-- ===== src/Mission/Execution.antt =====
-- How a mission comes to execute, and what its tasks wait for
-- (packages/domain/src/mission/mission.ts).
use mathlib.Core.List.{Memᴰ}
use vega_revenue_os.Prelude.{
  ℕ, ◌≡◌, ◌≢◌, ◌↔◌, refl, true, false, inl, inr, none, some, List, [], ◌∷◌, arith, ◌==◌, has,
  Bool-cases, Option-cases, ◌&&◌,
}
use vega_revenue_os.Aggregate.{Stamp, ok}
use vega_revenue_os.Mission.Status.{
  planning, executing, TaskStatus, can_transition_mission, can_transition_task,
}
use vega_revenue_os.Mission.Task.{MissionTask, is_completed}
use vega_revenue_os.Mission.Graph.{validate_task_graph}
use vega_revenue_os.Mission.Graph.Acyclic.{IsWellFormed, validate_iff}
use vega_revenue_os.Mission.State.{Mission, transition_to}
use vega_revenue_os.Mission.Transitions.{resume}
use vega_revenue_os.Mission.Planning.{plan_valid}
use vega_revenue_os.Mission.Tasks.{
  find_task, has_completed, incomplete_dependencies, start_task, move_task, is_executing,
}

-- `planValid` succeeds exactly if the table lets the mission execute and its plan is well formed.
pub plan_valid_iff :
    (s : Stamp) (m : Mission)
    → ((plan_valid s m).1 ≡ ok)
      ↔ ((can_transition_mission m.status executing ≡ true) × IsWellFormed m.tasks m.plan.version)
unfolding plan_valid transition_to
plan_valid_iff s m = elim (Option-cases (validate_task_graph m.tasks m.plan.version)) [
  | inl h ↦ (
    λ done. (allowed done h, (validate_iff m.tasks m.plan.version).0 h),
    λ (can, _). rw (h, plan_valid) (rw can),
  )
  | inr (e, h) ↦ (
    λ done. cc (rw (h, plan_valid) at done),
    λ (_, w). cc ((validate_iff m.tasks m.plan.version).1 w),
  )
]
  where
    allowed :
        (plan_valid s m).1 ≡ ok
        → validate_task_graph m.tasks m.plan.version ≡ none
        → can_transition_mission m.status executing ≡ true
    allowed done h = ground arith

-- A mission in PLANNING whose plan is not well formed is refused by `planValid`, and `resume` lets it
-- execute all the same, with the same tasks.
pub resume_unvalidated :
    (s : Stamp) (m : Mission)
    → m.status ≡ planning
    → ¬ IsWellFormed m.tasks m.plan.version
    → ((plan_valid s m).1 ≢ ok)
      × ((resume s m).1 ≡ ok)
      × ((resume s m).0.status ≡ executing)
      × ((resume s m).0.tasks ≡ m.tasks)
unfolding resume can_transition_mission
resume_unvalidated s m p bad =
    (λ done. bad ((plan_valid_iff s m).0 done).1, ground arith, ground arith, ground arith)

-- Some task under the id `d` is completed.
abbrev pub IsDone : List MissionTask → ℕ → Type 0
IsDone tasks d =
    (t : MissionTask) × Memᴰ t tasks × (t.props.id ≡ d) × (is_completed t.status ≡ true)

has_completed-IsDone :
    (tasks : List MissionTask) (d : ℕ) → has_completed tasks d ≡ true → IsDone tasks d
unfolding has_completed
has_completed-IsDone [] d h = cc
has_completed-IsDone (t ∷ ts) d h = elim (Bool-cases ((t.props.id == d) && is_completed t.status)) [
  | inl hit ↦ (t, Memᴰ.head refl, ground arith, ground arith)
  | inr miss ↦ let (u, m, i, c) = has_completed-IsDone ts d (rw miss at h) in (u, Memᴰ.tail m, i, c)
]

incomplete_lem :
    (tasks : List MissionTask) (deps : List ℕ) (d : ℕ)
    → incomplete_dependencies tasks deps ≡ false
    → has d deps ≡ true
    → has_completed tasks d ≡ true
unfolding incomplete_dependencies
incomplete_lem tasks [] d h m = cc
incomplete_lem tasks (x ∷ deps) d h m = ground (arith, incomplete_lem tasks deps d)

start_task_guard :
    (id : ℕ) (s : Stamp) (m : Mission) (t : MissionTask)
    → find_task id m.tasks ≡ some t
    → (start_task id s m).1 ≡ ok
    → (is_executing m.status ≡ true)
      × (incomplete_dependencies m.tasks t.props.depends_on ≡ false)
      × (can_transition_task t.status TaskStatus.running ≡ true)
unfolding start_task move_task
start_task_guard id s m t found done = ground arith

-- A task that is started is in the mission, the mission executes, the task could move to RUNNING,
-- and each of its dependencies is the id of a completed task of the mission.
pub start_task_ready :
    (id : ℕ) (s : Stamp) (m : Mission)
    → (start_task id s m).1 ≡ ok
    → (t : MissionTask) × (find_task id m.tasks ≡ some t)
      × (is_executing m.status ≡ true)
      × (can_transition_task t.status TaskStatus.running ≡ true)
      × ((d : ℕ) → has d t.props.depends_on ≡ true → IsDone m.tasks d)
unfolding start_task
start_task_ready id s m done = elim (Option-cases (find_task id m.tasks)) [
  | inl h ↦ cc (rw (h, start_task) at done)
  | inr (t, h) ↦
      let (a, b, c) = start_task_guard id s m t h done in
      (
        t,
        h,
        a,
        c,
        λ d dep. has_completed-IsDone m.tasks d (incomplete_lem m.tasks t.props.depends_on d b dep),
      )
]
