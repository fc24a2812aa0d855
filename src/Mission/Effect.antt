-- ===== src/Mission/Effect.antt =====
-- What a command may do to a mission, as a relation on its states
-- (packages/domain/src/mission/mission.ts).
use vega_revenue_os.Prelude.{
  ℕ, ◌<◌, ◌≡◌, refl, true, false, Bool-cases, Option-cases, inl, inr, none, some, List, [], ◌∷◌,
  ◌++◌, map, any, arith, not, ◌==◌, leb, if-cases,
}
use vega_revenue_os.Aggregate.{Stamp, ok, fail, emit}
use vega_revenue_os.Mission.Status.{
  MissionStatus, TaskStatus, can_transition_mission, can_transition_task,
}
use vega_revenue_os.Mission.Task.{
  MissionTask, MissionTaskProps, MissionError, new_task, moved_task, invalid_task_transition,
  transition_status,
}
use vega_revenue_os.Mission.Graph.Checks.{blank_capability}
use vega_revenue_os.Mission.Graph.{validate_task_graph}
use vega_revenue_os.Mission.State.{
  Mission, MissionEvent, MissionPlan, MissionOutcomes, is_terminal, transition_to, transition_with,
}
use vega_revenue_os.Mission.Transitions
use vega_revenue_os.Mission.Transitions.{Moved}
use vega_revenue_os.Mission.Tasks
use vega_revenue_os.Mission.Planning
use vega_revenue_os.Mission.Planning.{carry_over}
use vega_revenue_os.Mission.Tasks.{find_task, set_task, emit_all, move_task, change_task}
use vega_revenue_os.Mission.Command.{
  Command, run, approve, schedule, start, plan_valid, resume, archive, unblock, pause, cancel,
  fail_mission, block, complete, replan, add_task, start_task, timeout_task, complete_task,
  mark_task_awaiting_approval, fail_task, cancel_task,
}

pub data Effect (m : Mission) : Moved → Type 0 where
  refused : (e : MissionError) → Effect m (m, fail e)
  moved :
      (target : MissionStatus) (s : Stamp) (e : MissionEvent) (o : MissionOutcomes)
      → can_transition_mission m.status target ≡ true
      → Effect m (
        record m { status = target; updated_at = s.now; root = emit s e m.root; outcomes = o },
        ok,
      )
  replanned :
      (plan : MissionPlan) (new_tasks : List MissionTaskProps) (s : Stamp) (e : MissionEvent)
      → is_terminal m.status ≡ false
      → m.plan.version < plan.version
      → validate_task_graph (map (carry_over m.tasks) new_tasks) plan.version ≡ none
      → Effect m (
        record m {
          plan = plan;
          tasks = map (carry_over m.tasks) new_tasks;
          updated_at = s.now;
          root = emit s e m.root;
        },
        ok,
      )
  added :
      (p : MissionTaskProps) (s : Stamp) (e : MissionEvent)
      → is_terminal m.status ≡ false
      → any (λ t. t.props.id == p.id) m.tasks ≡ false
      → any (λ t. t.props.idempotency_key == p.idempotency_key) m.tasks ≡ false
      → Effect m (record m { tasks = m.tasks ++ (new_task p ∷ []); root = emit s e m.root }, ok)
  task_moved :
      (id : ℕ) (t u : MissionTask) (s : Stamp) (e : MissionEvent) (es : List MissionEvent)
      → find_task id m.tasks ≡ some t
      → can_transition_task t.status u.status ≡ true
      → u.props ≡ t.props
      → Effect m (
        record m { tasks = set_task t.props.id u m.tasks; root = emit_all s (e ∷ es) m.root },
        ok,
      )

transition_with-Effect :
    (target : MissionStatus) (s : Stamp) (o : MissionOutcomes) (e : MissionEvent) (m : Mission)
    → Effect m (transition_with target s o e m)
unfolding transition_with
transition_with-Effect target s o e m =
    if-cases (Effect m) (can_transition_mission m.status target) (moved target s e o) λ _. refused _

transition_to-Effect :
    (target : MissionStatus) (s : Stamp) (e : MissionEvent) (m : Mission)
    → Effect m (transition_to target s e m)
unfolding transition_to
transition_to-Effect target s e m = transition_with-Effect target s m.outcomes e m

plan_valid-Effect : (s : Stamp) (m : Mission) → Effect m (Planning.plan_valid s m)
unfolding Planning.plan_valid
plan_valid-Effect s m = elim (Option-cases (validate_task_graph m.tasks m.plan.version)) [
  | inl h ↦ rw (h, Planning.plan_valid) (transition_to-Effect MissionStatus.executing s _ m)
  | inr (e, h) ↦ rw (h, Planning.plan_valid) (refused e)
]

replan-Effect :
    (plan : MissionPlan) (ps : List MissionTaskProps) (s : Stamp) (m : Mission)
    → Effect m (Planning.replan plan ps s m)
unfolding Planning.replan
replan-Effect plan ps s m =
    if-cases (Effect m) (is_terminal m.status) (λ _. refused _)
      λ live.
        if-cases (Effect m) (plan.version == 0) (λ _. refused _)
          λ _.
            if-cases (Effect m) (leb plan.version m.plan.version) (λ _. refused _)
              λ above.
                elim (Option-cases
                  (validate_task_graph (map (carry_over m.tasks) ps) plan.version)) [
                    | inl h ↦ rw h (replanned plan ps s _ live (ground arith) h)
                    | inr (e, h) ↦ rw h (refused e)
                  ]

add_task-Effect :
    (p : MissionTaskProps) (s : Stamp) (m : Mission) → Effect m (Planning.add_task p s m)
unfolding Planning.add_task
add_task-Effect p s m =
    if-cases (Effect m) (is_terminal m.status) (λ _. refused _)
      λ live.
        if-cases (Effect m) _ (λ _. refused _)
          λ new_id.
            if-cases (Effect m) _ (λ _. refused _)
              λ new_key.
                if-cases (Effect m) (blank_capability p.required_capability) (λ _. refused _)
                  λ _. added p s _ live new_id new_key

-- What a command stores in a task after its transition keeps the status and the properties.
abbrev KeepsTask : (MissionTask → MissionTask) → Type 0
KeepsTask store = (u : MissionTask) → ((store u).status ≡ u.status) × ((store u).props ≡ u.props)

move_task-Effect :
    (id : ℕ) (to : TaskStatus) (store : MissionTask → MissionTask) (e : MissionEvent)
    (es : List MissionEvent) (s : Stamp) (t : MissionTask) (m : Mission)
    → KeepsTask store
    → find_task id m.tasks ≡ some t
    → Effect m (move_task to store (e ∷ es) s t m)
unfolding move_task
move_task-Effect id to store e es s t m keeps found =
    elim (Bool-cases (can_transition_task t.status to)) [
      | inl h ↦
          let (same_status, same_props) = keeps (moved_task to s.now t) in
          let q : transition_status to s.now t ≡ (moved_task to s.now t, ok) =
            unfold transition_status in rw h in
          rw q (
            task_moved id t (store (moved_task to s.now t)) s e es found (rw same_status h)
              same_props)
      | inr h ↦
          let q : transition_status to s.now t ≡ (t, fail (invalid_task_transition t.status to)) =
            unfold transition_status in rw h in
          rw q (refused _)
    ]

change_task-Effect :
    (id : ℕ) (to : TaskStatus) (store : MissionTask → MissionTask) (e : MissionEvent)
    (es : List MissionEvent) (s : Stamp) (m : Mission)
    → KeepsTask store
    → Effect m (change_task id to store (e ∷ es) s m)
unfolding change_task
change_task-Effect id to store e es s m keeps = elim (Option-cases (find_task id m.tasks)) [
  | inl h ↦ rw (h, change_task) (refused _)
  | inr (t, h) ↦ rw (h, change_task) (move_task-Effect id to store e es s t m keeps h)
]

start_task-Effect : (id : ℕ) (s : Stamp) (m : Mission) → Effect m (Tasks.start_task id s m)
unfolding Tasks.start_task
start_task-Effect id s m = elim (Option-cases (find_task id m.tasks)) [
  | inl h ↦ rw (h, Tasks.start_task) (refused _)
  | inr (t, h) ↦
      rw (h, Tasks.start_task)
        (if-cases (Effect m) (not (Tasks.is_executing m.status)) (λ _. refused _)
          λ _.
            if-cases (Effect m) (Tasks.incomplete_dependencies m.tasks t.props.depends_on)
              (λ _. refused _)
              λ _. move_task-Effect id TaskStatus.running (λ u. u) _ _ s t m (λ u. (refl, refl)) h)
]

-- Each command, at any arguments, has an effect of the relation.
pub run-Effect : (c : Command) (s : Stamp) (m : Mission) → Effect m (run c s m)
unfolding run Transitions.approve Transitions.schedule Transitions.start Transitions.resume
    Transitions.archive Transitions.unblock Transitions.pause Transitions.cancel
    Transitions.fail_mission Transitions.block Transitions.complete Tasks.timeout_task
    Tasks.complete_task Tasks.mark_task_awaiting_approval Tasks.fail_task Tasks.cancel_task
run-Effect (approve by) s m = transition_to-Effect _ s _ m
run-Effect schedule s m = transition_to-Effect _ s _ m
run-Effect start s m = transition_to-Effect _ s _ m
run-Effect plan_valid s m = plan_valid-Effect s m
run-Effect resume s m = transition_to-Effect _ s _ m
run-Effect archive s m = transition_to-Effect _ s _ m
run-Effect unblock s m = transition_to-Effect _ s _ m
run-Effect (pause why) s m = transition_to-Effect _ s _ m
run-Effect (cancel why) s m = transition_to-Effect _ s _ m
run-Effect (fail_mission why) s m = transition_to-Effect _ s _ m
run-Effect (block why) s m = transition_to-Effect _ s _ m
run-Effect (complete o) s m = transition_with-Effect _ s o _ m
run-Effect (replan plan ps) s m = replan-Effect plan ps s m
run-Effect (add_task p) s m = add_task-Effect p s m
run-Effect (start_task id) s m = start_task-Effect id s m
run-Effect (timeout_task id) s m = change_task-Effect id _ _ _ _ s m (λ u. (refl, refl))
run-Effect (complete_task id output) s m = change_task-Effect id _ _ _ _ s m (λ u. (refl, refl))
run-Effect (mark_task_awaiting_approval id gate) s m =
    change_task-Effect id _ _ _ _ s m (λ u. (refl, refl))
run-Effect (fail_task id why) s m = change_task-Effect id _ _ _ _ s m (λ u. (refl, refl))
run-Effect (cancel_task id why) s m = change_task-Effect id _ _ _ _ s m (λ u. (refl, refl))
