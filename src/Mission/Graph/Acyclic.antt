-- ===== src/Mission/Graph/Acyclic.antt =====
-- `validateTaskGraph` (packages/domain/src/mission/mission.ts) against an independent description
-- of a plan.
use mathlib.Core.List.{Memᴰ}
use vega_revenue_os.Prelude.{
  ℕ, suc, ◌<◌, ◌≡◌, ◌≢◌, ◌↔◌, refl, true, false, none, some, List, [], has, length, arith,
  Option-cases, inl, inr,
}
use vega_revenue_os.Mission.Task.{MissionTask, stuck}
use vega_revenue_os.Mission.Graph.Checks.{ids_of, has_duplicate, check_tasks}
use vega_revenue_os.Mission.Graph.Search.{Visit, done, cyclic, spent, visit_each, visit}
use vega_revenue_os.Mission.Graph.Soundness.{visit-Good, visit_each-Keeps, visit_each_avoids}
use vega_revenue_os.Mission.Graph.Completeness.{IsRank, visit_free}
use vega_revenue_os.Mission.Graph.Fuel.{room_empty, IsClosed, visit_fuel}
use vega_revenue_os.Mission.Graph.Tables.{
  IsUnique, id-Mem, deps_of-Mem, deps_of_self, length-ids_of, has_duplicate_lem,
  has_duplicate_unique,
}
use vega_revenue_os.Mission.Graph.TaskChecks.{
  IsEquipped, check_tasks-IsEquipped, equipped-check_tasks, check_tasks-ne-stuck,
}
use vega_revenue_os.Mission.Graph.Ranks.{rank_in, rank_in-falls, Within-has}
use vega_revenue_os.Mission.Graph.{verdict, find_cycle, validate_task_graph}

-- Some rank of the ids falls along each dependency of a task.
abbrev pub IsAcyclic : List MissionTask → Type 0
IsAcyclic tasks =
    (rank : ℕ → ℕ) × ((t : MissionTask)
      → Memᴰ t tasks
      → (d : ℕ) → has d t.props.depends_on ≡ true
      → rank d < rank t.props.id)

-- A plan that may be executed.
pub record IsWellFormed (tasks : List MissionTask) (plan_version : ℕ) : Type 0 where
  pub positive : 0 < plan_version
  pub unique : IsUnique (ids_of tasks)
  pub equipped : (t : MissionTask) → Memᴰ t tasks → IsEquipped (ids_of tasks) t
  pub acyclic : IsAcyclic tasks

find_cycle-IsAcyclic :
    (tasks : List MissionTask) → IsUnique (ids_of tasks) → find_cycle tasks ≡ none → IsAcyclic tasks
unfolding find_cycle
find_cycle-IsAcyclic tasks u h =
    split (visit_each (visit tasks (suc (length tasks))) (ids_of tasks) [] []) refl h
  where
    split :
        (r : Visit)
        → visit_each (visit tasks (suc (length tasks))) (ids_of tasks) [] [] ≡ r
        → verdict r ≡ none
        → IsAcyclic tasks
    split cyclic e h' = cc
    split spent e h' = cc
    split (done v s) e h' =
        let (k, w) =
          visit_each-Keeps tasks (visit tasks (suc (length tasks)))
            (visit-Good tasks (suc (length tasks))) (ids_of tasks) [] [] v s tt e in
        (
          rank_in v,
          λ t m d dep.
              (rank_in-falls tasks v t.props.id d k.order
                (Within-has (ids_of tasks) v t.props.id w (id-Mem t tasks m))
                (rw (deps_of_self tasks t u m) dep)).1,
        )

IsClosed-of_equipped :
    (tasks : List MissionTask)
    → ((t : MissionTask) → Memᴰ t tasks → IsEquipped (ids_of tasks) t)
    → IsClosed tasks (ids_of tasks)
IsClosed-of_equipped tasks h id d dep =
    let (t, m, _, dep') = deps_of-Mem tasks id d dep in (h t m).present d dep'

-- The fuel is enough: one unit more than there are tasks.
find_cycle-fuel :
    (tasks : List MissionTask)
    → ((t : MissionTask) → Memᴰ t tasks → IsEquipped (ids_of tasks) t)
    → visit_each (visit tasks (suc (length tasks))) (ids_of tasks) [] [] ≢ spent
find_cycle-fuel tasks h =
    visit_each_avoids tasks spent (visit tasks (suc (length tasks))) (λ v s e. cc)
      (visit-Good tasks (suc (length tasks))) (ids_of tasks) [] []
      (λ d v m o.
        visit_fuel tasks (ids_of tasks) (IsClosed-of_equipped tasks h) (suc (length tasks)) d v [] o
          m (omega (arith, room_empty (ids_of tasks), length-ids_of tasks)))
      tt

find_cycle-free :
    (tasks : List MissionTask)
    → IsAcyclic tasks
    → visit_each (visit tasks (suc (length tasks))) (ids_of tasks) [] [] ≢ cyclic
find_cycle-free tasks (rank, falls) =
    visit_each_avoids tasks cyclic (visit tasks (suc (length tasks))) (λ v s e. cc)
      (visit-Good tasks (suc (length tasks))) (ids_of tasks) [] []
      (λ d v m o. visit_free tasks rank ranked (suc (length tasks)) d v [] o tt) tt
  where
    ranked : IsRank tasks rank
    ranked id d dep =
        let (t, m, i, dep') = deps_of-Mem tasks id d dep in rw (← i) (falls t m d dep')

verdict-none : (r : Visit) → r ≢ cyclic → r ≢ spent → verdict r ≡ none
verdict-none (done v s) c f = refl
verdict-none cyclic c f = absurd (c refl)
verdict-none spent c f = absurd (f refl)

find_cycle-none :
    (tasks : List MissionTask)
    → ((t : MissionTask) → Memᴰ t tasks → IsEquipped (ids_of tasks) t)
    → IsAcyclic tasks
    → find_cycle tasks ≡ none
unfolding find_cycle
find_cycle-none tasks h a = verdict-none _ (find_cycle-free tasks a) (find_cycle-fuel tasks h)

verdict-ne-stuck : (r : Visit) → r ≢ spent → verdict r ≢ some stuck
verdict-ne-stuck (done v s) f = λ e. cc
verdict-ne-stuck cyclic f = λ e. cc
verdict-ne-stuck spent f = absurd (f refl)

find_cycle-ne-stuck :
    (tasks : List MissionTask)
    → ((t : MissionTask) → Memᴰ t tasks → IsEquipped (ids_of tasks) t)
    → find_cycle tasks ≢ some stuck
unfolding find_cycle
find_cycle-ne-stuck tasks h = verdict-ne-stuck _ (find_cycle-fuel tasks h)

-- What an accepted plan has passed.
validate_parts :
    (tasks : List MissionTask) (plan_version : ℕ)
    → validate_task_graph tasks plan_version ≡ none
    → (0 < plan_version)
      × (has_duplicate (ids_of tasks) [] ≡ false)
      × (check_tasks (ids_of tasks) tasks ≡ none)
      × (find_cycle tasks ≡ none)
unfolding validate_task_graph
validate_parts tasks v h = ground arith

-- `validateTaskGraph` accepts a plan exactly if the version is positive, the ids are distinct, each
-- task has an agent, no blank capability and dependencies in the plan only, and some rank falls
-- along every dependency, so that there is no cycle.
pub validate_iff :
    (tasks : List MissionTask) (plan_version : ℕ)
    → (validate_task_graph tasks plan_version ≡ none) ↔ IsWellFormed tasks plan_version
unfolding validate_task_graph
validate_iff tasks v = (accepted, accepts)
  where
    accepted : validate_task_graph tasks v ≡ none → IsWellFormed tasks v
    accepted h =
        let (p, dup, checks, search) = validate_parts tasks v h in
        let (u, _) = has_duplicate_lem (ids_of tasks) [] dup in
        record {
          positive = p;
          unique = u;
          equipped = λ t m. check_tasks-IsEquipped (ids_of tasks) tasks t checks m;
          acyclic = find_cycle-IsAcyclic tasks u search;
        }

    accepts : IsWellFormed tasks v → validate_task_graph tasks v ≡ none
    accepts w =
        let dup : has_duplicate (ids_of tasks) [] ≡ false =
          has_duplicate_unique (ids_of tasks) [] w.unique (λ x m. refl) in
        let checks : check_tasks (ids_of tasks) tasks ≡ none =
          equipped-check_tasks (ids_of tasks) tasks w.equipped in
        let search : find_cycle tasks ≡ none = find_cycle-none tasks w.equipped w.acyclic in
        ground (arith, w.positive)

-- The search of the model never runs out of fuel, on any plan.
pub validate-ne-stuck :
    (tasks : List MissionTask) (plan_version : ℕ)
    → validate_task_graph tasks plan_version ≢ some stuck
unfolding validate_task_graph
validate-ne-stuck tasks v = elim (Option-cases (check_tasks (ids_of tasks) tasks)) [
  | inr (x, e) ↦ ground (arith, check_tasks-ne-stuck (ids_of tasks) tasks)
  | inl e ↦
      let equipped =
        λ (t : MissionTask) (m : Memᴰ t tasks). check_tasks-IsEquipped (ids_of tasks) tasks t e m in
      ground (arith, find_cycle-ne-stuck tasks equipped)
]
