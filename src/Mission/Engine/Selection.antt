-- ===== src/Mission/Engine/Selection.antt =====
-- The task that runs next
-- (packages/mission-orchestrator/src/workflow/mission-execution-engine.ts).
use mathlib.Core.List.{Memᴰ}
use vega_revenue_os.Prelude.{
  ◌≡◌, refl, sym, true, false, not, ◌&&◌, inl, inr, some, List, [], ◌∷◌, arith, ◌==◌, has,
  Bool-cases,
}
use vega_revenue_os.Aggregate.{Stamp, ok}
use vega_revenue_os.Mission.Status.{can_transition_task}
use vega_revenue_os.Mission.Task.{MissionTask, transition_status}
use vega_revenue_os.Mission.Graph.Checks.{ids_of}
use vega_revenue_os.Mission.Graph.Tables.{IsUnique, id-Mem}
use vega_revenue_os.Mission.State.{Mission}
use vega_revenue_os.Mission.Tasks.{
  find_task, incomplete_dependencies, is_executing, start_task, move_task, after_transition,
}
use vega_revenue_os.Mission.Engine.Steps.{is_pending, next_of, select_next_task}

-- The task waits, and all that it depends on is done.
abbrev IsReady : List MissionTask → MissionTask → Type 0
IsReady all t =
    (is_pending t.status ≡ true) × (incomplete_dependencies all t.props.depends_on ≡ false)

next_of-IsReady :
    (all ts : List MissionTask) (t : MissionTask)
    → next_of all ts ≡ some t
    → Memᴰ t ts × IsReady all t
unfolding next_of
next_of-IsReady all [] t h = cc
next_of-IsReady all (u ∷ us) t h =
    elim (Bool-cases
      (is_pending u.status && not (incomplete_dependencies all u.props.depends_on))) [
        | inl hit ↦
            let e : u ≡ t = cc (rw (hit, next_of) at h) in
            rw (← e) (Memᴰ.head refl, (ground arith, ground arith))
        | inr miss ↦
            let (m, r) = next_of-IsReady all us t (rw (miss, next_of) at h) in (Memᴰ.tail m, r)
      ]

find_task-Mem :
    (ts : List MissionTask) (t : MissionTask)
    → IsUnique (ids_of ts)
    → Memᴰ t ts
    → find_task t.props.id ts ≡ some t
unfolding find_task ids_of
find_task-Mem [] t u m = elim m [ ]
find_task-Mem (v ∷ vs) t u (Memᴰ.head e) = rw (sym e, find_task) (ground arith)
find_task-Mem (v ∷ vs) t (fresh, u) (Memᴰ.tail m) =
    let later : find_task t.props.id vs ≡ some t = find_task-Mem vs t u m in
    let present : has t.props.id (ids_of vs) ≡ true = id-Mem t vs m in
    elim (Bool-cases (v.props.id == t.props.id)) [
      | inl hit ↦ let e : v.props.id ≡ t.props.id = ground arith in cc (rw e at fresh)
      | inr miss ↦ rw (miss, find_task) later
    ]

ready_starts :
    (s : Stamp) (m : Mission) (t : MissionTask)
    → find_task t.props.id m.tasks ≡ some t
    → is_executing m.status ≡ true
    → IsReady m.tasks t
    → (start_task t.props.id s m).1 ≡ ok
unfolding start_task move_task transition_status after_transition can_transition_task
ready_starts s m t found e (p, d) = ground arith

-- In a mission that executes and whose tasks have distinct ids, the task that is selected to run is
-- one of the mission's, is waiting, and can be started.
pub selected_starts :
    (s : Stamp) (m : Mission) (t : MissionTask)
    → IsUnique (ids_of m.tasks)
    → is_executing m.status ≡ true
    → select_next_task m ≡ some t
    → Memᴰ t m.tasks × (is_pending t.status ≡ true) × ((start_task t.props.id s m).1 ≡ ok)
unfolding select_next_task
selected_starts s m t u e h =
    let (mem, r) = next_of-IsReady m.tasks m.tasks t h in
    (mem, r.0, ready_starts s m t (find_task-Mem m.tasks t u mem) e r)
