-- ===== src/Mission/TaskSet.antt =====
-- The tasks of a mission as a set, over commands and their histories
-- (packages/domain/src/mission/mission.ts).
use mathlib.Core.List.{Memᴰ}
use mathlib.Core.List.Memᴰ as MemD
use vega_revenue_os.Prelude.{
  ℕ, ◌≡◌, ◌≢◌, ◌∙◌, Bool, refl, sym, ap, true, false, inl, inr, some, List, [], ◌∷◌, ◌++◌, map, any,
  arith, ◌==◌, has, Bool-cases, ◌||◌,
}
use vega_revenue_os.Aggregate.{Stamp}
use vega_revenue_os.Mission.Status.{TaskStatus, can_transition_task}
use vega_revenue_os.Mission.Task.{MissionTask, MissionTaskProps, new_task, has_ended}
use vega_revenue_os.Mission.Graph.Checks.{ids_of}
use vega_revenue_os.Mission.Graph.Tables.{IsUnique}
use vega_revenue_os.Mission.Graph.Acyclic.{validate_iff}
use vega_revenue_os.Mission.State.{Mission}
use vega_revenue_os.Mission.Transitions.{Moved}
use vega_revenue_os.Mission.Tasks.{find_task, set_task}
use vega_revenue_os.Mission.Command.{Command, run, run_all}
use vega_revenue_os.Mission.Effect.{
  Effect, refused, moved, replanned, added, task_moved, run-Effect,
}

-- What of the tasks never changes.
abbrev pub props_of : List MissionTask → List MissionTaskProps
props_of tasks = map (λ t. t.props) tasks

find_task-id :
    (id : ℕ) (tasks : List MissionTask) (t : MissionTask)
    → find_task id tasks ≡ some t
    → t.props.id ≡ id
unfolding find_task
find_task-id id [] t h = cc
find_task-id id (u ∷ us) t h = elim (Bool-cases (u.props.id == id)) [
  | inl hit ↦ let e : u ≡ t = cc (rw (hit, find_task) at h) in rw (← e) (ground arith)
  | inr miss ↦ find_task-id id us t (rw (miss, find_task) at h)
]

-- The search for the id of what it has found finds it again.
refind :
    (id : ℕ) (tasks : List MissionTask) (t : MissionTask)
    → find_task id tasks ≡ some t
    → find_task t.props.id tasks ≡ some t
refind id tasks t h = ap (λ (i : ℕ). find_task i tasks) (find_task-id id tasks t h) ∙ h

set_task-props :
    (id : ℕ) (tasks : List MissionTask) (t u : MissionTask)
    → find_task id tasks ≡ some t
    → u.props ≡ t.props
    → props_of (set_task id u tasks) ≡ props_of tasks
unfolding find_task set_task
set_task-props id [] t u h e = cc
set_task-props id (v ∷ vs) t u h e = elim (Bool-cases (v.props.id == id)) [
  | inl hit ↦
      let same : v ≡ t = cc (rw (hit, find_task) at h) in
      rw (hit, set_task) (ap (λ (p : MissionTaskProps). p ∷ props_of vs) (rw same e))
  | inr miss ↦
      rw (miss, set_task)
        (ap (λ (ps : List MissionTaskProps). v.props ∷ ps)
          (set_task-props id vs t u (rw (miss, find_task) at h) e))
]

-- A task that differs from the replaced one is still there.
set_task-Mem :
    (id : ℕ) (tasks : List MissionTask) (t u w : MissionTask)
    → find_task id tasks ≡ some t
    → w ≢ t
    → Memᴰ w tasks
    → Memᴰ w (set_task id u tasks)
unfolding find_task set_task
set_task-Mem id [] t u w h ne m = elim m [ ]
set_task-Mem id (v ∷ vs) t u w h ne (Memᴰ.head e) = elim (Bool-cases (v.props.id == id)) [
  | inl hit ↦ let same : v ≡ t = cc (rw (hit, find_task) at h) in absurd (ne (e ∙ same))
  | inr miss ↦ rw (miss, set_task) (Memᴰ.head e)
]
set_task-Mem id (v ∷ vs) t u w h ne (Memᴰ.tail m) = elim (Bool-cases (v.props.id == id)) [
  | inl hit ↦ rw (hit, set_task) (Memᴰ.tail m)
  | inr miss ↦
      rw (miss, set_task) (Memᴰ.tail (set_task-Mem id vs t u w (rw (miss, find_task) at h) ne m))
]

-- The ids of the tasks follow from what never changes.
ids_of-props : (tasks : List MissionTask) → ids_of tasks ≡ map (λ p. p.id) (props_of tasks)
unfolding ids_of
ids_of-props [] = refl
ids_of-props (t ∷ ts) = ap (λ (ids : List ℕ). t.props.id ∷ ids) (ids_of-props ts)

ids_of-append :
    (tasks : List MissionTask) (p : MissionTaskProps)
    → ids_of (tasks ++ (new_task p ∷ [])) ≡ ids_of tasks ++ (p.id ∷ [])
unfolding ids_of
ids_of-append [] p = refl
ids_of-append (t ∷ ts) p = ap (λ (ids : List ℕ). t.props.id ∷ ids) (ids_of-append ts p)

any-has :
    (id : ℕ) (tasks : List MissionTask) → any (λ t. t.props.id == id) tasks ≡ has id (ids_of tasks)
unfolding ids_of
any-has id [] = refl
any-has id (t ∷ ts) = ap (λ (b : Bool). (t.props.id == id) || b) (any-has id ts)

has-append : (x : ℕ) (xs : List ℕ) (y : ℕ) → has x (xs ++ (y ∷ [])) ≡ (has x xs || y == x)
has-append x [] y = ground arith
has-append x (z ∷ xs) y = ground (arith, has-append x xs y)

IsUnique-append : (xs : List ℕ) (y : ℕ) → IsUnique xs → has y xs ≡ false → IsUnique (xs ++ (y ∷ []))
IsUnique-append [] y u h = (refl, tt)
IsUnique-append (x ∷ xs) y u h =
    (ground (arith, has-append x xs y), IsUnique-append xs y u.1 (ground arith))

Effect-IsUnique :
    {m : Mission} {r : Moved} → Effect m r → IsUnique (ids_of m.tasks) → IsUnique (ids_of r.0.tasks)
Effect-IsUnique (refused e) h = h
Effect-IsUnique (moved target s e o _) h = h
Effect-IsUnique (replanned plan ps s e _ _ valid) h = ((validate_iff _ plan.version).0 valid).unique
Effect-IsUnique {m} (added p s e _ new_id _) h =
    rw (ids_of-append m.tasks p)
      (IsUnique-append (ids_of m.tasks) p.id h (sym (any-has p.id m.tasks) ∙ new_id))
Effect-IsUnique {m} (task_moved id t u s e es found _ same) h =
    let e : ids_of (set_task t.props.id u m.tasks) ≡ ids_of m.tasks =
      ids_of-props _
      ∙ ap (map (λ p. p.id))
          (set_task-props t.props.id m.tasks t u (refind id m.tasks t found) same)
      ∙ sym (ids_of-props m.tasks) in
    rw e h

-- Where the tasks of a mission have distinct ids, they have so after any history of commands.
pub run_all-IsUnique :
    (cs : List (Command × Stamp)) (m : Mission)
    → IsUnique (ids_of m.tasks)
    → IsUnique (ids_of (run_all cs m).tasks)
unfolding run_all
run_all-IsUnique [] m h = h
run_all-IsUnique ((c, s) ∷ cs) m h =
    run_all-IsUnique cs (run c s m).0 (Effect-IsUnique (run-Effect c s m) h)

ended_ne_movable :
    (w t : MissionTask) (to : TaskStatus)
    → has_ended w.status ≡ true
    → can_transition_task t.status to ≡ true
    → w ≢ t
unfolding can_transition_task
ended_ne_movable w t to h k e =
    let same : w.status ≡ t.status = ap (λ (x : MissionTask). x.status) e in ground arith

Effect-ended :
    {m : Mission} {r : Moved} (w : MissionTask)
    → Effect m r
    → Memᴰ w m.tasks
    → has_ended w.status ≡ true
    → r.0.plan.version ≡ m.plan.version
    → Memᴰ w r.0.tasks
Effect-ended w (refused e) mem h same = mem
Effect-ended w (moved target s e o _) mem h same = mem
Effect-ended w (replanned plan ps s e _ above _) mem h same = absurd (omega arith)
Effect-ended w (added p s e _ _ _) mem h same = MemD.append_left _ mem
Effect-ended {m} w (task_moved id t u s e es found can _) mem h same =
    set_task-Mem t.props.id m.tasks t u w (refind id m.tasks t found)
      (ended_ne_movable w t u.status h can) mem

-- A task that has ended, in whichever way, stays in the mission as it is, its output and its times
-- included, under every command that does not adopt a new plan.
pub ended_task_stays :
    (c : Command) (s : Stamp) (m : Mission) (w : MissionTask)
    → Memᴰ w m.tasks
    → has_ended w.status ≡ true
    → (run c s m).0.plan.version ≡ m.plan.version
    → Memᴰ w (run c s m).0.tasks
ended_task_stays c s m w mem h same = Effect-ended w (run-Effect c s m) mem h same
