-- ===== src/Mission/Graph/Tables.antt =====
-- The map of the tasks under their ids, in `validateTaskGraph`
-- (packages/domain/src/mission/mission.ts), for distinct ids.
use mathlib.Core.List.{Memᴰ}
use vega_revenue_os.Prelude.{
  ℕ, suc, length, ◌≡◌, refl, inl, inr, true, false, some, List, [], ◌∷◌, has, arith, Option-cases,
  Bool-cases, ◌==◌, ap, sym,
}
use vega_revenue_os.Mission.Task.{MissionTask}
use vega_revenue_os.Mission.Graph.Search.{task_by_id, deps_of}
use vega_revenue_os.Mission.Graph.Checks.{ids_of, has_duplicate}

-- No id stands twice.
abbrev pub IsUnique : List ℕ → Type 0
IsUnique [] = Unit
IsUnique (x ∷ xs) = (has x xs ≡ false) × IsUnique xs

pub id-Mem :
    (t : MissionTask) (tasks : List MissionTask)
    → Memᴰ t tasks
    → has t.props.id (ids_of tasks) ≡ true
unfolding ids_of
id-Mem t [] m = elim m [ ]
id-Mem t (u ∷ us) (Memᴰ.head e) = let f = ap (λ (x : MissionTask). x.props.id) e in ground arith
id-Mem t (u ∷ us) (Memᴰ.tail m) = ground (arith, id-Mem t us m)

-- What the map finds under an id is a task of the plan with that id.
pub task_by_id-Mem :
    (tasks : List MissionTask) (id : ℕ) (t : MissionTask)
    → task_by_id tasks id ≡ some t
    → Memᴰ t tasks × (t.props.id ≡ id)
unfolding task_by_id
task_by_id-Mem [] id t h = cc
task_by_id-Mem (u ∷ us) id t h = elim (Option-cases (task_by_id us id)) [
  | inr (v, e) ↦
      let same : v ≡ t = cc (rw (e, task_by_id) at h) in
      let (m, i) = task_by_id-Mem us id v e in (Memᴰ.tail (rw (← same) m), rw (← same) i)
  | inl e ↦ elim (Bool-cases (u.props.id == id)) [
    | inl hit ↦
        let same : u ≡ t = cc (rw (e, task_by_id, hit) at h) in
        (Memᴰ.head (sym same), rw (← same) (ground arith))
    | inr miss ↦ cc (rw (e, task_by_id, miss) at h)
  ]
]

-- With distinct ids the map finds each task of the plan.
pub task_by_id_self :
    (tasks : List MissionTask) (t : MissionTask)
    → IsUnique (ids_of tasks)
    → Memᴰ t tasks
    → task_by_id tasks t.props.id ≡ some t
unfolding task_by_id ids_of
task_by_id_self [] t unique m = elim m [ ]
task_by_id_self (u ∷ us) t unique (Memᴰ.tail m) =
    rw (task_by_id_self us t unique.1 m, task_by_id) refl
task_by_id_self (u ∷ us) t unique (Memᴰ.head e) = elim (Option-cases (task_by_id us u.props.id)) [
  | inl absent ↦ rw (e, absent, task_by_id) (ground arith)
  | inr (v, found) ↦
      let (m, i) = task_by_id-Mem us u.props.id v found in cc (unique.0, rw i at (id-Mem v us m))
]

-- What a visit follows are the dependencies of a task of the plan.
pub deps_of-Mem :
    (tasks : List MissionTask) (id d : ℕ)
    → has d (deps_of tasks id) ≡ true
    → (t : MissionTask) × Memᴰ t tasks × (t.props.id ≡ id) × (has d t.props.depends_on ≡ true)
unfolding deps_of
deps_of-Mem tasks id d h = elim (Option-cases (task_by_id tasks id)) [
  | inl e ↦ cc (rw (e, deps_of) at h)
  | inr (t, e) ↦ let (m, i) = task_by_id-Mem tasks id t e in (t, m, i, rw (e, deps_of) at h)
]

pub deps_of_self :
    (tasks : List MissionTask) (t : MissionTask)
    → IsUnique (ids_of tasks)
    → Memᴰ t tasks
    → deps_of tasks t.props.id ≡ t.props.depends_on
unfolding deps_of
deps_of_self tasks t unique m = rw (task_by_id_self tasks t unique m, deps_of)

pub has_duplicate_lem :
    (ids seen : List ℕ)
    → has_duplicate ids seen ≡ false
    → IsUnique ids × ((x : ℕ) → has x ids ≡ true → has x seen ≡ false)
unfolding has_duplicate
has_duplicate_lem [] seen h = (tt, λ x m. cc)
has_duplicate_lem (i ∷ ids) seen h =
    let (u, apart) = has_duplicate_lem ids (i ∷ seen) (ground arith) in
    ((ground (arith, apart i), u), λ x m. ground (arith, apart x))

pub has_duplicate_unique :
    (ids seen : List ℕ)
    → IsUnique ids
    → ((x : ℕ) → has x ids ≡ true → has x seen ≡ false)
    → has_duplicate ids seen ≡ false
unfolding has_duplicate
has_duplicate_unique [] seen u apart = refl
has_duplicate_unique (i ∷ ids) seen u apart =
    rw (apart i (ground arith))
      (has_duplicate_unique ids (i ∷ seen) u.1 λ x m. ground (arith, apart x))

pub length-ids_of : (tasks : List MissionTask) → length (ids_of tasks) ≡ length tasks
unfolding ids_of
length-ids_of [] = refl
length-ids_of (t ∷ ts) = ap suc (length-ids_of ts)
