-- ===== src/Mission/Graph/Search.antt =====
-- The depth-first search of `validateTaskGraph` (packages/domain/src/mission/mission.ts).
use vega_revenue_os.Prelude.{
  ℕ, zero, suc, Option, none, some, List, [], ◌∷◌, has, if◌then◌else◌, ◌==◌,
}
use vega_revenue_os.Mission.Task.{MissionTask}

-- `taskById.get(id)`, where `taskById` is the `Map` of the tasks under their ids: the last entry
-- under an id counts.
unfoldable pub task_by_id : List MissionTask → ℕ → Option MissionTask
task_by_id [] id = none
task_by_id (t ∷ ts) id = elim (task_by_id ts id) [
  | some u ↦ some u
  | none ↦ if t.props.id == id then some t else none
]

-- The dependencies that a visit follows.
unfoldable pub deps_of : List MissionTask → ℕ → List ℕ
unfolding task_by_id
deps_of tasks id = elim (task_by_id tasks id) [ none ↦ [] | some t ↦ t.props.depends_on ]

-- `set.add(id)` and `set.delete(id)`.
abbrev pub add : ℕ → List ℕ → List ℕ
add id xs = if has id xs then xs else id ∷ xs

abbrev pub delete : ℕ → List ℕ → List ℕ
delete id [] = []
delete id (x ∷ xs) = let rest = delete id xs in if x == id then rest else x ∷ rest

-- How a visit ends: with the sets `visited` and `stack`, at a cycle, or out of fuel.
pub data Visit : Type 0 where
  done : List ℕ → List ℕ → Visit
  cyclic : Visit
  spent : Visit

-- `stack.delete(id); visited.add(id);`, once the dependencies are visited.
abbrev pub leave : ℕ → Visit → Visit
leave id (done visited stack) = done (add id visited) (delete id stack)
leave id cyclic = cyclic
leave id spent = spent

-- A loop that visits each of some ids, and stops at the first error.
unfoldable pub visit_each : (ℕ → List ℕ → List ℕ → Visit) → List ℕ → List ℕ → List ℕ → Visit
visit_each go [] visited stack = done visited stack
visit_each go (d ∷ ds) visited stack = elim (go d visited stack) [
  | done visited' stack' ↦ visit_each go ds visited' stack'
  | cyclic ↦ cyclic
  | spent ↦ spent
]

unfoldable pub visit : List MissionTask → ℕ → ℕ → List ℕ → List ℕ → Visit
visit tasks zero id visited stack = spent
visit tasks (suc fuel) id visited stack =
    if has id stack
    then cyclic
    else if has id visited
    then done visited stack
    else leave id (visit_each (visit tasks fuel) (deps_of tasks id) visited (add id stack))
