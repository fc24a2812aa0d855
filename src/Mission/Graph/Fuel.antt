-- ===== src/Mission/Graph/Fuel.antt =====
-- The fuel of the search of `validateTaskGraph` (packages/domain/src/mission/mission.ts).
use vega_revenue_os.Prelude.{
  ℕ, zero, suc, ◌+◌, ◌≤◌, ◌<◌, ◌≡◌, ◌≢◌, refl, true, false, List, [], ◌∷◌, has, arith, Bool-cases,
  inl, inr, if◌then◌else◌, length,
}
use vega_revenue_os.Mission.Task.{MissionTask}
use vega_revenue_os.Mission.Graph.Search.{spent, deps_of, visit}
use vega_revenue_os.Mission.Graph.Soundness.{IsOrder, visit_avoids}

-- How many of the ids are not on the stack.
abbrev pub room : List ℕ → List ℕ → ℕ
room [] st = 0
room (i ∷ ids) st = (if has i st then 0 else 1) + room ids st

room-push-le : (id : ℕ) (ids st : List ℕ) → room ids (id ∷ st) ≤ room ids st
room-push-le id [] st = omega arith
room-push-le id (i ∷ ids) st = ground (arith, room-push-le id ids st)

room-push :
    (id : ℕ) (ids st : List ℕ)
    → has id ids ≡ true
    → has id st ≡ false
    → room ids (id ∷ st) < room ids st
room-push id [] st m off = cc
room-push id (i ∷ ids) st m off = ground (arith, room-push-le id ids st, room-push id ids st)

pub room_empty : (ids : List ℕ) → room ids [] ≡ length ids
room_empty [] = refl
room_empty (i ∷ ids) = omega (arith, room_empty ids)

-- No dependency leads out of the ids.
abbrev pub IsClosed : List MissionTask → List ℕ → Type 0
IsClosed tasks ids = (id d : ℕ) → has d (deps_of tasks id) ≡ true → has d ids ≡ true

pub visit_fuel :
    (tasks : List MissionTask) (ids : List ℕ)
    → IsClosed tasks ids
    → (fuel id : ℕ) (vs st : List ℕ) → IsOrder tasks vs
    → has id ids ≡ true
    → room ids st < fuel
    → visit tasks fuel id vs st ≢ spent
visit_fuel tasks ids closed zero id vs st o m enough = absurd (omega arith)
visit_fuel tasks ids closed (suc fuel) id vs st o m enough = elim (Bool-cases (has id st)) [
  | inl on ↦ unfold visit in rw on λ e. cc
  | inr off ↦
      visit_avoids tasks spent (λ v s e. cc) fuel id vs st o off
        λ d v u o'.
          visit_fuel tasks ids closed fuel d v (id ∷ st) o' (closed id d u)
            (omega (arith, room-push id ids st m off))
]
