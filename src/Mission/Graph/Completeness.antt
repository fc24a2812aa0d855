-- ===== src/Mission/Graph/Completeness.antt =====
-- The search of `validateTaskGraph` (packages/domain/src/mission/mission.ts) on dependencies that
-- can be ordered.
use vega_revenue_os.Prelude.{
  ℕ, zero, suc, ◌≤◌, ◌<◌, ◌≡◌, ◌≢◌, refl, true, false, List, [], ◌∷◌, has, arith,
}
use vega_revenue_os.Mission.Task.{MissionTask}
use vega_revenue_os.Mission.Graph.Search.{cyclic, deps_of, visit}
use vega_revenue_os.Mission.Graph.Soundness.{IsOrder, visit_avoids}

-- A rank falls along each dependency that a visit follows.
abbrev pub IsRank : List MissionTask → (ℕ → ℕ) → Type 0
IsRank tasks rank = (id d : ℕ) → has d (deps_of tasks id) ≡ true → rank d < rank id

-- All of the ids on the stack rank above `n`.
abbrev pub Above : (ℕ → ℕ) → ℕ → List ℕ → Type 0
Above rank n [] = Unit
Above rank n (x ∷ xs) = (n < rank x) × Above rank n xs

Above-down : (rank : ℕ → ℕ) (m n : ℕ) (st : List ℕ) → m ≤ n → Above rank n st → Above rank m st
Above-down rank m n [] le a = tt
Above-down rank m n (x ∷ xs) le a = (omega arith, Above-down rank m n xs le a.1)

Above-fresh : (rank : ℕ → ℕ) (id : ℕ) (st : List ℕ) → Above rank (rank id) st → has id st ≡ false
Above-fresh rank id [] a = refl
Above-fresh rank id (x ∷ xs) a = ground (arith, Above-fresh rank id xs a.1)

-- Below the stack in rank, a visit meets no cycle.
pub visit_free :
    (tasks : List MissionTask) (rank : ℕ → ℕ)
    → IsRank tasks rank
    → (fuel id : ℕ) (vs st : List ℕ) → IsOrder tasks vs
    → Above rank (rank id) st
    → visit tasks fuel id vs st ≢ cyclic
unfolding visit
visit_free tasks rank falls zero id vs st o a = λ e. cc
visit_free tasks rank falls (suc fuel) id vs st o a =
    visit_avoids tasks cyclic (λ v s e. cc) fuel id vs st o (Above-fresh rank id st a)
      λ d v m o'.
        let lower : rank d < rank id = falls id d m in
        visit_free tasks rank falls fuel d v (id ∷ st) o'
          (lower, Above-down rank (rank d) (rank id) st (omega arith) a)
