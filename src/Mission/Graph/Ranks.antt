-- ===== src/Mission/Graph/Ranks.antt =====
-- Ranks from an order of the ids, for the search of `validateTaskGraph`
-- (packages/domain/src/mission/mission.ts).
use vega_revenue_os.Prelude.{
  ℕ, suc, ◌≤◌, ◌<◌, ◌≡◌, true, List, [], ◌∷◌, has, length, arith, ◌==◌, Bool-cases, inl, inr,
  if◌then◌else◌,
}
use vega_revenue_os.Mission.Task.{MissionTask}
use vega_revenue_os.Mission.Graph.Search.{deps_of}
use vega_revenue_os.Mission.Graph.Soundness.{Within, IsOrder}

-- How many ids stand behind an id, and it.
abbrev pub rank_in : List ℕ → ℕ → ℕ
rank_in [] x = 0
rank_in (y ∷ ys) x = let rest = rank_in ys x in if y == x then suc (length ys) else rest

rank_in-le : (order : List ℕ) (x : ℕ) → rank_in order x ≤ length order
rank_in-le [] x = omega arith
rank_in-le (y ∷ ys) x = ground (arith, rank_in-le ys x)

pub Within-has : (ds xs : List ℕ) (d : ℕ) → Within ds xs → has d ds ≡ true → has d xs ≡ true
Within-has [] xs d w m = cc
Within-has (x ∷ ds) xs d w m = ground (arith, Within-has ds xs d w.1)

-- In an order each id of it ranks above what it depends on.
pub rank_in-falls :
    (tasks : List MissionTask) (order : List ℕ) (id d : ℕ)
    → IsOrder tasks order
    → has id order ≡ true
    → has d (deps_of tasks id) ≡ true
    → (has d order ≡ true) × (rank_in order d < rank_in order id)
rank_in-falls tasks [] id d o m dep = cc
rank_in-falls tasks (y ∷ ys) id d o m dep = elim (Bool-cases (y == id)) [
  | inl hit ↦
      let e : y ≡ id = ground arith in
      let below : has d ys ≡ true = Within-has (deps_of tasks y) ys d o.1 (rw e dep) in
      ground (arith, rank_in-le ys d)
  | inr miss ↦ let (m', r) = rank_in-falls tasks ys id d o.2 (ground arith) dep in ground arith
]
