-- ===== src/Mission/Graph/TaskChecks.antt =====
-- What the second loop of `validateTaskGraph` (packages/domain/src/mission/mission.ts) accepts.
use mathlib.Core.List.{Memᴰ}
use vega_revenue_os.Prelude.{
  ℕ, ◌≡◌, ◌≢◌, refl, ◌↔◌, true, false, none, some, List, [], ◌∷◌, has, arith, is_blank,
  Option-cases, inl, inr,
}
use vega_revenue_os.Mission.Task.{MissionTask, stuck}
use vega_revenue_os.Mission.Graph.Checks.{missing_dep, blank_capability, check_task, check_tasks}

-- A task has an agent, no blank capability, and dependencies among the ids only.
pub record IsEquipped (ids : List ℕ) (t : MissionTask) : Type 0 where
  pub agent : is_blank t.props.agent_id ≡ false
  pub capability : blank_capability t.props.required_capability ≡ false
  pub present : (d : ℕ) → has d t.props.depends_on ≡ true → has d ids ≡ true

missing_dep-present :
    (ids ds : List ℕ) (d : ℕ) → missing_dep ids ds ≡ false → has d ds ≡ true → has d ids ≡ true
unfolding missing_dep
missing_dep-present ids [] d h m = cc
missing_dep-present ids (x ∷ ds) d h m = ground (arith, missing_dep-present ids ds d)

missing_dep-absent :
    (ids ds : List ℕ) → ((d : ℕ) → has d ds ≡ true → has d ids ≡ true) → missing_dep ids ds ≡ false
unfolding missing_dep
missing_dep-absent ids [] h = refl
missing_dep-absent ids (x ∷ ds) h =
    rw (h x (ground arith)) (missing_dep-absent ids ds λ d m. h d (ground arith))

pub check_task_iff : (ids : List ℕ) (t : MissionTask) → (check_task ids t ≡ none) ↔ IsEquipped ids t
unfolding check_task
check_task_iff ids t = (
  λ h. record {
    agent = ground arith;
    capability = ground arith;
    present = λ d m. missing_dep-present ids t.props.depends_on d (ground arith) m;
  },
  λ e. rw (e.agent, e.capability, missing_dep-absent ids t.props.depends_on e.present),
)

check_tasks-none :
    (ids : List ℕ) (u : MissionTask) (us : List MissionTask)
    → check_tasks ids (u ∷ us) ≡ none
    → (check_task ids u ≡ none) × (check_tasks ids us ≡ none)
unfolding check_tasks
check_tasks-none ids u us h = elim (Option-cases (check_task ids u)) [
  | inl e ↦ (e, rw (e, check_tasks) at h)
  | inr (x, e) ↦ cc (rw (e, check_tasks) at h)
]

pub check_tasks-IsEquipped :
    (ids : List ℕ) (tasks : List MissionTask) (t : MissionTask)
    → check_tasks ids tasks ≡ none
    → Memᴰ t tasks
    → IsEquipped ids t
check_tasks-IsEquipped ids [] t h m = elim m [ ]
check_tasks-IsEquipped ids (u ∷ us) t h (Memᴰ.head e) =
    rw e ((check_task_iff ids u).0 (check_tasks-none ids u us h).0)
check_tasks-IsEquipped ids (u ∷ us) t h (Memᴰ.tail m) =
    check_tasks-IsEquipped ids us t (check_tasks-none ids u us h).1 m

pub equipped-check_tasks :
    (ids : List ℕ) (tasks : List MissionTask)
    → ((t : MissionTask) → Memᴰ t tasks → IsEquipped ids t)
    → check_tasks ids tasks ≡ none
unfolding check_tasks
equipped-check_tasks ids [] h = refl
equipped-check_tasks ids (u ∷ us) h =
    rw ((check_task_iff ids u).1 (h u (Memᴰ.head refl)), check_tasks)
      (equipped-check_tasks ids us λ t m. h t (Memᴰ.tail m))

pub check_tasks-ne-stuck :
    (ids : List ℕ) (tasks : List MissionTask) → check_tasks ids tasks ≢ some stuck
unfolding check_tasks check_task
check_tasks-ne-stuck ids [] = λ e. cc
check_tasks-ne-stuck ids (u ∷ us) = ground (arith, check_tasks-ne-stuck ids us)
