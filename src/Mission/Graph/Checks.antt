-- ===== src/Mission/Graph/Checks.antt =====
-- The first two loops of `validateTaskGraph` (packages/domain/src/mission/mission.ts): distinct ids,
-- an agent and a capability for each task, and no dependency outside the plan.
use vega_revenue_os.Prelude.{
  ℕ, String, Bool, true, false, ◌||◌, Option, none, some, List, [], ◌∷◌, map, is_blank, has,
  if◌then◌else◌,
}
use vega_revenue_os.Mission.Task.{
  MissionTask, MissionError, missing_agent, missing_capability, missing_dependency,
}

unfoldable pub ids_of : List MissionTask → List ℕ
ids_of tasks = map (λ t. t.props.id) tasks

-- The first loop: `taskIds` collects the ids, and one that is there already is an error.
unfoldable pub has_duplicate : List ℕ → List ℕ → Bool
has_duplicate [] seen = false
has_duplicate (id ∷ ids) seen = has id seen || has_duplicate ids (id ∷ seen)

-- `task.requiredCapability !== undefined && task.requiredCapability.trim().length === 0`
abbrev pub blank_capability : Option String → Bool
blank_capability none = false
blank_capability (some c) = is_blank c

unfoldable pub missing_dep : List ℕ → List ℕ → Bool
missing_dep ids [] = false
missing_dep ids (d ∷ ds) = if has d ids then missing_dep ids ds else true

-- The body of the second loop.
unfoldable pub check_task : List ℕ → MissionTask → Option MissionError
unfolding missing_dep
check_task ids t =
    if is_blank t.props.agent_id
    then some missing_agent
    else if blank_capability t.props.required_capability
    then some missing_capability
    else if missing_dep ids t.props.depends_on
    then some missing_dependency
    else none

unfoldable pub check_tasks : List ℕ → List MissionTask → Option MissionError
check_tasks ids [] = none
check_tasks ids (t ∷ ts) = elim (check_task ids t) [ some e ↦ some e | none ↦ check_tasks ids ts ]
