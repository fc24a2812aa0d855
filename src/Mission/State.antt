-- ===== src/Mission/State.antt =====
-- The mission aggregate: its state, its events and its constructors
-- (packages/domain/src/mission/mission.ts, packages/domain/src/mission/events.ts). The fields that
-- no operation reads are left out: territory, channels, budget, autonomy level, constraints, success
-- criteria, owner, approvals, and the lists of a plan. Plan versions are natural numbers.
use vega_revenue_os.Prelude.{
  ℕ, String, Bool, true, false, Option, none, some, List, [], ◌||◌, not, is_missing, is_blank, leb,
  if◌then◌else◌,
}
use vega_revenue_os.Aggregate.{
  Stamp, AggregateRoot, Outcome, ok, fail, new_root, emit, clear_domain_events, set_version,
}
use vega_revenue_os.Mission.Status.{MissionStatus, TaskStatus, draft, can_transition_mission}
use vega_revenue_os.Mission.Task.{
  MissionTask, MissionError, workspace_required, objective_required, icp_required, deadline_passed,
  invalid_transition,
}

pub data WorkspaceBinding : Type 0 where
  workspace_bound legacy_unbound : WorkspaceBinding

pub record MissionPlan : Type 0 where
  pub plan_id : ℕ
  pub version : ℕ

pub record MissionOutcomes : Type 0 where
  pub meetings_booked : Option ℕ
  pub opportunities_created : Option ℕ

-- The payloads; each but the two of a task also holds the mission's id.
pub data MissionEvent : Type 0 where
  mission_created : ℕ → String → String → String → MissionEvent
  mission_approved : ℕ → ℕ → MissionEvent
  mission_replanned : ℕ → ℕ → MissionEvent
  mission_started mission_resumed mission_unblocked mission_archived : ℕ → MissionEvent
  mission_paused mission_cancelled mission_failed mission_blocked : ℕ → String → MissionEvent
  mission_completed : ℕ → MissionOutcomes → MissionEvent
  mission_task_added : ℕ → ℕ → ℕ → ℕ → MissionEvent
  mission_task_status_changed : ℕ → ℕ → TaskStatus → MissionEvent
  mission_task_timed_out : ℕ → ℕ → MissionEvent
  mission_task_cancelled : ℕ → ℕ → String → MissionEvent

pub record MissionProps : Type 0 where
  pub id : ℕ
  pub tenant_id : ℕ
  pub workspace_id : Option String
  pub workspace_binding_state : Option WorkspaceBinding
  pub name : String
  pub objective : String
  pub icp_id : String
  pub deadline : Option ℕ
  pub plan : MissionPlan
  pub status : Option MissionStatus
  pub tasks : Option (List MissionTask)
  pub outcomes : Option MissionOutcomes
  pub created_at : Option ℕ
  pub updated_at : Option ℕ

pub record Mission : Type 0 where
  pub root : AggregateRoot MissionEvent
  pub workspace_id : Option String
  pub workspace_binding_state : WorkspaceBinding
  pub name : String
  pub objective : String
  pub icp_id : String
  pub deadline : Option ℕ
  pub plan : MissionPlan
  pub created_at : ℕ
  pub updated_at : ℕ
  pub status : MissionStatus
  pub tasks : List MissionTask
  pub outcomes : MissionOutcomes

-- `a ?? b`.
abbrev or_else : {A : Type 0} → Option A → A → A
or_else none b = b
or_else (some a) b = a

-- The constructor, at the time `now`.
unfoldable pub new_mission : MissionProps → ℕ → Mission
new_mission p now = record {
  root = new_root p.tenant_id p.id;
  workspace_id = p.workspace_id;
  workspace_binding_state = or_else p.workspace_binding_state legacy_unbound;
  name = p.name;
  objective = p.objective;
  icp_id = p.icp_id;
  deadline = p.deadline;
  plan = p.plan;
  created_at = or_else p.created_at now;
  updated_at = or_else p.updated_at now;
  status = or_else p.status draft;
  tasks = or_else p.tasks [];
  outcomes = or_else p.outcomes (record { meetings_booked = none; opportunities_created = none });
}

abbrev pub is_bound : Option WorkspaceBinding → Bool
is_bound (some workspace_bound) = true
is_bound _ = false

-- `props.deadline && props.deadline.getTime() <= Date.now()`
abbrev has_passed : Option ℕ → ℕ → Bool
has_passed none now = false
has_passed (some d) now = leb d now

pub data Created : Type 0 where
  created : Mission → Created
  refused : MissionError → Created

-- `Mission.create`.
unfoldable pub create : MissionProps → Stamp → Created
unfolding new_mission
create p s =
    if not (is_bound p.workspace_binding_state) || is_missing p.workspace_id
    then refused workspace_required
    else if is_blank p.objective
    then refused objective_required
    else if is_blank p.icp_id
    then refused icp_required
    else if has_passed p.deadline s.now
    then refused deadline_passed
    else (let m = new_mission p s.now in
        created
          (record m { root = emit s (mission_created p.id p.name p.objective p.icp_id) m.root }))

-- `Mission.reconstitute`.
unfoldable pub reconstitute : MissionProps → ℕ → ℕ → Mission
unfolding new_mission
reconstitute p version now =
    let m = new_mission p now in
    record m { root = clear_domain_events (set_version version m.root) }

-- `transitionTo`, with the event that the factory makes, and the outcomes that it leaves.
unfoldable pub transition_with :
    MissionStatus
    → Stamp
    → MissionOutcomes
    → MissionEvent
    → Mission
    → Mission × Outcome MissionError
unfolding can_transition_mission
transition_with target s o e m =
    if can_transition_mission m.status target
    then (
      record m { status = target; updated_at = s.now; root = emit s e m.root; outcomes = o },
      ok,
    )
    else (m, fail (invalid_transition m.status target))

-- All factories but that of `complete` leave the outcomes alone.
unfoldable pub transition_to :
    MissionStatus → Stamp → MissionEvent → Mission → Mission × Outcome MissionError
unfolding transition_with
transition_to target s e m = transition_with target s m.outcomes e m

-- `isTerminal`.
unfoldable pub is_terminal : MissionStatus → Bool
is_terminal MissionStatus.completed = true
is_terminal MissionStatus.failed = true
is_terminal MissionStatus.cancelled = true
is_terminal MissionStatus.archived = true
is_terminal _ = false
