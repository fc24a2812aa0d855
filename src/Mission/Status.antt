-- ===== src/Mission/Status.antt =====
-- The states of missions and tasks and their transition tables
-- (packages/domain/src/mission/mission-status.ts).
use vega_revenue_os.Prelude.{Bool, true, false}

pub data MissionStatus : Type 0 where
  draft approved scheduled planning executing paused awaiting_approval : MissionStatus
  blocked completed failed cancelled archived : MissionStatus

-- The rows of `MISSION_STATE_TRANSITIONS`, read by `includes`.
unfoldable pub can_transition_mission : MissionStatus → MissionStatus → Bool
can_transition_mission draft approved = true
can_transition_mission draft cancelled = true
can_transition_mission approved scheduled = true
can_transition_mission approved planning = true
can_transition_mission scheduled planning = true
can_transition_mission planning executing = true
can_transition_mission planning paused = true
can_transition_mission planning cancelled = true
can_transition_mission executing paused = true
can_transition_mission executing awaiting_approval = true
can_transition_mission executing blocked = true
can_transition_mission executing completed = true
can_transition_mission executing failed = true
can_transition_mission executing cancelled = true
can_transition_mission paused executing = true
can_transition_mission paused cancelled = true
can_transition_mission awaiting_approval executing = true
can_transition_mission awaiting_approval cancelled = true
can_transition_mission blocked executing = true
can_transition_mission blocked failed = true
can_transition_mission completed archived = true
can_transition_mission failed archived = true
can_transition_mission cancelled archived = true
can_transition_mission _ _ = false

pub data TaskStatus : Type 0 where
  pending running awaiting_approval paused completed failed cancelled timed_out : TaskStatus

-- The rows of `TASK_STATE_TRANSITIONS`.
unfoldable pub can_transition_task : TaskStatus → TaskStatus → Bool
can_transition_task pending running = true
can_transition_task pending cancelled = true
can_transition_task running awaiting_approval = true
can_transition_task running paused = true
can_transition_task running completed = true
can_transition_task running failed = true
can_transition_task running timed_out = true
can_transition_task awaiting_approval running = true
can_transition_task awaiting_approval cancelled = true
can_transition_task paused running = true
can_transition_task paused cancelled = true
can_transition_task _ _ = false
