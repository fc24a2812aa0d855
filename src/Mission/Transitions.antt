-- ===== src/Mission/Transitions.antt =====
-- The commands that only move a mission to another state (packages/domain/src/mission/mission.ts).
use vega_revenue_os.Prelude.{ℕ, String}
use vega_revenue_os.Aggregate.{Stamp, Outcome}
use vega_revenue_os.Mission.Status.{
  approved, scheduled, planning, executing, blocked, archived, MissionStatus,
}
use vega_revenue_os.Mission.Task.{MissionError}
use vega_revenue_os.Mission.State.{
  Mission, MissionOutcomes, transition_to, transition_with, mission_approved, mission_started,
  mission_paused, mission_resumed, mission_cancelled, mission_completed, mission_failed,
  mission_archived, mission_blocked, mission_unblocked,
}

abbrev pub Moved : Type 0
Moved = Mission × Outcome MissionError

-- `approve`, by the actor with the id `by`.
unfoldable pub approve : ℕ → Stamp → Mission → Moved
unfolding transition_to
approve by s m = transition_to approved s (mission_approved m.root.id by) m

unfoldable pub schedule : Stamp → Mission → Moved
unfolding transition_to
schedule s m = transition_to scheduled s (mission_started m.root.id) m

unfoldable pub start : Stamp → Mission → Moved
unfolding transition_to
start s m = transition_to planning s (mission_started m.root.id) m

unfoldable pub pause : String → Stamp → Mission → Moved
unfolding transition_to
pause reason s m = transition_to MissionStatus.paused s (mission_paused m.root.id reason) m

unfoldable pub resume : Stamp → Mission → Moved
unfolding transition_to
resume s m = transition_to executing s (mission_resumed m.root.id) m

unfoldable pub cancel : String → Stamp → Mission → Moved
unfolding transition_to
cancel reason s m = transition_to MissionStatus.cancelled s (mission_cancelled m.root.id reason) m

-- `complete`: the factory also stores the outcomes, so only when the transition is allowed.
unfoldable pub complete : MissionOutcomes → Stamp → Mission → Moved
unfolding transition_with
complete outcomes s m =
    transition_with MissionStatus.completed s outcomes (mission_completed m.root.id outcomes) m

-- `Mission.fail`.
unfoldable pub fail_mission : String → Stamp → Mission → Moved
unfolding transition_to
fail_mission reason s m = transition_to MissionStatus.failed s (mission_failed m.root.id reason) m

unfoldable pub archive : Stamp → Mission → Moved
unfolding transition_to
archive s m = transition_to archived s (mission_archived m.root.id) m

unfoldable pub block : String → Stamp → Mission → Moved
unfolding transition_to
block reason s m = transition_to blocked s (mission_blocked m.root.id reason) m

unfoldable pub unblock : Stamp → Mission → Moved
unfolding transition_to
unblock s m = transition_to executing s (mission_unblocked m.root.id) m
