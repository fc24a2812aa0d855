-- ===== src/Mission/Lifecycle.antt =====
-- The commands of a mission and their histories, as to its status, version and plan
-- (packages/domain/src/mission/mission.ts).
use vega_revenue_os.Prelude.{◌≤◌, ◌≡◌, ◌∙◌, ◌⊎◌, refl, true, inl, inr, List, [], ◌∷◌, arith}
use vega_revenue_os.Aggregate.{Stamp, AggregateRoot, ok, fail, emit}
use vega_revenue_os.Aggregate.Log.{IsLogged, emit-IsLogged}
use vega_revenue_os.Mission.Status.{MissionStatus, can_transition_mission}
use vega_revenue_os.Mission.State.{Mission, MissionEvent, is_terminal}
use vega_revenue_os.Mission.Transitions.{Moved}
use vega_revenue_os.Mission.Tasks.{emit_all}
use vega_revenue_os.Mission.Command.{Command, run, run_all}
use vega_revenue_os.Mission.Effect.{
  Effect, refused, moved, replanned, added, task_moved, run-Effect,
}

-- A refused command changes nothing at all.
abbrev pub IsAtomic : Mission → Moved → Type 0
IsAtomic m (m', ok) = Unit
IsAtomic m (m', fail e) = m' ≡ m

Effect-IsAtomic : {m : Mission} {r : Moved} → Effect m r → IsAtomic m r
Effect-IsAtomic (refused e) = refl
Effect-IsAtomic (moved target s e o h) = tt
Effect-IsAtomic (replanned plan ps s e h k l) = tt
Effect-IsAtomic (added p s e h k l) = tt
Effect-IsAtomic (task_moved id t u s e es h k l) = tt

-- A command that a mission refuses leaves every part of it as it was, also its version and events.
pub run-IsAtomic : (c : Command) (s : Stamp) (m : Mission) → IsAtomic m (run c s m)
run-IsAtomic c s m = Effect-IsAtomic (run-Effect c s m)

-- The status stays, or moves along the table.
abbrev pub Follows : MissionStatus → MissionStatus → Type 0
Follows a b = (b ≡ a) ⊎ (can_transition_mission a b ≡ true)

Effect-Follows : {m : Mission} {r : Moved} → Effect m r → Follows m.status r.0.status
Effect-Follows (refused e) = inl refl
Effect-Follows (moved target s e o h) = inr h
Effect-Follows (replanned plan ps s e h k l) = inl refl
Effect-Follows (added p s e h k l) = inl refl
Effect-Follows (task_moved id t u s e es h k l) = inl refl

-- The version counts the uncommitted events, whatever is emitted.
emit_all-IsLogged :
    (s : Stamp) (es : List MissionEvent) (r : AggregateRoot MissionEvent)
    → IsLogged r
    → IsLogged (emit_all s es r)
emit_all-IsLogged s [] r h = h
emit_all-IsLogged s (e ∷ es) r h = emit_all-IsLogged s es (emit s e r) (emit-IsLogged s e r h)

Effect-IsLogged : {m : Mission} {r : Moved} → IsLogged m.root → Effect m r → IsLogged r.0.root
Effect-IsLogged h (refused e) = h
Effect-IsLogged {m} h (moved target s e o _) = emit-IsLogged s e m.root h
Effect-IsLogged {m} h (replanned plan ps s e _ _ _) = emit-IsLogged s e m.root h
Effect-IsLogged {m} h (added p s e _ _ _) = emit-IsLogged s e m.root h
Effect-IsLogged {m} h (task_moved id t u s e es _ _ _) = emit_all-IsLogged s (e ∷ es) m.root h

-- The plan's version never goes down.
Effect-plan : {m : Mission} {r : Moved} → Effect m r → m.plan.version ≤ r.0.plan.version
Effect-plan (refused e) = omega arith
Effect-plan (moved target s e o h) = omega arith
Effect-plan (replanned plan ps s e h k l) = omega arith
Effect-plan (added p s e h k l) = omega arith
Effect-plan (task_moved id t u s e es h k l) = omega arith

-- A way through the table, from one status to another.
pub data Route : MissionStatus → MissionStatus → Type 0 where
  here : {a : MissionStatus} → Route a a
  then : {a b c : MissionStatus} → can_transition_mission a b ≡ true → Route b c → Route a c

from_Follows : {a b c : MissionStatus} → Follows a b → Route b c → Route a c
from_Follows (inl e) p = rw (← e) p
from_Follows (inr h) p = then h p

run_all-Route : (cs : List (Command × Stamp)) (m : Mission) → Route m.status (run_all cs m).status
unfolding run_all
run_all-Route [] m = here
run_all-Route ((c, s) ∷ cs) m =
    let e : Effect m (run c s m) = run-Effect c s m in
    from_Follows (Effect-Follows e) (run_all-Route cs (run c s m).0)

run_all-kept :
    (cs : List (Command × Stamp)) (m : Mission)
    → IsLogged m.root
    → (m.plan.version ≤ (run_all cs m).plan.version) × IsLogged (run_all cs m).root
unfolding run_all
run_all-kept [] m h = (omega arith, h)
run_all-kept ((c, s) ∷ cs) m h =
    let e : Effect m (run c s m) = run-Effect c s m in
    let (v, l) = run_all-kept cs (run c s m).0 (Effect-IsLogged h e) in
    (omega (arith, Effect-plan e), l)

-- Any history of commands takes the status along a path of the table, never lowers the plan's
-- version, and keeps the version equal to the loaded one plus the uncommitted events, if it was so
-- before.
pub run_all_lem :
    (cs : List (Command × Stamp)) (m : Mission)
    → IsLogged m.root
    → Route m.status (run_all cs m).status
      × (m.plan.version ≤ (run_all cs m).plan.version)
      × IsLogged (run_all cs m).root
run_all_lem cs m h = let (v, l) = run_all-kept cs m h in (run_all-Route cs m, v, l)

terminal_step :
    (a b : MissionStatus)
    → can_transition_mission a b ≡ true
    → is_terminal a ≡ true
    → b ≡ MissionStatus.archived
unfolding can_transition_mission is_terminal
terminal_step a b e h = ground arith

-- Nothing leaves the terminal states but the archive, and nothing leaves that.
terminal-Route :
    {a b : MissionStatus}
    → Route a b
    → is_terminal a ≡ true
    → (b ≡ a) ⊎ (b ≡ MissionStatus.archived)
unfolding is_terminal
terminal-Route here h = inl refl
terminal-Route (then {a = a} {b = b} e p) h =
    let b_archived : b ≡ MissionStatus.archived = terminal_step a b e h in
    elim (terminal-Route p (rw b_archived refl)) [ inl f ↦ inr (f ∙ b_archived) | inr f ↦ inr f ]

-- A mission that is completed, failed, cancelled or archived stays so under any history of commands,
-- or is archived.
pub run_all_terminal :
    (cs : List (Command × Stamp)) (m : Mission)
    → is_terminal m.status ≡ true
    → ((run_all cs m).status ≡ m.status) ⊎ ((run_all cs m).status ≡ MissionStatus.archived)
run_all_terminal cs m h = terminal-Route (run_all-Route cs m) h
