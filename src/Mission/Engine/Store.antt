-- ===== src/Mission/Engine/Store.antt =====
-- Reading and saving a mission (packages/mission-orchestrator/src/workflow/mission-execution-engine.ts,
-- packages/mission-orchestrator/src/infrastructure/postgres-mission-repository.ts). A row holds the
-- aggregate as it was saved; its tables of plans and tasks are not modelled apart, nor is the insert
-- of a mission, which the engine never does.
use text.Mathlib.Text.{◌==◌ as str_eq}
use vega_revenue_os.Prelude.{
  ℕ, zero, suc, ◌+◌, String, Bool, true, false, ◌&&◌, Option, none, some, List, [], ◌∷◌, ◌++◌, ◌==◌,
  if◌then◌else◌,
}
use vega_revenue_os.Aggregate.{Stamp, DomainEvent, ok, fail, clear_domain_events, set_version}
use vega_revenue_os.Outreach.Effect.{
  Result, value, conflict, thrown, M, pure, ◌>>=◌, ◌>>◌, throw, catch_conflict,
}
use vega_revenue_os.Mission.State.{
  Mission, MissionEvent, WorkspaceBinding, workspace_bound, legacy_unbound,
}
use vega_revenue_os.Mission.Transitions.{Moved}
use vega_revenue_os.Mission.Command.{run_all}
use vega_revenue_os.Mission.Engine.World.{TenantContext, Dependencies, Batch, EngineWorld}

-- The engine's functions have no early return but their own end.
abbrev pub Run : Type 0 → Type 0
Run A = M EngineWorld (Unit {0}) A

-- Commands on a mission in memory, with the stamps that they take.
abbrev pub Work : Type 0
Work = (ℕ → Stamp) → Mission → Moved

-- A mission as its row gives it back: at the version that it has, without events.
abbrev pub as_row : Mission → Mission
as_row m = record m { root = clear_domain_events (set_version m.root.version m.root) }

-- What the other writers did since the engine's last read or write.
abbrev pub written : Mission → List Batch → Mission
written m [] = m
written m (b ∷ bs) = as_row (run_all b m)

abbrev pub unseen : List Batch → List Batch
unseen [] = []
unseen (b ∷ bs) = bs

abbrev pub interfere : EngineWorld → EngineWorld
interfere w = record w { stored = written w.stored w.others; others = unseen w.others }

abbrev pub is_workspace : Option String → Option String → Bool
is_workspace (some a) (some b) = str_eq a b
is_workspace _ _ = false

abbrev pub is_workspace_bound : WorkspaceBinding → Bool
is_workspace_bound workspace_bound = true
is_workspace_bound legacy_unbound = false

abbrev pub expected_version : Option ℕ → ℕ → ℕ
expected_version none v = v
expected_version (some l) v = l

module _ (ctx : TenantContext) where
  -- The rows that the repository shows and stores in the context.
  unfoldable pub is_owned : Mission → Bool
  is_owned m =
      (m.root.tenant_id == ctx.tenant_id)
      && is_workspace ctx.workspace_id m.workspace_id
      && is_workspace_bound m.workspace_binding_state

  abbrev pub read_row : ℕ → EngineWorld → EngineWorld × Result (Unit {0}) Mission
  read_row id w =
      if is_owned w.stored && (w.stored.root.id == id) then (w, value w.stored) else (w, thrown)

  -- `loadMission`: a mission that is not found is an exception.
  unfoldable pub load_mission : ℕ → Run Mission
  unfolding is_owned
  load_mission id w = read_row id (interfere w)

  abbrev pub write_row : Mission → EngineWorld → EngineWorld × Result (Unit {0}) Mission
  write_row m w =
      if expected_version m.root.loaded_version w.stored.root.version == w.stored.root.version
      then (
        record w { stored = as_row m },
        value (record m { root = set_version m.root.version m.root }),
      )
      else (w, conflict)

  -- `save`: the update of a row whose version is the one that was loaded.
  unfoldable pub save : Mission → Run Mission
  unfolding is_owned
  save m w = if is_owned m then write_row m (interfere w) else (interfere w, thrown)

  module _ (deps : Dependencies) where
    unfoldable pub publish_all : List (DomainEvent MissionEvent) → Run (Unit {0})
    publish_all [] w = (w, value tt)
    publish_all (e ∷ es) w =
        if deps.publish e
        then publish_all es (record w { published = w.published ++ (e ∷ []) })
        else (w, thrown)

    -- The body of the `try`.
    unfoldable pub save_once : Mission → Run Mission
    unfolding save publish_all
    save_once m = do
      saved ← save m
      publish_all saved.root.domain_events
      pure (record saved { root = clear_domain_events saved.root })

    -- A group of commands takes the next stamps.
    unfoldable pub attempt : Work → Mission → Run Moved
    attempt work m w = (record w { tick = w.tick + 1 }, value (work (deps.stamp w.tick) m))

    abbrev pub accepted : Moved → Run Mission
    accepted (m, ok) = pure m
    accepted (m, fail e) = throw

    -- `if (!result.success) throw …`
    unfoldable pub perform : Work → Mission → Run Mission
    unfolding attempt
    perform work m = attempt work m >>= accepted

    -- After the commands were applied again: what is saved next, or the mission that is returned.
    abbrev pub reapplied : (Mission → Run Mission) → Moved → Run Mission
    reapplied next (m, ok) = next m
    reapplied next (m, fail e) = pure m

    -- The loop of `saveAndPublish`, where `left` attempts are left after this one.
    unfoldable pub save_loop : ℕ → Work → Mission → Run Mission
    unfolding save_once attempt load_mission
    save_loop zero reapply m = save_once m
    save_loop (suc left) reapply m = catch_conflict (save_once m) (do
      latest ← load_mission m.root.id
      moved ← attempt reapply latest
      reapplied (save_loop left reapply) moved)

    -- `saveAndPublish`.
    unfoldable pub save_and_publish : Work → Mission → Run Mission
    unfolding save_loop
    save_and_publish reapply m = save_loop 2 reapply m
