-- ===== src/Mission/Engine/Saves.antt =====
-- What reading and saving do to the mission's row
-- (packages/mission-orchestrator/src/workflow/mission-execution-engine.ts).
use vega_revenue_os.Prelude.{
  ℕ, zero, suc, ◌+◌, ◌≡◌, true, refl, sym, ◌∙◌, subst, inl, inr, some, List, [], ◌∷◌, arith, ◌==◌,
  if-cases, ◌&&◌, ◌++◌,
}
use vega_revenue_os.Aggregate.{Stamp, DomainEvent, ok, fail}
use vega_revenue_os.Outreach.Effect.{Result, value, early, conflict, thrown}
use vega_revenue_os.Mission.State.{Mission, MissionEvent}
use vega_revenue_os.Mission.Transitions.{Moved}
use vega_revenue_os.Mission.Engine.World.{TenantContext, Dependencies, EngineWorld}
use vega_revenue_os.Mission.Engine.Store.{
  Run, Work, interfere, write_row, expected_version, is_owned, load_mission, save, publish_all,
  save_once, attempt, accepted, perform, reapplied, save_loop, save_and_publish,
}
use vega_revenue_os.Mission.Engine.Evolves.{
  IsRow, Derived, same, still, engine_wrote, Evolves-trans, Evolves-IsRow, Derived-Grows,
  Evolves-IsOlder, IsOlder,
}
use vega_revenue_os.Mission.Engine.Does.{
  Keeps, Does, Always, Ended, Basis, HoldsAt, bind-Does, catch_conflict-Does, pure-Does, throw-Does,
  interfere-Keeps,
}

-- Commands that, where none of them fails, derive a mission.
abbrev pub IsWork : Work → Type 0
IsWork work =
    (stamp : ℕ → Stamp) (k m : Mission)
    → Derived k m
    → (work stamp m).1 ≡ ok
    → Derived k (work stamp m).0

row-Basis : (w : EngineWorld) → IsRow w.stored → Basis w.stored w
row-Basis w r = (w.stored, w.others, r, same, still)

ended :
    {A : Type 0} (u : EngineWorld) (r : EngineWorld × Result (Unit {0}) A)
    → Keeps u r.0
    → Keeps u r.0 × HoldsAt Ended r
ended u (w, value a) h = (h, tt)
ended u (w, early e) h = (h, tt)
ended u (w, conflict) h = (h, tt)
ended u (w, thrown) h = (h, tt)

-- Of a group of commands that did not fail, what it made of the mission.
abbrev Applied : Moved → EngineWorld → Type 0
Applied (m, ok) = Basis m
Applied (m, fail e) = Always

applied : (w : EngineWorld) (r : Moved) → (r.1 ≡ ok → Basis r.0 w) → Applied r w
applied w (m, ok) h = h refl
applied w (m, fail e) h = tt

module _ (ctx : TenantContext) where
  pub load_mission-Does : (id : ℕ) → Does Always Basis (load_mission ctx id)
  unfolding load_mission
  load_mission-Does id = record {
    at = λ w row _.
        let now : IsRow (interfere w).stored = Evolves-IsRow (interfere-Keeps w) row in
        if-cases (λ (r : EngineWorld × Result (Unit {0}) Mission). Keeps w r.0 × HoldsAt Basis r)
          (is_owned ctx (interfere w).stored && ((interfere w).stored.root.id == id))
          (λ _. (interfere-Keeps w, row-Basis (interfere w) now)) λ _. (interfere-Keeps w, tt);
  }

  -- A write that finds the version that was loaded replaces the row that the mission is derived from.
  replaces :
      (k m row : Mission)
      → IsRow k
      → Derived k m
      → IsOlder k row
      → (expected_version m.root.loaded_version row.root.version == row.root.version) ≡ true
      → row ≡ k
  replaces k m row (_, l) d (inl e) h = e
  replaces k m row (_, l) d (inr v) h =
      let kept : m.root.loaded_version ≡ some k.root.version = (Derived-Grows d).1 ∙ l in
      ground arith

  write_row-Keeps :
      (m : Mission) (w : EngineWorld) → IsRow w.stored → Basis m w → Keeps w (write_row ctx m w).0
  write_row-Keeps m w row (k, bs, r, d, e) =
      if-cases (λ (x : EngineWorld × Result (Unit {0}) Mission). Keeps w x.0)
        (expected_version m.root.loaded_version w.stored.root.version == w.stored.root.version)
        (λ h.
          engine_wrote
            (subst (λ (x : Mission). Derived x m)
              (sym (replaces k m w.stored r d (Evolves-IsOlder e r) h)) d)
            still)
        λ _. still

  save-Does : (m : Mission) → Does (Basis m) Ended (save ctx m)
  unfolding save
  save-Does m = record {
    at = λ w row (k, bs, r, d, e).
        let first : Keeps w (interfere w) = interfere-Keeps w in
        let then : Keeps (interfere w) (write_row ctx m (interfere w)).0 =
          write_row-Keeps m (interfere w) (Evolves-IsRow first row)
            (k, bs, r, d, Evolves-trans e first) in
        ended w (save ctx m w) (
          if-cases (λ (x : EngineWorld × Result (Unit {0}) Mission). Keeps w x.0) (is_owned ctx m)
            (λ _. Evolves-trans first then) λ _. first);
  }

  module _ (deps : Dependencies) where
    publish_all-Keeps :
        (es : List (DomainEvent MissionEvent)) (w : EngineWorld)
        → Keeps w (publish_all ctx deps es w).0
    unfolding publish_all
    publish_all-Keeps [] w = still
    publish_all-Keeps (e ∷ es) w =
        if-cases (λ (x : EngineWorld × Result (Unit {0}) (Unit {0})). Keeps w x.0) (deps.publish e)
          (λ _. publish_all-Keeps es (record w { published = w.published ++ (e ∷ []) })) λ _. still

    publish_all-Does :
        (es : List (DomainEvent MissionEvent)) → Does Always Ended (publish_all ctx deps es)
    publish_all-Does es = record {
      at = λ w row _. ended w (publish_all ctx deps es w) (publish_all-Keeps es w);
    }

    save_once-Does : (m : Mission) → Does (Basis m) Ended (save_once ctx deps m)
    unfolding save_once
    save_once-Does m =
        bind-Does (save-Does m) λ saved.
          bind-Does (publish_all-Does saved.root.domain_events) λ _. pure-Does λ w row _. tt

    attempt-Does :
        (work : Work) (m : Mission) → IsWork work → Does (Basis m) Applied (attempt ctx deps work m)
    unfolding attempt
    attempt-Does work m sound = record {
      at = λ w row (k, bs, r, d, e).
          let after : EngineWorld = record w { tick = w.tick + 1 } in
          (
            still,
            applied after (work (deps.stamp w.tick) m)
                λ h. (k, bs, r, sound (deps.stamp w.tick) k m d h, e),
          );
    }

    accepted-Does : (r : Moved) → Does (Applied r) Basis (accepted ctx deps r)
    accepted-Does (m, ok) = pure-Does λ w row p. p
    accepted-Does (m, fail e) = throw-Does

    pub perform-Does :
        (work : Work) (m : Mission) → IsWork work → Does (Basis m) Basis (perform ctx deps work m)
    unfolding perform
    perform-Does work m sound = bind-Does (attempt-Does work m sound) accepted-Does

    reapplied-Does :
        (next : Mission → Run Mission) (r : Moved)
        → ((m : Mission) → Does (Basis m) Ended (next m))
        → Does (Applied r) Ended (reapplied ctx deps next r)
    reapplied-Does next (m, ok) h = h m
    reapplied-Does next (m, fail e) h = pure-Does λ w row p. tt

    save_loop-Does :
        (left : ℕ) (work : Work) (m : Mission)
        → IsWork work
        → Does (Basis m) Ended (save_loop ctx deps left work m)
    unfolding save_loop
    save_loop-Does zero work m sound = save_once-Does m
    save_loop-Does (suc left) work m sound =
        let next : (n : Mission) → Does (Basis n) Ended (save_loop ctx deps left work n) =
          λ n. save_loop-Does left work n sound in
        catch_conflict-Does (save_once-Does m) (
          bind-Does (load_mission-Does m.root.id) λ latest.
            bind-Does (attempt-Does work latest sound)
              λ r. reapplied-Does (save_loop ctx deps left work) r next)

    pub save_and_publish-Does :
        (work : Work) (m : Mission)
        → IsWork work
        → Does (Basis m) Ended (save_and_publish ctx deps work m)
    unfolding save_and_publish
    save_and_publish-Does work m sound = save_loop-Does 2 work m sound
