-- ===== src/Mission/Engine/Evolves.antt =====
-- How a mission's row changes while the engine and other writers work on it
-- (packages/mission-orchestrator/src/workflow/mission-execution-engine.ts).
use vega_revenue_os.Prelude.{
  ℕ, ◌≤◌, ◌<◌, ◌≡◌, ◌⊎◌, ◌∙◌, refl, sym, ap, subst, inl, inr, Option, some, List, [], ◌∷◌, arith,
}
use vega_revenue_os.Aggregate.{Stamp, AggregateRoot, ok, emit}
use vega_revenue_os.Mission.State.{
  Mission, MissionEvent, MissionPlan, transition_to, transition_with,
}
use vega_revenue_os.Mission.Transitions.{Moved}
use vega_revenue_os.Mission.Planning.{plan_valid}
use vega_revenue_os.Mission.Tasks.{emit_all}
use vega_revenue_os.Mission.Command.{Command, run, run_all}
use vega_revenue_os.Mission.Effect.{
  Effect, refused, moved, replanned, added, task_moved, run-Effect,
}
use vega_revenue_os.Mission.Engine.World.{Batch}
use vega_revenue_os.Mission.Engine.Store.{as_row}

-- A mission as it comes from its row: with the version that was loaded, and no events.
abbrev pub IsRow : Mission → Type 0
IsRow m = (m.root.domain_events ≡ []) × (m.root.loaded_version ≡ some m.root.version)

-- The mission is `k` after commands of the aggregate, and after plans that passed their check.
pub data Derived (k : Mission) : Mission → Type 0 where
  same : Derived k k
  ran : {m : Mission} → Derived k m → (c : Command) (s : Stamp) → Derived k (run c s m).0
  adopted :
      {m : Mission}
      → Derived k m
      → (plan : MissionPlan) (s : Stamp) → (plan_valid s (record m { plan = plan })).1 ≡ ok
      → Derived k (plan_valid s (record m { plan = plan })).0

-- The row `m` becomes `n` by whole batches of the other writers, all that are taken off their list,
-- and by writes of the engine, each derived from the very row that it replaces.
pub data Evolves : Mission → List Batch → Mission → List Batch → Type 0 where
  still : {m : Mission} {bs : List Batch} → Evolves m bs m bs
  others_wrote :
      {m n : Mission} {b : Batch} {bs cs : List Batch}
      → Evolves (as_row (run_all b m)) bs n cs
      → Evolves m (b ∷ bs) n cs
  engine_wrote :
      {k m n : Mission} {bs cs : List Batch}
      → Derived k m
      → Evolves (as_row m) bs n cs
      → Evolves k bs n cs

pub Evolves-trans :
    {k m n : Mission} {xs bs cs : List Batch}
    → Evolves k xs m bs
    → Evolves m bs n cs
    → Evolves k xs n cs
Evolves-trans still f = f
Evolves-trans (others_wrote e) f = others_wrote (Evolves-trans e f)
Evolves-trans (engine_wrote d e) f = engine_wrote d (Evolves-trans e f)

pub Evolves-IsRow : {m n : Mission} {bs cs : List Batch} → Evolves m bs n cs → IsRow m → IsRow n
Evolves-IsRow still r = r
Evolves-IsRow (others_wrote e) r = Evolves-IsRow e (refl, refl)
Evolves-IsRow (engine_wrote d e) r = Evolves-IsRow e (refl, refl)

-- The second mission is the first, or has a higher version.
abbrev pub IsOlder : Mission → Mission → Type 0
IsOlder m n = (n ≡ m) ⊎ (m.root.version < n.root.version)

IsOlder-trans : {k m n : Mission} → IsOlder k m → IsOlder m n → IsOlder k n
IsOlder-trans {n = n} (inl e) g = subst (λ (x : Mission). IsOlder x n) e g
IsOlder-trans {k = k} (inr e) (inl g) =
    inr (subst (λ (x : Mission). k.root.version < x.root.version) (sym g) e)
IsOlder-trans (inr e) (inr g) = inr (omega arith)

-- And it keeps the version that was loaded.
abbrev Grows : Mission → Mission → Type 0
Grows m n = IsOlder m n × (n.root.loaded_version ≡ m.root.loaded_version)

Grows-trans : {k m n : Mission} → Grows k m → Grows m n → Grows k n
Grows-trans (g, l) (h, w) = (IsOlder-trans g h, w ∙ l)

emit_all-version :
    (s : Stamp) (es : List MissionEvent) (r : AggregateRoot MissionEvent)
    → (r.version ≤ (emit_all s es r).version)
      × ((emit_all s es r).loaded_version ≡ r.loaded_version)
emit_all-version s [] r = (omega arith, refl)
emit_all-version s (e ∷ es) r = let (v, l) = emit_all-version s es (emit s e r) in (omega arith, l)

Effect-Grows : {m : Mission} {r : Moved} → Effect m r → Grows m r.0
Effect-Grows (refused e) = (inl refl, refl)
Effect-Grows (moved target s e o h) = (inr (omega arith), refl)
Effect-Grows (replanned plan ps s e h k l) = (inr (omega arith), refl)
Effect-Grows (added p s e h k l) = (inr (omega arith), refl)
Effect-Grows {m} (task_moved id t u s e es h k l) =
    let (v, w) = emit_all-version s es (emit s e m.root) in (inr (omega arith), w)

run_all-Grows : (cs : List (Command × Stamp)) (m : Mission) → Grows m (run_all cs m)
unfolding run_all
run_all-Grows [] m = (inl refl, refl)
run_all-Grows ((c, s) ∷ cs) m =
    Grows-trans (Effect-Grows (run-Effect c s m)) (run_all-Grows cs (run c s m).0)

plan_valid-Grows :
    (s : Stamp) (m : Mission)
    → (plan_valid s m).1 ≡ ok
    → (m.root.version < (plan_valid s m).0.root.version)
      × ((plan_valid s m).0.root.loaded_version ≡ m.root.loaded_version)
unfolding plan_valid transition_to transition_with
plan_valid-Grows s m h = (ground arith, ground arith)

pub Derived-Grows : {k m : Mission} → Derived k m → Grows k m
Derived-Grows same = (inl refl, refl)
Derived-Grows (ran d c s) = Grows-trans (Derived-Grows d) (Effect-Grows (run-Effect c s _))
Derived-Grows {k} (adopted {m} d plan s h) =
    let (v, l) = plan_valid-Grows s (record m { plan = plan }) h in
    let (g, w) = Derived-Grows d in
    let above : IsOlder m (plan_valid s (record m { plan = plan })).0 = inr v in
    (IsOlder-trans g above, l ∙ w)

as_row_same : (m : Mission) → IsRow m → as_row m ≡ m
as_row_same m (e, l) =
    ap
      (λ (x : List _). record m {
        root = record m.root { loaded_version = some m.root.version; domain_events = x };
      })
      (sym e)
    ∙ ap (λ (y : Option ℕ). record m { root = record m.root { loaded_version = y } }) (sym l)

row-IsOlder : {m n : Mission} → IsRow m → Grows m n → IsOlder m (as_row n)
row-IsOlder {m} r (inl h, _) = inl (ap as_row h ∙ as_row_same m r)
row-IsOlder r (inr h, _) = inr h

-- A row whose version is the old one is the old row.
pub Evolves-IsOlder :
    {m n : Mission} {bs cs : List Batch} → Evolves m bs n cs → IsRow m → IsOlder m n
Evolves-IsOlder still r = inl refl
Evolves-IsOlder (others_wrote {m = m} {b = b} e) r =
    IsOlder-trans (row-IsOlder r (run_all-Grows b m)) (Evolves-IsOlder e (refl, refl))
Evolves-IsOlder (engine_wrote d e) r =
    IsOlder-trans (row-IsOlder r (Derived-Grows d)) (Evolves-IsOlder e (refl, refl))
