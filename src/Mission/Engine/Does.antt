-- ===== src/Mission/Engine/Does.antt =====
-- What the engine's computations do to the mission's row
-- (packages/mission-orchestrator/src/workflow/mission-execution-engine.ts).
use vega_revenue_os.Prelude.{Bool, true, false, List, [], ◌∷◌, if◌then◌else◌}
use vega_revenue_os.Outreach.Effect.{
  Result, value, early, conflict, thrown, pure, ◌>>=◌, throw, continue, catch_conflict, caught,
}
use vega_revenue_os.Mission.State.{Mission}
use vega_revenue_os.Mission.Engine.World.{Batch, EngineWorld}
use vega_revenue_os.Mission.Engine.Store.{Run, interfere, written, unseen}
use vega_revenue_os.Mission.Engine.Evolves.{
  IsRow, Derived, Evolves, still, others_wrote, Evolves-trans, Evolves-IsRow,
}

abbrev pub Keeps : EngineWorld → EngineWorld → Type 0
Keeps u w = Evolves u.stored u.others w.stored w.others

-- What holds of a computation's value and the world that it ends in, if it ends in a value.
abbrev pub HoldsAt :
    {A : Type 0} → (A → EngineWorld → Type 0) → EngineWorld × Result (Unit {0}) A → Type 0
HoldsAt Q (w, value a) = Q a w
HoldsAt Q (w, early e) = Unit
HoldsAt Q (w, conflict) = Unit
HoldsAt Q (w, thrown) = Unit

-- From a world with the first property, a computation lets the row evolve, and its value has the
-- second.
pub record Does {A : Type 0} (P : EngineWorld → Type 0) (Q : A → EngineWorld → Type 0) (c : Run A)
    : Type 0 where
  pub at : (w : EngineWorld) → IsRow w.stored → P w → Keeps w (c w).0 × HoldsAt Q (c w)

-- No property: of a world, and of a value and a world.
abbrev pub Always : EngineWorld → Type 0
Always w = Unit

abbrev pub Ended : {A : Type 0} → A → EngineWorld → Type 0
Ended a w = Unit

-- The mission is derived from a row that the row of this world has evolved from.
abbrev pub Basis : Mission → EngineWorld → Type 0
Basis m w =
    (k : Mission) × (bs : List Batch) × IsRow k × Derived k m × Evolves k bs w.stored w.others

continue-Does :
    {A B : Type 0} {Q : A → EngineWorld → Type 0} {R : B → EngineWorld → Type 0} (f : A → Run B)
    (u : EngineWorld) (r : EngineWorld × Result (Unit {0}) A)
    → ((a : A) → Does (Q a) R (f a))
    → IsRow u.stored
    → Keeps u r.0 × HoldsAt Q r
    → Keeps u (continue f r).0 × HoldsAt R (continue f r)
continue-Does f u (w, value a) k row (h, q) =
    let (g, p) = (k a).at w (Evolves-IsRow h row) q in (Evolves-trans h g, p)
continue-Does f u (w, early e) k row (h, q) = (h, tt)
continue-Does f u (w, conflict) k row (h, q) = (h, tt)
continue-Does f u (w, thrown) k row (h, q) = (h, tt)

caught-Does :
    {A : Type 0} {Q : A → EngineWorld → Type 0} (k : Run A) (u : EngineWorld)
    (r : EngineWorld × Result (Unit {0}) A)
    → Does Always Q k
    → IsRow u.stored
    → Keeps u r.0 × HoldsAt Q r
    → Keeps u (caught k r).0 × HoldsAt Q (caught k r)
caught-Does k u (w, conflict) g row (h, q) =
    let (c, p) = g.at w (Evolves-IsRow h row) tt in (Evolves-trans h c, p)
caught-Does k u (w, value a) g row (h, q) = (h, q)
caught-Does k u (w, early e) g row (h, q) = (h, tt)
caught-Does k u (w, thrown) g row (h, q) = (h, tt)

module _ {P : EngineWorld → Type 0} where
  pub bind-Does :
      {A B : Type 0} {m : Run A} {f : A → Run B} {Q : A → EngineWorld → Type 0}
      {R : B → EngineWorld → Type 0}
      → Does P Q m
      → ((a : A) → Does (Q a) R (f a))
      → Does P R (m >>= f)
  bind-Does {m = m} {f = f} h k = record {
    at = λ w row p. continue-Does f w (m w) k row (h.at w row p);
  }

  pub catch_conflict-Does :
      {A : Type 0} {m k : Run A} {Q : A → EngineWorld → Type 0}
      → Does P Q m
      → Does Always Q k
      → Does P Q (catch_conflict m k)
  catch_conflict-Does {m = m} {k = k} h g = record {
    at = λ w row p. caught-Does k w (m w) g row (h.at w row p);
  }

  pub pure-Does :
      {A : Type 0} {Q : A → EngineWorld → Type 0} {a : A}
      → ((w : EngineWorld) → IsRow w.stored → P w → Q a w)
      → Does P Q (pure a)
  pure-Does h = record { at = λ w row p. (still, h w row p) }

  pub throw-Does : {A : Type 0} {Q : A → EngineWorld → Type 0} → Does P Q throw
  throw-Does = record { at = λ w row p. (still, tt) }

  pub if-Does :
      {A : Type 0} {Q : A → EngineWorld → Type 0} {m k : Run A} (b : Bool)
      → Does P Q m
      → Does P Q k
      → Does P Q (if b then m else k)
  if-Does true h g = h
  if-Does false h g = g

pub interfere-Keeps : (w : EngineWorld) → Keeps w (interfere w)
interfere-Keeps w = from w.stored w.others
  where
    from : (m : Mission) (bs : List Batch) → Evolves m bs (written m bs) (unseen bs)
    from m [] = still
    from m (b ∷ bs) = others_wrote still
