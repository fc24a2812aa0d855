-- ===== src/Aggregate/Log.antt =====
-- The version of an aggregate and its unsaved events
-- (packages/domain/src/aggregate/aggregate-root.ts).
use vega_revenue_os.Prelude.{ℕ, ◌+◌, ◌≡◌, Option, none, some, [], ◌∷◌, arith, length, length-append}
use vega_revenue_os.Aggregate.Root.{Stamp, AggregateRoot, emit}

-- The version that a save compares and swaps against; an aggregate never saved starts at 0.
abbrev pub base_version : Option ℕ → ℕ
base_version none = 0
base_version (some v) = v

module _ {P : Type 0} where
  -- The version is the loaded version and one more for each uncommitted event.
  abbrev pub IsLogged : AggregateRoot P → Type 0
  IsLogged r = r.version ≡ base_version r.loaded_version + length r.domain_events

  pub emit-IsLogged : (s : Stamp) (p : P) (r : AggregateRoot P) → IsLogged r → IsLogged (emit s p r)
  emit-IsLogged s p r h = omega (arith, length-append r.domain_events (_ ∷ []))
