-- ===== src/Outreach/Repository.antt =====
-- The repositories of executions, campaigns and sequences
-- (packages/outreach/src/infrastructure/postgres-message-execution-repository.ts,
-- packages/outreach/src/infrastructure/postgres-campaign-repository.ts,
-- packages/outreach/src/infrastructure/postgres-sequence-repository.ts). A table is the list of its
-- rows, and a row is the aggregate that was saved in it, with its version.
pub mod Rows
use vega_revenue_os.Prelude.{
  ℕ, Bool, not, ◌&&◌, Option, none, some, List, [], ◌∷◌, ◌++◌, any, ◌==◌, if◌then◌else◌,
}
use vega_revenue_os.Aggregate.{AggregateRoot, set_version}

-- `OutreachRepositoryContext`.
pub record Context : Type 0 where
  pub tenant_id : ℕ
  pub workspace_id : ℕ

-- What a repository uses of its aggregates. `clashes` is the test of the table's unique indexes.
pub record Stored (P : Type 0) (A : Type 0) : Type 0 where
  pub root : A → AggregateRoot P
  pub with_root : AggregateRoot P → A → A
  pub workspace_id : A → ℕ
  pub reconstitute : A → ℕ → A
  pub clashes : A → A → Bool

-- How a `save` ends: with the table and the aggregate after it, or with one of the exceptions.
pub data Saved (A : Type 0) : Type 0 where
  saved : List A → A → Saved A
  stale : Saved A
  mismatched : Saved A

module _ {P : Type 0} {A : Type 0} (kind : Stored P A) (ctx : Context) where
  -- `tenant_id=$1 AND workspace_id=$2 AND id=$3`
  abbrev pub is_row : ℕ → A → Bool
  is_row id x =
      (kind.root x).tenant_id == ctx.tenant_id
      && kind.workspace_id x == ctx.workspace_id
      && (kind.root x).id == id

  unfoldable pub find_row : ℕ → List A → Option A
  find_row id [] = none
  find_row id (x ∷ xs) = if is_row id x then some x else find_row id xs

  abbrev restore : Option A → Option A
  restore none = none
  restore (some x) = some (kind.reconstitute x (kind.root x).version)

  -- `load`.
  unfoldable pub load : ℕ → List A → Option A
  unfolding find_row
  load id rows = restore (find_row id rows)

  -- `UPDATE … WHERE … AND version=…`: the rows after it, or none if no row is that one.
  unfoldable pub update_row : ℕ → ℕ → A → List A → Option (List A)
  update_row id version new [] = none
  update_row id version new (x ∷ xs) =
      let rest = update_row id version new xs in
      if is_row id x && (kind.root x).version == version
      then some (new ∷ xs)
      else elim rest [ none ↦ none | some ys ↦ some (x ∷ ys) ]

  -- `e.setVersion(e.version)`.
  abbrev pub settled : A → A
  settled x = kind.with_root (set_version (kind.root x).version (kind.root x)) x

  -- `save`.
  unfoldable pub save : A → List A → Saved A
  unfolding update_row
  save x rows =
      if not ((kind.root x).tenant_id == ctx.tenant_id && kind.workspace_id x == ctx.workspace_id)
      then mismatched
      else elim (kind.root x).loaded_version [
        | none ↦ if any (kind.clashes x) rows then stale else saved (rows ++ x ∷ []) (settled x)
        | some version ↦ elim (update_row (kind.root x).id version x rows) [
          | none ↦ stale
          | some rows' ↦ saved rows' (settled x)
        ]
      ]
