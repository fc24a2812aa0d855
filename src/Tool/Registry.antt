-- ===== src/Tool/Registry.antt =====
-- The registry of tools (packages/tool-gateway/src/in-memory-tool-registry.ts): its definitions in the
-- order in which a `Map` iterates.
use vega_revenue_os.Prelude.{
  ℕ, String, Bool, true, false, not, ◌&&◌, ◌||◌, Option, none, some, List, [], ◌∷◌, ◌++◌, ◌==◌, any,
  is_empty, if◌then◌else◌,
}
use text.Mathlib.Text.{◌==◌ as str_eq}
use vega_revenue_os.Tool.Contract.{
  ToolDefinition, ToolLifecycle, draft, active, deprecated, retired,
}
use vega_revenue_os.Tool.Resolution.{
  ToolResolution, ToolResolutionRef, find, filter, owned, global, has_id, has_version,
  resolve_tool_definition,
}

abbrev same_scope : Option ℕ → Option ℕ → Bool
same_scope none none = true
same_scope (some a) (some b) = a == b
same_scope _ _ = false

-- `FORWARD`.
unfoldable pub is_forward : ToolLifecycle → ToolLifecycle → Bool
is_forward draft active = true
is_forward active deprecated = true
is_forward deprecated retired = true
is_forward _ _ = false

module _ {S : Type 0} where
  abbrev pub clashes : ToolDefinition S → ToolDefinition S → Bool
  clashes new d =
      same_scope d.tenant_id new.tenant_id
      && str_eq d.tool_id new.tool_id
      && str_eq d.version new.version

  -- `register`, and whether it returns. A definition always has its lifecycle.
  unfoldable pub register :
      ToolDefinition S → List (ToolDefinition S) → List (ToolDefinition S) × Bool
  register new defs =
      if any (has_id new.tool_definition_id) defs || any (clashes new) defs
      then (defs, false)
      else (defs ++ new ∷ [], true)

  abbrev pub is_visible : ℕ → ToolDefinition S → Bool
  is_visible tenant d = global d || owned tenant d

  abbrev pub seen_by : ℕ → Option (ToolDefinition S) → Option (ToolDefinition S)
  seen_by tenant none = none
  seen_by tenant (some d) = if is_visible tenant d then some d else none

  unfoldable pub get_by_id : ℕ → String → List (ToolDefinition S) → Option (ToolDefinition S)
  unfolding find
  get_by_id tenant id defs = seen_by tenant (find (has_id id) defs)

  unfoldable pub find_by_tool_version :
      ℕ → String → String → List (ToolDefinition S) → List (ToolDefinition S)
  unfolding filter
  find_by_tool_version tenant tool version defs =
      filter (λ d. has_version tool version d && is_visible tenant d) defs

  unfoldable pub list_catalog : ℕ → List (ToolDefinition S) → List (ToolDefinition S)
  unfolding filter
  list_catalog tenant defs = filter (is_visible tenant) defs

  abbrev pub around :
      ℕ → List (ToolDefinition S) → Option (ToolDefinition S) → List (ToolDefinition S)
  around tenant defs none = []
  around tenant defs (some exact) = find_by_tool_version tenant exact.tool_id exact.version defs

  abbrev pub pinned : ℕ → ToolResolutionRef → List (ToolDefinition S) → List (ToolDefinition S)
  pinned tenant ref defs =
      if not (is_empty ref.tool_id) && not (is_empty ref.version)
      then find_by_tool_version tenant ref.tool_id ref.version defs
      else []

  -- The candidates of `resolveExecutable`.
  unfoldable pub candidates_of :
      ℕ → ToolResolutionRef → List (ToolDefinition S) → List (ToolDefinition S)
  unfolding get_by_id find_by_tool_version
  candidates_of tenant ref defs = elim ref.tool_definition_id [
    | none ↦ pinned tenant ref defs
    | some id ↦
        if is_empty id
        then pinned tenant ref defs
        else around tenant defs (get_by_id tenant id defs)
  ]

  unfoldable pub resolve_executable :
      ℕ → ToolResolutionRef → List (ToolDefinition S) → ToolResolution S
  unfolding candidates_of resolve_tool_definition
  resolve_executable tenant ref defs =
      resolve_tool_definition ref (candidates_of tenant ref defs) tenant

  -- `this.definitions.set(id, updated)`, of an id that is there.
  unfoldable pub put_definition :
      ToolDefinition S → List (ToolDefinition S) → List (ToolDefinition S)
  put_definition new [] = []
  put_definition new (d ∷ ds) =
      if has_id new.tool_definition_id d then new ∷ ds else d ∷ put_definition new ds

  -- `getMutableOwn`.
  abbrev pub mutable_own : ℕ → Option (ToolDefinition S) → Option (ToolDefinition S)
  mutable_own tenant none = none
  mutable_own tenant (some d) = if owned tenant d then some d else none

  abbrev pub move_found :
      ToolLifecycle
      → List (ToolDefinition S)
      → Option (ToolDefinition S)
      → List (ToolDefinition S) × Bool
  move_found to defs none = (defs, false)
  move_found to defs (some d) =
      if is_forward d.lifecycle to
      then (put_definition (record d { lifecycle = to }) defs, true)
      else (defs, false)

  -- `transitionLifecycle`, and whether it returns.
  unfoldable pub transition_lifecycle :
      ℕ → String → ToolLifecycle → List (ToolDefinition S) → List (ToolDefinition S) × Bool
  unfolding find put_definition is_forward
  transition_lifecycle tenant id to defs =
      move_found to defs (mutable_own tenant (find (has_id id) defs))

  abbrev pub switch_found :
      Bool → List (ToolDefinition S) → Option (ToolDefinition S) → List (ToolDefinition S) × Bool
  switch_found on defs none = (defs, false)
  switch_found on defs (some d) = (put_definition (record d { enabled = on }) defs, true)

  -- `setEnabled`.
  unfoldable pub set_enabled :
      ℕ → String → Bool → List (ToolDefinition S) → List (ToolDefinition S) × Bool
  unfolding find put_definition
  set_enabled tenant id on defs = switch_found on defs (mutable_own tenant (find (has_id id) defs))

-- The operations that change the registry, by any tenant.
pub data RegistryStep (S : Type 0) : Type 0 where
  registers : ToolDefinition S → RegistryStep S
  moves : (tenant : ℕ) → String → ToolLifecycle → RegistryStep S
  enables : (tenant : ℕ) → String → Bool → RegistryStep S

module _ {S : Type 0} where
  unfoldable pub registry_step : RegistryStep S → List (ToolDefinition S) → List (ToolDefinition S)
  unfolding register transition_lifecycle set_enabled
  registry_step (registers d) defs = (register d defs).0
  registry_step (moves tenant id to) defs = (transition_lifecycle tenant id to defs).0
  registry_step (enables tenant id on) defs = (set_enabled tenant id on defs).0

  unfoldable pub registry_steps :
      List (RegistryStep S) → List (ToolDefinition S) → List (ToolDefinition S)
  unfolding registry_step
  registry_steps [] defs = defs
  registry_steps (x ∷ xs) defs = registry_steps xs (registry_step x defs)
