-- ===== src/Tool/Resolution.antt =====
-- `resolveToolDefinition` (packages/tool-gateway/src/tool-resolution.ts).
use vega_revenue_os.Prelude.{
  ℕ, String, Bool, true, false, not, ◌&&◌, Option, none, some, List, [], ◌∷◌, ◌==◌, is_empty,
  if◌then◌else◌,
}
use text.Mathlib.Text.{◌==◌ as str_eq}
use vega_revenue_os.Tool.Contract.{ToolDefinition, is_active}

-- `ToolResolutionRef`.
pub record ToolResolutionRef : Type 0 where
  pub tool_definition_id : Option String
  pub tool_id : String
  pub version : String

pub data ToolResolution (S : Type 0) : Type 0 where
  resolved : ToolDefinition S → ToolResolution S
  not_found shadowed version_required ambiguous : ToolResolution S
  not_executable : ToolDefinition S → ToolResolution S

-- `xs.find(p)` and `xs.filter(p)`.
module _ {A : Type 0} where
  unfoldable pub find : (A → Bool) → List A → Option A
  find p [] = none
  find p (x ∷ xs) = if p x then some x else find p xs

  unfoldable pub filter : (A → Bool) → List A → List A
  filter p [] = []
  filter p (x ∷ xs) = let rest = filter p xs in if p x then x ∷ rest else rest

-- `d.tenantId === tenantId` and `d.tenantId === null`.
abbrev pub is_owned_by : ℕ → Option ℕ → Bool
is_owned_by tenant none = false
is_owned_by tenant (some t) = t == tenant

abbrev pub is_global : Option ℕ → Bool
is_global none = true
is_global (some t) = false

module _ {S : Type 0} where
  abbrev pub owned : ℕ → ToolDefinition S → Bool
  owned tenant d = is_owned_by tenant d.tenant_id

  abbrev pub global : ToolDefinition S → Bool
  global d = is_global d.tenant_id

  abbrev pub has_id : String → ToolDefinition S → Bool
  has_id id d = str_eq d.tool_definition_id id

  abbrev pub has_version : String → String → ToolDefinition S → Bool
  has_version tool version d = str_eq d.tool_id tool && str_eq d.version version

  -- `isExecutable`.
  abbrev pub is_executable : ToolDefinition S → Bool
  is_executable d = is_active d.lifecycle && d.enabled

  abbrev pub if_executable : ToolDefinition S → ToolResolution S → ToolResolution S
  if_executable d otherwise = if is_executable d then resolved d else otherwise

  -- The rest of case 1, with the exact definition and the tenant's.
  abbrev pub resolve_exact :
      ℕ → Option (ToolDefinition S) → Option (ToolDefinition S) → ToolResolution S
  resolve_exact tenant none t = not_found
  resolve_exact tenant (some exact) none =
      if not (global exact) && not (owned tenant exact)
      then not_found
      else if_executable exact (not_executable exact)
  resolve_exact tenant (some exact) (some t) =
      if not (global exact) && not (owned tenant exact)
      then not_found
      else if not (str_eq t.tool_definition_id exact.tool_definition_id)
      then shadowed
      else if_executable t (not_executable t)

  -- The rest of case 2, with the tenant's definition and the global one.
  abbrev pub resolve_scoped :
      Option (ToolDefinition S) → Option (ToolDefinition S) → ToolResolution S
  resolve_scoped (some t) g = if_executable t shadowed
  resolve_scoped none (some g) = if_executable g (not_executable g)
  resolve_scoped none none = not_found

  abbrev pub resolve_version : ToolResolutionRef → List (ToolDefinition S) → ℕ → ToolResolution S
  resolve_version ref candidates tenant =
      let scoped = filter (has_version ref.tool_id ref.version) candidates in
      if not (is_empty ref.tool_id) && is_empty ref.version
      then version_required
      else if not (is_empty ref.tool_id) && not (is_empty ref.version)
      then resolve_scoped (find (owned tenant) scoped) (find global scoped)
      else ambiguous

  unfoldable pub resolve_tool_definition :
      ToolResolutionRef → List (ToolDefinition S) → ℕ → ToolResolution S
  unfolding find filter
  resolve_tool_definition ref candidates tenant = elim ref.tool_definition_id [
    | none ↦ resolve_version ref candidates tenant
    | some id ↦
        if is_empty id
        then resolve_version ref candidates tenant
        else resolve_exact tenant (find (has_id id) candidates) (find (owned tenant) candidates)
  ]
