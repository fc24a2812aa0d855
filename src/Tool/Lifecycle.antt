-- ===== src/Tool/Lifecycle.antt =====
-- What a registered definition keeps over time (packages/tool-gateway/src/in-memory-tool-registry.ts).
use vega_revenue_os.Prelude.{
  ℕ, ◌≤◌, ◌≡◌, refl, ap, ◌∙◌, sym, subst, String, Bool, true, ◌||◌, inl, inr, Option, none, some,
  List, [], ◌∷◌, ◌++◌, arith, Bool-cases, any, if◌then◌else◌, if-cases,
}
use mathlib.Core.Option.{some-injective}
use text.Mathlib.Text.{◌==◌ as str_eq}
use text.Mathlib.TextEquality.{eq_iff}
use vega_revenue_os.Tool.Contract.{
  ToolDefinition, ToolLifecycle, draft, active, deprecated, retired,
}
use vega_revenue_os.Tool.Resolution.{find, has_id}
use vega_revenue_os.Tool.Registry.{
  RegistryStep, registers, moves, enables, register, clashes, put_definition, mutable_own,
  move_found, switch_found, is_forward, transition_lifecycle, set_enabled, registry_step,
  registry_steps,
}
use vega_revenue_os.Tool.Members.{find-some}

-- The order of the states of a definition.
abbrev pub lifecycle_rank : ToolLifecycle → ℕ
lifecycle_rank draft = 0
lifecycle_rank active = 1
lifecycle_rank deprecated = 2
lifecycle_rank retired = 3

forward-rank : (a b : ToolLifecycle) → is_forward a b ≡ true → lifecycle_rank a ≤ lifecycle_rank b
unfolding is_forward
forward-rank a b h = ground arith

module _ {S : Type 0} where
  -- A later version of a definition: the contract is the same, and the lifecycle has not gone back.
  pub record Evolves (d d' : ToolDefinition S) : Type 0 where
    pub contract : d' ≡ record d { lifecycle = d'.lifecycle; enabled = d'.enabled }
    pub forward : lifecycle_rank d.lifecycle ≤ lifecycle_rank d'.lifecycle

  Evolves-refl : (d : ToolDefinition S) → Evolves d d
  Evolves-refl d = record { contract = refl; forward = omega arith }

  Evolves-trans : (a b c : ToolDefinition S) → Evolves a b → Evolves b c → Evolves a c
  Evolves-trans a b c p q = record {
    contract =
        q.contract
        ∙ ap (λ (x : ToolDefinition S). record x { lifecycle = c.lifecycle; enabled = c.enabled })
            p.contract;
    forward = (let h = p.forward in let g = q.forward in omega (arith, h, g));
  }

  -- The registry still has the definition, or a later version of it.
  abbrev Holds : String → ToolDefinition S → List (ToolDefinition S) → Type 0
  Holds id d defs = (d' : ToolDefinition S) × (find (has_id id) defs ≡ some d') × Evolves d d'

  find-append :
      (id : String) (defs more : List (ToolDefinition S)) (d : ToolDefinition S)
      → find (has_id id) defs ≡ some d
      → find (has_id id) (defs ++ more) ≡ some d
  unfolding find
  find-append id [] more d h = absurd (ground arith)
  find-append id (x ∷ xs) more d h =
      let ih = find-append id xs more d in
      elim (Bool-cases (has_id id x)) [ inl e ↦ rw e (rw e at h) | inr e ↦ rw e (ih (rw e at h)) ]

  same_id :
      (id : String) (d e : ToolDefinition S)
      → has_id d.tool_definition_id e ≡ true
      → has_id id e ≡ has_id id d
  same_id id d e h = ap (λ t. str_eq t id) ((eq_iff e.tool_definition_id d.tool_definition_id).0 h)

  both_ids :
      (id : String) (d e : ToolDefinition S)
      → has_id id d ≡ true
      → has_id id e ≡ true
      → has_id d.tool_definition_id e ≡ true
  both_ids id d e h g =
      (eq_iff e.tool_definition_id d.tool_definition_id).1
        ((eq_iff e.tool_definition_id id).0 g ∙ sym ((eq_iff d.tool_definition_id id).0 h))

  -- An update of the registry is read back under the definition's own id, and under no other.
  find-put :
      (id : String) (new d : ToolDefinition S) (defs : List (ToolDefinition S))
      → find (has_id id) defs ≡ some d
      → find (has_id id) (put_definition new defs) ≡ (if has_id id new then some new else some d)
  unfolding find put_definition
  find-put id new d [] h = absurd (ground arith)
  find-put id new d (x ∷ xs) h = elim (Bool-cases (has_id new.tool_definition_id x)) [
    | inl e ↦ let same = same_id id new x e in ground arith
    | inr e ↦
        let ih = find-put id new d xs in
        let both = both_ids id new x in
        elim (Bool-cases (has_id id x)) [
          | inr f ↦ let step = ih (ground arith) in ground arith
          | inl f ↦ elim (Bool-cases (has_id id new)) [
            | inl g ↦ let twice = both g f in absurd (ground arith)
            | inr g ↦ ground arith
          ]
        ]
  ]

  put-Holds :
      (id : String) (d new d1 : ToolDefinition S) (defs : List (ToolDefinition S))
      → find (has_id new.tool_definition_id) defs ≡ some d1
      → Evolves d1 new
      → Holds id d defs
      → Holds id d (put_definition new defs)
  put-Holds id d new d1 defs there step (d', h, e) =
      let read = find-put id new d' defs h in
      elim (Bool-cases (has_id id new)) [
        | inr f ↦ (d', read ∙ rw f, e)
        | inl f ↦
            let ids = (eq_iff new.tool_definition_id id).0 f in
            let same : d1 ≡ d' =
              some-injective d1 d' (sym there ∙ ap (λ t. find (has_id t) defs) ids ∙ h) in
            (new, read ∙ rw f, Evolves-trans d d' new e (subst (λ x. Evolves x new) same step))
      ]

  mutable-own :
      (tenant : ℕ) (o : Option (ToolDefinition S)) (d : ToolDefinition S)
      → mutable_own tenant o ≡ some d
      → o ≡ some d
  mutable-own tenant none d h = absurd (ground arith)
  mutable-own tenant (some e) d h = ground arith

  -- What a tenant may change is read under its own id.
  own_found :
      (tenant : ℕ) (id : String) (defs : List (ToolDefinition S)) (d : ToolDefinition S)
      → mutable_own tenant (find (has_id id) defs) ≡ some d
      → find (has_id d.tool_definition_id) defs ≡ some d
  own_found tenant id defs d h =
      let found = mutable-own tenant (find (has_id id) defs) d h in
      let (i, _) = find-some (has_id id) defs d found in
      subst (λ t. find (has_id t) defs ≡ some d) (sym ((eq_iff d.tool_definition_id id).0 i)) found

  moved-Holds :
      (tenant : ℕ) (id' : String) (to : ToolLifecycle) (id : String) (d : ToolDefinition S)
      (defs : List (ToolDefinition S)) (o : Option (ToolDefinition S))
      → mutable_own tenant (find (has_id id') defs) ≡ o
      → Holds id d defs
      → Holds id d (move_found to defs o).0
  moved-Holds tenant id' to id d defs none g h = h
  moved-Holds tenant id' to id d defs (some d1) g h =
      if-cases (λ (r : List (ToolDefinition S) × Bool). Holds id d r.0) (is_forward d1.lifecycle to)
        (λ f.
          put-Holds id d (record d1 { lifecycle = to }) d1 defs (own_found tenant id' defs d1 g)
            (record { contract = refl; forward = forward-rank d1.lifecycle to f }) h)
        (λ f. h)

  switched-Holds :
      (tenant : ℕ) (id' : String) (on : Bool) (id : String) (d : ToolDefinition S)
      (defs : List (ToolDefinition S)) (o : Option (ToolDefinition S))
      → mutable_own tenant (find (has_id id') defs) ≡ o
      → Holds id d defs
      → Holds id d (switch_found on defs o).0
  switched-Holds tenant id' on id d defs none g h = h
  switched-Holds tenant id' on id d defs (some d1) g h =
      put-Holds id d (record d1 { enabled = on }) d1 defs (own_found tenant id' defs d1 g)
        (record { contract = refl; forward = omega arith }) h

  step-Holds :
      (x : RegistryStep S) (id : String) (d : ToolDefinition S) (defs : List (ToolDefinition S))
      → Holds id d defs
      → Holds id d (registry_step x defs)
  unfolding registry_step register transition_lifecycle set_enabled
  step-Holds (registers new) id d defs (d', h, e) =
      if-cases (λ (r : List (ToolDefinition S) × Bool). Holds id d r.0)
        (any (has_id new.tool_definition_id) defs || any (clashes new) defs) (λ g. (d', h, e))
        (λ g. (d', find-append id defs (new ∷ []) d' h, e))
  step-Holds (moves tenant id' to) id d defs h = moved-Holds tenant id' to id d defs _ refl h
  step-Holds (enables tenant id' on) id d defs h = switched-Holds tenant id' on id d defs _ refl h

  steps-Holds :
      (xs : List (RegistryStep S)) (id : String) (d : ToolDefinition S)
      (defs : List (ToolDefinition S))
      → Holds id d defs
      → Holds id d (registry_steps xs defs)
  unfolding registry_steps
  steps-Holds [] id d defs h = h
  steps-Holds (x ∷ xs) id d defs h =
      steps-Holds xs id d (registry_step x defs) (step-Holds x id d defs h)

  -- A registered definition is found under its id after any operations of any tenants, with the same
  -- contract, and its lifecycle has not gone back: only the lifecycle and the switch change.
  pub contract_fixed :
      (xs : List (RegistryStep S)) (id : String) (d : ToolDefinition S)
      (defs : List (ToolDefinition S))
      → find (has_id id) defs ≡ some d
      → (d' : ToolDefinition S) × (find (has_id id) (registry_steps xs defs) ≡ some d')
        × Evolves d d'
  contract_fixed xs id d defs h = steps-Holds xs id d defs (d, h, Evolves-refl d)
