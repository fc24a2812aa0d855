-- ===== src/Tool/Shadowing.antt =====
-- What the registry resolves a reference to (packages/tool-gateway/src/tool-resolution.ts,
-- packages/tool-gateway/src/in-memory-tool-registry.ts).
use vega_revenue_os.Prelude.{
  ℕ, ◌≡◌, refl, ap, ◌∙◌, sym, subst, String, Bool, true, false, not, ◌&&◌, ◌⊎◌, inl, inr, Option,
  none, some, List, is_empty, arith, Bool-cases, if◌then◌else◌,
}
use text.Mathlib.Text.{◌==◌ as str_eq}
use text.Mathlib.TextEquality.{eq_iff}
use vega_revenue_os.Tool.Contract.{ToolDefinition}
use vega_revenue_os.Tool.Resolution.{
  ToolResolutionRef, resolved, find, filter, owned, global, has_id, has_version, is_executable,
  resolve_exact, resolve_scoped, resolve_version, resolve_tool_definition,
}
use vega_revenue_os.Tool.Registry.{
  is_visible, get_by_id, find_by_tool_version, candidates_of, resolve_executable, pinned, around,
}
use vega_revenue_os.Tool.Members.{In, find-some, find-none, In-filter, filter-In}

-- The reference names the definition: by its id, or by its tool and version.
abbrev pub names_it : {S : Type 0} → ToolResolutionRef → ToolDefinition S → Bool
names_it ref d = elim ref.tool_definition_id [
  | none ↦ has_version ref.tool_id ref.version d
  | some id ↦ if is_empty id then has_version ref.tool_id ref.version d else has_id id d
]

module _ {S : Type 0} (tenant : ℕ) (ref : ToolResolutionRef) (defs : List (ToolDefinition S)) where
  -- What a resolution promises of its definition.
  pub record IsChosen (d : ToolDefinition S) : Type 0 where
    pub registered : In d defs
    pub executable : is_executable d ≡ true
    pub visible : is_visible tenant d ≡ true
    pub named : names_it ref d ≡ true
    pub unshadowed :
        (e : ToolDefinition S)
        → In e defs
        → has_version d.tool_id d.version e ≡ true
        → owned tenant e ≡ true
        → owned tenant d ≡ true

  scoped-resolved :
      (t g : Option (ToolDefinition S)) (d : ToolDefinition S)
      → resolve_scoped t g ≡ resolved d
      → ((t ≡ some d) ⊎ ((t ≡ none) × (g ≡ some d))) × (is_executable d ≡ true)
  scoped-resolved (some t) g d h =
      let same : t ≡ d = ground arith in
      (inl (ap some same), ap is_executable (sym same) ∙ ground arith)
  scoped-resolved none (some g) d h =
      let same : g ≡ d = ground arith in
      (inr (refl, ap some same), ap is_executable (sym same) ∙ ground arith)
  scoped-resolved none none d h = absurd (ground arith)

  exact-resolved :
      (x t : Option (ToolDefinition S)) (d : ToolDefinition S)
      → resolve_exact tenant x t ≡ resolved d
      → (((t ≡ none) × (x ≡ some d))
          ⊎ ((t ≡ some d)
              × (exact : ToolDefinition S) × (x ≡ some exact)
              × (str_eq d.tool_definition_id exact.tool_definition_id ≡ true)))
        × (is_executable d ≡ true)
  exact-resolved none t d h = absurd (ground arith)
  exact-resolved (some exact) none d h =
      let same : exact ≡ d = ground arith in
      (inl (refl, ap some same), ap is_executable (sym same) ∙ ground arith)
  exact-resolved (some exact) (some t) d h =
      let same : t ≡ d = ground arith in
      (
        inr (
          ap some same,
          exact,
          refl,
          ap (λ (e : ToolDefinition S). str_eq e.tool_definition_id exact.tool_definition_id)
                (sym same)
              ∙ ground arith,
        ),
        ap is_executable (sym same) ∙ ground arith,
      )

  -- Two definitions of one version.
  has_version_trans :
      (a b : String) (d e : ToolDefinition S)
      → has_version a b d ≡ true
      → has_version d.tool_id d.version e ≡ true
      → has_version a b e ≡ true
  has_version_trans a b d e h g = ground (
    arith,
    eq_iff d.tool_id a,
    eq_iff d.version b,
    eq_iff e.tool_id d.tool_id,
    eq_iff e.version d.version,
    eq_iff e.tool_id a,
    eq_iff e.version b,
  )

  In-candidates :
      (a b : String) (d : ToolDefinition S)
      → In d (find_by_tool_version tenant a b defs)
      → (has_version a b d ≡ true) × (is_visible tenant d ≡ true) × In d defs
  unfolding find_by_tool_version
  In-candidates a b d m =
      let (q, n) = In-filter (λ d. has_version a b d && is_visible tenant d) defs d m in
      (ground arith, ground arith, n)

  candidates-In :
      (a b : String) (e : ToolDefinition S)
      → has_version a b e ≡ true
      → owned tenant e ≡ true
      → In e defs
      → In e (find_by_tool_version tenant a b defs)
  unfolding find_by_tool_version
  candidates-In a b e h o m =
      filter-In (λ d. has_version a b d && is_visible tenant d) defs e (ground arith) m

  -- What holds of a definition that is found among the candidates of a version.
  found-IsChosen :
      (a b : String) (d : ToolDefinition S)
      → In d (find_by_tool_version tenant a b defs)
      → is_executable d ≡ true
      → names_it ref d ≡ true
      → ((e : ToolDefinition S)
          → In e (find_by_tool_version tenant a b defs)
          → owned tenant e ≡ true
          → owned tenant d ≡ true)
      → IsChosen d
  found-IsChosen a b d m x n own =
      let (v, seen, registered) = In-candidates a b d m in
      record {
        registered = registered;
        executable = x;
        visible = seen;
        named = n;
        unshadowed = λ e me h o. own e (candidates-In a b e (has_version_trans a b d e v h) o me) o;
      }

  false-ne-true : {P : Type 0} (b : Bool) → b ≡ false → b ≡ true → P
  false-ne-true b f t = absurd (ground arith)

  -- A definition found in a list: the tenant's, or a global one where the tenant has none.
  Chooses : List (ToolDefinition S) → ToolDefinition S → Type 0
  Chooses xs d =
      In d xs × ((e : ToolDefinition S) → In e xs → owned tenant e ≡ true → owned tenant d ≡ true)

  found-Chooses :
      (xs : List (ToolDefinition S)) (p : ToolDefinition S → Bool) (d : ToolDefinition S)
      → (find (owned tenant) xs ≡ some d) ⊎ ((find (owned tenant) xs ≡ none) × (find p xs ≡ some d))
      → Chooses xs d
  unfolding Chooses
  found-Chooses xs p d (inl h) = let (o, m) = find-some (owned tenant) xs d h in (m, λ e me oe. o)
  found-Chooses xs p d (inr (h, g)) =
      let (o, m) = find-some p xs d g in
      (m, λ e me oe. false-ne-true (owned tenant e) (find-none (owned tenant) xs e h me) oe)

  version_open :
      (cands : List (ToolDefinition S)) (d : ToolDefinition S)
      → resolve_version ref cands tenant ≡ resolved d
      → (not (is_empty ref.tool_id) && not (is_empty ref.version) ≡ true)
        × (resolve_scoped
              (find (owned tenant) (filter (has_version ref.tool_id ref.version) cands))
              (find global (filter (has_version ref.tool_id ref.version) cands))
            ≡ resolved d)
  version_open cands d h = (ground arith, ground arith)

  pinned-IsChosen :
      (d : ToolDefinition S)
      → ((e : ToolDefinition S)
          → has_version ref.tool_id ref.version e ≡ true
          → names_it ref e ≡ true)
      → resolve_version ref (pinned tenant ref defs) tenant ≡ resolved d
      → IsChosen d
  unfolding Chooses
  pinned-IsChosen d named h =
      let (set, _) = version_open (pinned tenant ref defs) d h in
      let cands = find_by_tool_version tenant ref.tool_id ref.version defs in
      let same : pinned tenant ref defs ≡ cands = rw set in
      let (_, here) =
        version_open cands d (subst (λ l. resolve_version ref l tenant ≡ resolved d) same h) in
      let test : ToolDefinition S → Bool = has_version ref.tool_id ref.version in
      let scoped = filter test cands in
      let (from, x) = scoped-resolved (find (owned tenant) scoped) (find global scoped) d here in
      let (m, own) = found-Chooses scoped global d from in
      let (v, n) = In-filter test cands d m in
      found-IsChosen ref.tool_id ref.version d n x (named d v)
        (λ e me. own e (filter-In test cands e (In-candidates _ _ e me).0 me))

  exact-IsChosen :
      (id : String) (x : Option (ToolDefinition S)) (d : ToolDefinition S)
      → ((e : ToolDefinition S) → has_id id e ≡ true → names_it ref e ≡ true)
      → resolve_exact tenant
          (find (has_id id) (around tenant defs x))
          (find (owned tenant) (around tenant defs x))
        ≡ resolved d
      → IsChosen d
  unfolding Chooses find
  exact-IsChosen id none d named h = absurd (ground arith)
  exact-IsChosen id (some exact) d named h =
      let cands = find_by_tool_version tenant exact.tool_id exact.version defs in
      let (from, x) = exact-resolved (find (has_id id) cands) (find (owned tenant) cands) d h in
      elim from [
        | inl (none_owned, found) ↦
            let (i, _) = find-some (has_id id) cands d found in
            let (m, own) = found-Chooses cands (has_id id) d (inr (none_owned, found)) in
            found-IsChosen exact.tool_id exact.version d m x (named d i) own
        | inr (found, e, other, same) ↦
            let (i, _) = find-some (has_id id) cands e other in
            let (m, own) = found-Chooses cands (has_id id) d (inl found) in
            let j = (eq_iff d.tool_definition_id id).1 (
              (eq_iff d.tool_definition_id e.tool_definition_id).0 same
              ∙ (eq_iff e.tool_definition_id id).0 i) in
            found-IsChosen exact.tool_id exact.version d m x (named d j) own
      ]

  by_id-IsChosen :
      (o : Option String) (d : ToolDefinition S)
      → ref.tool_definition_id ≡ o
      → resolve_tool_definition ref (candidates_of tenant ref defs) tenant ≡ resolved d
      → IsChosen d
  unfolding resolve_tool_definition candidates_of
  by_id-IsChosen none d e h = pinned-IsChosen d (λ x v. rw e v) (rw e at h)
  by_id-IsChosen (some id) d e h = elim (Bool-cases (is_empty id)) [
    | inl f ↦ pinned-IsChosen d (λ x v. rw (e, f) v) (rw (e, f) at h)
    | inr f ↦ exact-IsChosen id (get_by_id tenant id defs) d (λ x v. rw (e, f) v) (rw (e, f) at h)
  ]

  -- A definition that the registry resolves for a tenant is registered, ACTIVE, enabled and visible to
  -- the tenant; it is the one that the reference names by its id, or by its tool and version; and it
  -- is the tenant's own if the tenant has any of that tool and version.
  pub resolve_executable-IsChosen :
      (d : ToolDefinition S) → resolve_executable tenant ref defs ≡ resolved d → IsChosen d
  unfolding resolve_executable
  resolve_executable-IsChosen d h = by_id-IsChosen ref.tool_definition_id d refl h
