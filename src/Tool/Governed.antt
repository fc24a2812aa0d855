-- ===== src/Tool/Governed.antt =====
-- What the gateway has checked before it calls a provider (packages/tool-gateway/src/tool-gateway.ts).
use vega_revenue_os.Prelude.{◌≡◌, ◌≢◌, ◌⊎◌, refl, ap, subst, true, false, some, arith, inl, inr}
use vega_revenue_os.Tool.Contract.{ToolDefinition, ToolCallRequest, ToolCallResult}
use vega_revenue_os.Tool.Resolution.{
  ToolResolution, resolved, not_found, shadowed, not_executable, version_required, ambiguous,
}
use vega_revenue_os.Tool.Registry.{resolve_executable}
use vega_revenue_os.Tool.Checks.{
  Provider, Ports, PolicyDecision, ToolPolicyDecision, Checked, refused, cleared, is_deny, covers,
  accepts_input, needs_approval, ref_of, check_policy, check_resolved, check,
}
use vega_revenue_os.Tool.Records.{ToolWorld}
use vega_revenue_os.Tool.Execute.{after_checks, execute}
use vega_revenue_os.Tool.Outcome.{ToolCall, OutcomeJson}

module _ {V : Type 0} {S : Type 0} (r : ToolCallRequest V) (p : Ports V S) where
  -- The call of a provider is governed: every check has passed.
  pub record IsGoverned (d : ToolDefinition S) (x : PolicyDecision) (provider : Provider V)
      : Type 0 where
    pub resolved_to : resolve_executable r.tenant_id (ref_of r) p.definitions ≡ resolved d
    pub decided : (p.evaluate r d).decision ≡ x
    pub not_denied : is_deny x ≡ false
    pub capable : covers (p.evaluate r d).capabilities d.required_capabilities ≡ true
    pub autonomous : (p.evaluate r d).autonomy_allowed ≡ true
    pub approved : needs_approval r p d x ≡ true → p.verify r d (p.hash_input r.input) ≡ true
    pub valid : accepts_input r p d.input_schema ≡ true
    pub provided : p.resolve d.provider_id d ≡ some provider
    pub ready : p.is_ready d.provider_id d ≡ true

  -- What follows of the policy's checks.
  record Passes (d d' : ToolDefinition S) (y : ToolPolicyDecision) (x : PolicyDecision)
      (provider : Provider V) : Type 0 where
    same : d ≡ d'
    decided : y.decision ≡ x
    not_denied : is_deny x ≡ false
    capable : covers y.capabilities d.required_capabilities ≡ true
    autonomous : y.autonomy_allowed ≡ true
    approved : needs_approval r p d x ≡ true → p.verify r d (p.hash_input r.input) ≡ true
    valid : accepts_input r p d.input_schema ≡ true
    provided : p.resolve d.provider_id d ≡ some provider
    ready : p.is_ready d.provider_id d ≡ true

  check_policy-Passes :
      (d d' : ToolDefinition S) (y : ToolPolicyDecision) (x : PolicyDecision)
      (provider : Provider V)
      → check_policy r p d y ≡ cleared d' x provider
      → Passes d d' y x provider
  unfolding check_policy
  check_policy-Passes d d' y x provider h = ground arith

  check_resolved-IsGoverned :
      (o : ToolResolution S) (d : ToolDefinition S) (x : PolicyDecision) (provider : Provider V)
      → resolve_executable r.tenant_id (ref_of r) p.definitions ≡ o
      → check_resolved r p o ≡ cleared d x provider
      → IsGoverned d x provider
  check_resolved-IsGoverned (resolved d') d x provider e h =
      let passed = check_policy-Passes d' d (p.evaluate r d') x provider h in
      subst (λ d. IsGoverned d x provider) passed.same
        (record {
          resolved_to = e;
          decided = passed.decided;
          not_denied = passed.not_denied;
          capable = passed.capable;
          autonomous = passed.autonomous;
          approved = passed.approved;
          valid = passed.valid;
          provided = passed.provided;
          ready = passed.ready;
        })
  check_resolved-IsGoverned not_found d x provider e h = absurd (ground arith)
  check_resolved-IsGoverned shadowed d x provider e h = absurd (ground arith)
  check_resolved-IsGoverned (not_executable d') d x provider e h = absurd (ground arith)
  check_resolved-IsGoverned version_required d x provider e h = absurd (ground arith)
  check_resolved-IsGoverned ambiguous d x provider e h = absurd (ground arith)

  pub check-IsGoverned :
      (d : ToolDefinition S) (x : PolicyDecision) (provider : Provider V)
      → check r p ≡ cleared d x provider
      → IsGoverned d x provider
  unfolding check
  check-IsGoverned d x provider h =
      check_resolved-IsGoverned (resolve_executable r.tenant_id (ref_of r) p.definitions) d x
        provider refl h

-- The two ways in which the checks end, with the equation.
pub Checked-cases :
    {V S : Type 0} (o : Checked V S)
    → ((result : ToolCallResult V) × (o ≡ refused result))
      ⊎ ((d : ToolDefinition S) × (x : PolicyDecision) × (provider : Provider V) × (o
            ≡ cleared d x provider))
Checked-cases (refused result) = inl (result, refl)
Checked-cases (cleared d x provider) = inr (d, x, provider, refl)

module _ {V : Type 0} {S : Type 0} {R : Type 0} (json : OutcomeJson V R) (c : ToolCall V S R) where
  -- A call of the gateway that changes anything has passed every check: the registry resolved the
  -- definition, the policy did not deny it and granted its capabilities and the autonomy, the approval
  -- that it needs is verified for the input's digest, the input fits the schema, and the provider is
  -- there and ready.
  pub changes-IsGoverned :
      (w : ToolWorld R)
      → (execute json c w).0 ≢ w
      → (d : ToolDefinition S) × (x : PolicyDecision) × (provider : Provider V) × IsGoverned
          c.request c.ports d x provider
  unfolding execute
  changes-IsGoverned w h = elim (Checked-cases (check c.request c.ports)) [
    | inl (result, e) ↦ absurd (h (ap (λ o. (after_checks json c o w).0) e))
    | inr (d, x, provider, e) ↦ (d, x, provider, check-IsGoverned c.request c.ports d x provider e)
  ]
