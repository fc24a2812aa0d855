-- ===== src/Tool/Tests.antt =====
-- Concrete calls of the tool gateway (packages/tool-gateway/src), and what the theorems state of them.
use vega_revenue_os.Prelude.{
  ℕ, ◌+◌, ◌≤◌, ◌≡◌, refl, ap, ◌∙◌, subst, Bool, true, false, Option, none, some, List, [], ◌∷◌,
  length, arith, ◌≢◌, ◌==◌, if◌then◌else◌, if-cases,
}
use mathlib.Core.Option.{some-injective}
use vega_revenue_os.Idempotency.Store.{RecordKey, get, upsert, same_key}
use vega_revenue_os.Tool.Contract.{
  ToolDefinition, ToolCallRequest, ToolCallResult, ToolCallStatus, ToolLifecycle, SideEffectClass,
  ToolProviderOutcome,
}
use vega_revenue_os.Tool.Resolution.{resolved, find, has_id}
use vega_revenue_os.Tool.Registry.{
  RegistryStep, registers, moves, enables, registry_steps, resolve_executable,
}
use vega_revenue_os.Tool.Checks.{Provider, Ports, PolicyDecision}
use vega_revenue_os.Tool.Attempts.{has_code}
use vega_revenue_os.Tool.Records.{ToolWorld}
use vega_revenue_os.Tool.Execute.{execute, execute_all}
use vega_revenue_os.Tool.Outcome.{OutcomeJson, ToolCall}
use vega_revenue_os.Tool.Submissions.{side_effects}
use vega_revenue_os.Tool.Governed.{IsGoverned, changes-IsGoverned}
use vega_revenue_os.Tool.Once.{submitted_once}
use vega_revenue_os.Tool.Performed.{HasHonestProviders}
use vega_revenue_os.Tool.Shadowing.{IsChosen, resolve_executable-IsChosen}
use vega_revenue_os.Tool.Lifecycle.{Evolves, contract_fixed}

-- A stored outcome, as its two members; `null` has neither.
abbrev Stored : Type 0
Stored = Option (Bool × ToolCallResult ℕ)

abbrev flag_of : Stored → Option Bool
flag_of none = none
flag_of (some r) = some r.0

abbrev result_in : Stored → Option (ToolCallResult ℕ)
result_in none = none
result_in (some r) = some r.1

abbrev no_result : ToolCallResult ℕ
no_result = record {
  tool_call_id = 0;
  status = ToolCallStatus.failed;
  output = none;
  error = none;
  schema_valid = true;
  provider = none;
  retry_count = 0;
  audit_id = none;
}

abbrev json : OutcomeJson ℕ Stored
json = record {
  json = record {
    null = none;
    with_submitted = λ b. some (b, no_result);
    submitted = flag_of;
    submitted-with_submitted = λ b. refl;
  };
  outcome_of = λ b r. some (b, r);
  call_result = result_in;
  submitted-outcome_of = λ b r. refl;
}

abbrev mailer : ToolLifecycle → ToolDefinition ℕ
mailer lifecycle = record {
  tool_definition_id = "d1";
  tool_id = "mail";
  version = "1";
  tenant_id = none;
  input_schema = none;
  output_schema = some 1;
  required_capabilities = "send" ∷ [];
  side_effect_class = SideEffectClass.irreversible_external;
  required_approval = true;
  provider_id = 3;
  enabled = true;
  max_retries = 2;
  idempotency_required = true;
  lifecycle = lifecycle;
}

abbrev request : ToolCallRequest ℕ
request = record {
  tool_call_id = 50;
  tool_id = "mail";
  tool_version = "1";
  tenant_id = 7;
  idempotency_key = some 42;
  tool_definition_id = none;
  action = none;
  input = 5;
}

-- The first attempt is known not to have been submitted, the second succeeds.
abbrev not_sent : ToolProviderOutcome ℕ
not_sent = record {
  submitted = false;
  result_known = true;
  retryable = true;
  output = none;
  error_code = some "NOT_SUBMITTED";
}

abbrev sent : ToolProviderOutcome ℕ
sent = record {
  submitted = true;
  result_known = true;
  retryable = false;
  output = some 9;
  error_code = none;
}

abbrev outcome : ℕ → ToolProviderOutcome ℕ
outcome i = if i == 1 then not_sent else sent

abbrev ports_with : Bool → Ports ℕ ℕ
ports_with valid = record {
  definitions = mailer ToolLifecycle.active ∷ [];
  evaluate = λ r d. record {
    decision = PolicyDecision.allow;
    capabilities = "read" ∷ "send" ∷ [];
    autonomy_allowed = true;
  };
  hash_input = λ v. "digest";
  verify = λ r d hash. true;
  validate = λ v schema. valid;
  resolve = λ id d. some (record { execute = λ i r. some (outcome i) });
  is_ready = λ id d. true;
}

abbrev call_with : Bool → ToolCall ℕ ℕ Stored
call_with valid = record {
  request = request;
  ports = ports_with valid;
  scope_of = λ tool action. 1;
  rejects = λ a. false;
  now = 10;
  has_audit = true;
  fresh_id = 70;
}

abbrev call : ToolCall ℕ ℕ Stored
call = call_with true

abbrev start : ToolWorld Stored
start = record { table = []; invocations = []; attempts = []; audit = []; calls = [] }

abbrev key : RecordKey
key = record { tenant_id = 7; scope = 1; key = 42 }

abbrev status_of : ToolWorld Stored × Option (ToolCallResult ℕ) → Option ToolCallStatus
status_of (w, none) = none
status_of (w, some r) = some r.status

-- Two attempts and one side effect, and a second call adds none.
attempts_made : length (execute_all json (call ∷ call ∷ []) start).calls ≡ 2
unfolding execute_all upsert same_key
attempts_made = refl

effects_made : side_effects key (execute_all json (call ∷ call ∷ []) start).calls ≡ 1
unfolding execute_all side_effects upsert same_key
effects_made = refl

-- An output that violates its schema is refused to the caller, and given to the next one as a success.
violation_refused :
    status_of (execute json (call_with false) start) ≡ some ToolCallStatus.validation_error
unfolding execute upsert same_key
violation_refused = refl

violation_returned :
    status_of (execute json (call_with false) (execute json (call_with false) start).0)
    ≡ some ToolCallStatus.success
unfolding execute upsert same_key
violation_returned = refl

outcome_fair :
    (i : ℕ) → (outcome i).submitted ≡ true → has_code "NOT_SUBMITTED" (outcome i).error_code ≡ false
outcome_fair i =
    if-cases
      (λ (o : ToolProviderOutcome ℕ).
        o.submitted ≡ true → has_code "NOT_SUBMITTED" o.error_code ≡ false)
      (i == 1) (λ f s. absurd (ground arith)) (λ f s. refl)

abbrev mail_provider : Provider ℕ
mail_provider = record { execute = λ i r. some (outcome i) }

honest : HasHonestProviders call
honest d provider found i o came =
    let run =
      ap (λ (q : Provider ℕ). q.execute i request) (some-injective mail_provider provider found) in
    subst
      (λ (o : ToolProviderOutcome ℕ).
        o.submitted ≡ true → has_code "NOT_SUBMITTED" o.error_code ≡ false)
      (some-injective (outcome i) o (run ∙ came)) (outcome_fair i)

submitted_once_example : side_effects key (execute_all json (call ∷ call ∷ []) start).calls ≤ 0 + 1
unfolding side_effects get
submitted_once_example = submitted_once json key (call ∷ call ∷ []) start (honest, (honest, tt))

call_changes : (execute json call start).0 ≢ start
unfolding execute upsert same_key
call_changes e =
    let one = ap (λ (w : ToolWorld Stored). length w.calls) e in absurd (omega (arith, one))

changes-IsGoverned_example :
    (d : ToolDefinition ℕ) × (x : PolicyDecision) × (provider : Provider ℕ) × IsGoverned request
      (ports_with true)
      d
      x
      provider
changes-IsGoverned_example = changes-IsGoverned json call start call_changes

mailer_resolved :
    resolve_executable 7
      (record { tool_definition_id = none; tool_id = "mail"; version = "1" })
      (mailer ToolLifecycle.active ∷ [])
    ≡ resolved (mailer ToolLifecycle.active)
unfolding resolve_executable
mailer_resolved = refl

resolve_executable-IsChosen_example :
    IsChosen 7
      (record { tool_definition_id = none; tool_id = "mail"; version = "1" })
      (mailer ToolLifecycle.active ∷ [])
      (mailer ToolLifecycle.active)
resolve_executable-IsChosen_example =
    resolve_executable-IsChosen 7
      (record { tool_definition_id = none; tool_id = "mail"; version = "1" })
      (mailer ToolLifecycle.active ∷ []) (mailer ToolLifecycle.active) mailer_resolved

abbrev tenant_mailer : ToolDefinition ℕ
tenant_mailer = record (mailer ToolLifecycle.draft) { tenant_id = some 7 }

-- A definition is activated, another one is registered under its id in vain, and it is retired.
abbrev steps : List (RegistryStep ℕ)
steps =
    moves 7 "d1" ToolLifecycle.active
    ∷ registers (mailer ToolLifecycle.draft)
    ∷ enables 7 "d1" false
    ∷ moves 7 "d1" ToolLifecycle.deprecated
    ∷ moves 7 "d1" ToolLifecycle.active
    ∷ []

there : find (has_id "d1") (tenant_mailer ∷ []) ≡ some tenant_mailer
unfolding find
there = refl

contract_fixed_example :
    (d' : ToolDefinition ℕ) × (find (has_id "d1") (registry_steps steps (tenant_mailer ∷ []))
      ≡ some d')
    × Evolves tenant_mailer d'
contract_fixed_example = contract_fixed steps "d1" tenant_mailer (tenant_mailer ∷ []) there
