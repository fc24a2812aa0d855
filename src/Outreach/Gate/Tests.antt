-- ===== src/Outreach/Gate/Tests.antt =====
-- Concrete evaluations of the gate (packages/outreach/src/safety/send-safety-gate.ts), and what the
-- theorems state of them.
use vega_revenue_os.Prelude.{
  arith, ℕ, zero, suc, ◌+◌, ◌≤◌, ◌≡◌, ◌↔◌, Bool, true, false, Option, none, some, List, [], ◌∷◌,
}
use vega_revenue_os.Idempotency.Claims.{chance}
use vega_revenue_os.Idempotency.Tests.{flags}
use vega_revenue_os.Outreach.Execution.Status.{ExecutionStatus}
use vega_revenue_os.Outreach.Gate.Decision.{ApprovalOutcome, allow}
use vega_revenue_os.Outreach.Gate.Limits.{RateAnswer, check_windows}
use vega_revenue_os.Outreach.Gate.Evaluate.{Ports, GateInput, GateWorld, send_key, evaluate}
use vega_revenue_os.Outreach.Gate.Effect.{IsCleared, Effects, evaluate_allows_iff, evaluate-Effects}
use vega_revenue_os.Outreach.Gate.Once.{GateStep, evaluation, run_gate, gate_releases, allows_bound}
use vega_revenue_os.Outreach.Gate.Redis.{
  Counters, AllAllow, AllLast, redis_is_allowed, check_windows_iff,
}
use vega_revenue_os.Outreach.Execution.State.{Channel}
use vega_revenue_os.Outreach.Tests.{cents, execution, campaign}

-- A limiter that counts its calls and refuses only a limit of 0.
abbrev count_calls : ℕ → ℕ → ℕ × RateAnswer
count_calls zero n = (n + 1, RateAnswer.refused 2000)
count_calls (suc m) n = (n + 1, RateAnswer.allowed)

abbrev pub ports : Ports ℕ
ports = record {
  is_allowlisted = λ tenant channel address. true;
  is_suppressed = λ tenant address. false;
  verify = λ tenant request. ApprovalOutcome.approved;
  limiter = λ tenant channel limit seconds n. count_calls limit n;
  rate_limit_config =
      some (record { per_second = some 5; per_minute = none; per_hour = none; per_day = some 9 });
}

abbrev pub input : GateInput ℕ
input = record {
  tenant_id = 7;
  campaign = campaign;
  execution = execution ExecutionStatus.sending 0;
  recipient_address = "a@b.example";
  approval_id = 9;
  action_type = "OUTREACH_EMAIL_SEND";
  estimated_cost_usd = 10;
}

abbrev pub world : GateWorld ℕ (Option Bool)
world = record { limits = 0; table = []; audit = [] }

evaluate_allows_iff_example :
    (evaluate cents flags 1000 ports input world).decision ≡ allow
    ↔ IsCleared cents flags 1000 ports input world
evaluate_allows_iff_example = evaluate_allows_iff cents flags 1000 ports input world

evaluate-Effects_example :
    Effects cents flags 1000 input world (evaluate cents flags 1000 ports input world)
evaluate-Effects_example = evaluate-Effects cents flags 1000 ports input world

-- Two workers evaluate the same send.
abbrev steps : List (GateStep ℕ ℕ (Option Bool))
steps = evaluation 1000 ports input ∷ evaluation 1001 ports input ∷ []

allows_bound_example :
    (run_gate cents flags (send_key 7 (execution ExecutionStatus.sending 0)) steps world).1
    ≤ gate_releases flags (send_key 7 (execution ExecutionStatus.sending 0)) steps
      + chance flags (send_key 7 (execution ExecutionStatus.sending 0)) []
allows_bound_example =
    allows_bound cents flags (send_key 7 (execution ExecutionStatus.sending 0)) steps world

abbrev two_windows : List (Option ℕ × ℕ)
two_windows = (some 5, 1) ∷ (none, 60) ∷ (some 9, 86400) ∷ []

abbrev no_counters : Counters
no_counters = λ tenant channel. none

two_windows-AllLast : AllLast two_windows
two_windows-AllLast = (omega arith, (omega arith, (omega arith, tt)))

check_windows_iff_example :
    ((check_windows (redis_is_allowed 1000) 7 Channel.email 1000 two_windows no_counters).1 ≡ none)
    ↔ AllAllow 0 two_windows
check_windows_iff_example =
    check_windows_iff 1000 7 Channel.email two_windows no_counters two_windows-AllLast
