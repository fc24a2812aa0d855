-- ===== src/Outreach/Gate/Limits.antt =====
-- The rate limits of the gate (packages/outreach/src/safety/send-safety-gate.ts). The rate limiter
-- is a port with a state `L` of its own.
use vega_revenue_os.Prelude.{ℕ, ◌-◌, Option, none, some, List, [], ◌∷◌}
use vega_revenue_os.Outreach.Execution.State.{Channel}
use vega_revenue_os.Outreach.Gate.Decision.{DenialCode, rate_limited, redis_unavailable}

pub record RateLimitConfig : Type 0 where
  pub per_second : Option ℕ
  pub per_minute : Option ℕ
  pub per_hour : Option ℕ
  pub per_day : Option ℕ

-- What `isAllowed` answers, or that it throws.
pub data RateAnswer : Type 0 where
  allowed unavailable : RateAnswer
  refused : (reset_at : ℕ) → RateAnswer

-- `IRateLimiter.isAllowed` for a tenant, a channel, a limit and a window in seconds.
abbrev pub RateLimiter : Type 0 → Type 0
RateLimiter L = ℕ → Channel → ℕ → ℕ → L → L × RateAnswer

-- What `checkRateLimits` returns when it is not null.
pub record Refusal : Type 0 where
  pub code : DenialCode
  pub retry_after_ms : ℕ

-- The windows in seconds, in the order in which they are asked.
abbrev pub windows : RateLimitConfig → List (Option ℕ × ℕ)
windows c = (c.per_second, 1) ∷ (c.per_minute, 60) ∷ (c.per_hour, 3600) ∷ (c.per_day, 86400) ∷ []

-- `result.allowed` or not, or an exception; `Math.max(0, resetAt - now)` is the cut-off difference.
abbrev refusal_of : ℕ → RateAnswer → Option Refusal
refusal_of now allowed = none
refusal_of now (refused reset_at) =
    some (record { code = rate_limited; retry_after_ms = reset_at - now })
refusal_of now unavailable = some (record { code = redis_unavailable; retry_after_ms = 0 })

module _ {L : Type 0} (limiter : RateLimiter L) (tenant : ℕ) (channel : Channel) (now : ℕ) where
  -- The loop of `checkRateLimits`: it stops at the first window that refuses.
  unfoldable pub check_windows : List (Option ℕ × ℕ) → L → L × Option Refusal
  check_windows [] l = (l, none)
  check_windows ((none, seconds) ∷ ws) l = check_windows ws l
  check_windows ((some limit, seconds) ∷ ws) l =
      let answer = limiter tenant channel limit seconds l in
      let rest = check_windows ws answer.0 in
      elim (refusal_of now answer.1) [ none ↦ rest | some r ↦ (answer.0, some r) ]

  -- `checkRateLimits`.
  unfoldable pub check_rate_limits : Option RateLimitConfig → L → L × Option Refusal
  unfolding check_windows
  check_rate_limits none l = (l, none)
  check_rate_limits (some config) l = check_windows (windows config) l
