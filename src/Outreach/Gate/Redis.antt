-- ===== src/Outreach/Gate/Redis.antt =====
-- The gate's rate limits over the Redis limiter
-- (packages/infrastructure/src/cache/redis-cache.ts, packages/outreach/src/safety/send-safety-gate.ts).
-- The scope of the gate is fixed, so a counter belongs to a tenant and a channel; the key of a
-- counter does not hold the window.
use vega_revenue_os.Prelude.{
  ℕ, suc, ◌+◌, ◌*◌, ◌≡◌, ◌↔◌, ◌<◌, refl, ap, sym, ◌≢◌, ◌∙◌, Bool, true, false, ◌&&◌, Option, none,
  some, List, [], ◌∷◌, ◌==◌, leb, if◌then◌else◌, Bool-cases, inl, inr, arith,
}
use vega_revenue_os.Outreach.Execution.State.{Channel, email, linkedin, calendar}
use vega_revenue_os.Outreach.Gate.Limits.{RateLimiter, allowed, refused, check_windows}

-- A counter and the time at which Redis drops it.
pub record Counter : Type 0 where
  pub count : ℕ
  pub expires_at : ℕ

-- The counters of the store, one for each tenant and channel.
abbrev pub Counters : Type 0
Counters = ℕ → Channel → Option Counter

abbrev same_channel : Channel → Channel → Bool
same_channel email email = true
same_channel linkedin linkedin = true
same_channel calendar calendar = true
same_channel _ _ = false

-- What `INCR` reads: a counter that has expired is gone.
abbrev pub live_count : ℕ → Option Counter → ℕ
live_count now none = 0
live_count now (some c) = if leb c.expires_at now then 0 else c.count

-- `INCR` and `EXPIRE` in one transaction.
abbrev store_counter : ℕ → Channel → Counter → Counters → Counters
store_counter tenant channel c cs t x =
    if t == tenant && same_channel x channel then some c else cs t x

-- `RedisRateLimiter.isAllowed` at the time `now`, of a server that answers.
unfoldable pub redis_is_allowed : ℕ → RateLimiter Counters
redis_is_allowed now tenant channel limit seconds cs =
    let count = suc (live_count now (cs tenant channel)) in
    let reset_at = now + seconds * 1000 in
    (
      store_counter tenant channel (record { count = count; expires_at = reset_at }) cs,
      if leb count limit then allowed else refused reset_at,
    )

-- The counter is stored, as the counting of the next window reads it.
stored :
    (now tenant : ℕ) (channel : Channel) (limit seconds : ℕ) (cs : Counters)
    → 0 < seconds
    → live_count now ((redis_is_allowed now tenant channel limit seconds cs).0 tenant channel)
      ≡ suc (live_count now (cs tenant channel))
unfolding redis_is_allowed
stored now tenant email limit seconds cs h = ground arith
stored now tenant linkedin limit seconds cs h = ground arith
stored now tenant calendar limit seconds cs h = ground arith

-- Each configured limit is above the count that it meets, from `n` on.
abbrev pub AllAllow : ℕ → List (Option ℕ × ℕ) → Type 0
AllAllow n [] = Unit
AllAllow n ((none, seconds) ∷ ws) = AllAllow n ws
AllAllow n ((some limit, seconds) ∷ ws) = (n < limit) × AllAllow (suc n) ws

-- Every window lasts some seconds.
abbrev pub AllLast : List (Option ℕ × ℕ) → Type 0
AllLast [] = Unit
AllLast ((limit, seconds) ∷ ws) = (0 < seconds) × AllLast ws

module _ (now tenant : ℕ) (channel : Channel) where
  passed_window :
      (limit seconds : ℕ) (ws : List (Option ℕ × ℕ)) (cs : Counters)
      → leb (suc (live_count now (cs tenant channel))) limit ≡ true
      → (check_windows (redis_is_allowed now) tenant channel now ((some limit, seconds) ∷ ws) cs).1
        ≡ (check_windows
            (redis_is_allowed now)
            tenant
            channel
            now
            ws
            (redis_is_allowed now tenant channel limit seconds cs).0).1
  unfolding check_windows redis_is_allowed
  passed_window limit seconds ws cs h = rw (h, check_windows)

  refused_window :
      (limit seconds : ℕ) (ws : List (Option ℕ × ℕ)) (cs : Counters)
      → leb (suc (live_count now (cs tenant channel))) limit ≡ false
      → (check_windows (redis_is_allowed now) tenant channel now ((some limit, seconds) ∷ ws) cs).1
        ≢ none
  unfolding check_windows redis_is_allowed
  refused_window limit seconds ws cs h = λ e. cc (rw (h, check_windows) at e)

  -- The windows let a send pass exactly if the limit of the first configured one is above the
  -- channel's live counter, that of the second above it by more than one, and so on: all windows
  -- count in one counter. Every window is to last some seconds.
  pub check_windows_iff :
      (ws : List (Option ℕ × ℕ)) (cs : Counters)
      → AllLast ws
      → ((check_windows (redis_is_allowed now) tenant channel now ws cs).1 ≡ none)
        ↔ AllAllow (live_count now (cs tenant channel)) ws
  unfolding check_windows
  check_windows_iff [] cs last = ((λ e. tt), (λ u. refl))
  check_windows_iff ((none, seconds) ∷ ws) cs last = check_windows_iff ws cs last.1
  check_windows_iff ((some limit, seconds) ∷ ws) cs last =
      let cs' = (redis_is_allowed now tenant channel limit seconds cs).0 in
      let ih = check_windows_iff ws cs' last.1 in
      let next = stored now tenant channel limit seconds cs last.0 in
      let same = ap (λ n. AllAllow n ws) next in
      elim (Bool-cases (leb (suc (live_count now (cs tenant channel))) limit)) [
        | inl h ↦
            let pass = passed_window limit seconds ws cs h in
            (
              λ e. (ground (arith, h), rw (← next) (ih.0 (sym pass ∙ e))),
              λ (a, b). pass ∙ ih.1 (rw next b),
            )
        | inr h ↦ (
          λ e. absurd (refused_window limit seconds ws cs h e),
          λ (a, b). absurd (ground (arith, h, a)),
        )
      ]
