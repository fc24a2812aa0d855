-- ===== src/Outreach/Send/Accepted.antt =====
-- What an accepted message leaves of the stored execution
-- (packages/outreach/src/application/outreach-execution.service.ts).
use vega_revenue_os.Prelude.{
  ℕ, String, ◌≡◌, refl, sym, subst, ap, ◌∙◌, Bool, true, false, Option, some, List, arith,
}
use vega_revenue_os.Aggregate.{Stamp, Outcome, ok, fail}
use vega_revenue_os.Outreach.Effect.{◌>>=◌}
use vega_revenue_os.Outreach.Repository.{find_row, is_row, settled}
use vega_revenue_os.Outreach.Repository.Rows.{save-find}
use vega_revenue_os.Outreach.Execution.Status.{is_sending}
use vega_revenue_os.Outreach.Execution.State.{Execution, ExecutionError, RetryClassification}
use vega_revenue_os.Outreach.Execution.Commands.{
  is_non_retryable, mark_provider_accepted, mark_delivery_pending, mark_failed,
  mark_delivery_unknown,
}
use vega_revenue_os.Outreach.Execution.Command as Command
use vega_revenue_os.Outreach.Execution.Command.{run}
use vega_revenue_os.Outreach.Send.Identity.{run-row, run-loaded}
use vega_revenue_os.Outreach.Execution.Safety.{is_past}
use vega_revenue_os.Outreach.Send.World.{
  Call, SendWorld, ProviderResult, ProviderStatus, executions_table, save_execution, save_campaign,
}
use vega_revenue_os.Outreach.Send.Steps.{
  Step, checked, classification_or, advance_sequence, mark_idempotency_completed,
}
use vega_revenue_os.Outreach.Send.Attempt.{Loaded, on_accepted}
use vega_revenue_os.Outreach.Send.Closed.{IsClosed}
use vega_revenue_os.Outreach.Send.Apart.{Apart, finish-Apart}

-- The answers after which the key is not given free, and a failure that is final.
abbrev pub is_final_at : Option RetryClassification → ProviderStatus → Bool
is_final_at c ProviderStatus.provider_accepted = true
is_final_at c ProviderStatus.accepted = true
is_final_at c ProviderStatus.delivered = true
is_final_at c ProviderStatus.ambiguous = true
is_final_at c ProviderStatus.failed = is_non_retryable (classification_or c)
is_final_at c ProviderStatus.rate_limited = false

abbrev pub is_final : {D : Type 0} → ProviderResult D → Bool
is_final result = is_final_at result.retry_classification result.status

module _ {D : Type 0} {L : Type 0} {R : Type 0} (k : Call D L R) where
  -- An execution that is SENDING and stored, with the version that it was loaded with.
  pub record IsCurrent (id : ℕ) (y : Execution) (rows : List Execution) : Type 0 where
    pub row : Execution
    pub stored : find_row executions_table k.ctx id rows ≡ some row
    pub in_row : is_row executions_table k.ctx id y ≡ true
    pub version : y.root.loaded_version ≡ some row.root.version
    pub sending : is_sending y.status ≡ true

  -- Saved after a command that left SENDING, and with what follows apart.
  pub save_past-IsClosed :
      {A : Type 0} (id : ℕ) (y x : Execution) (f : Execution → Step k A) (w : SendWorld D L R)
      → IsCurrent id y w.executions
      → is_row executions_table k.ctx id x ≡ is_row executions_table k.ctx id y
      → x.root.loaded_version ≡ y.root.loaded_version
      → is_past x.status ≡ true
      → ((z : Execution) → Apart k (f z))
      → IsClosed k.ctx id ((save_execution k.ctx x >>= f) w).0
  unfolding save_execution
  save_past-IsClosed id y x f w h r v p g =
      let (rows, e, found_it) =
        save-find executions_table k.ctx id x h.row w.executions (r ∙ h.in_row) h.stored
          (v ∙ h.version) in
      let z = settled executions_table k.ctx x in
      let w' : SendWorld D L R = record w { executions = rows } in
      let next : ((save_execution k.ctx x >>= f) w).0 ≡ (f z w').0 = rw (e) in
      let kept = ((g z).at w').0 in
      record {
        row = x;
        stored =
            ap (λ v. find_row executions_table k.ctx id v.executions) next
            ∙ ap (find_row executions_table k.ctx id) kept
            ∙ found_it;
        past = p;
      }

  checked_ok :
      {A : Type 0} (id : ℕ) (r : Execution × Outcome ExecutionError) (f : Execution → Step k A)
      (w : SendWorld D L R)
      → r.1 ≡ ok
      → (checked k id r >>= f) w ≡ f r.0 w
  checked_ok id (x, ok) f w e = refl
  checked_ok id (x, fail g) f w e = absurd (ground arith)

  accepted_ok :
      (a b c : Option String) (s : Stamp) (x : Execution)
      → is_sending x.status ≡ true
      → (mark_provider_accepted a b c s x).1 ≡ ok
  unfolding mark_provider_accepted
  accepted_ok a b c s x h = ground arith

  accepted_past :
      (a b c : Option String) (s t : Stamp) (x : Execution)
      → is_sending x.status ≡ true
      → is_past (mark_delivery_pending t (mark_provider_accepted a b c s x).0).0.status ≡ true
  unfolding mark_provider_accepted mark_delivery_pending
  accepted_past a b c s t x h = ground arith

  pub on_accepted-IsClosed :
      (id approval : ℕ) (l : Loaded D) (x : Execution) (result : ProviderResult D)
      (w : SendWorld D L R)
      → IsCurrent id x w.executions
      → IsClosed k.ctx id (on_accepted k id approval l x result w).0
  unfolding on_accepted run
  on_accepted-IsClosed id approval l x result w h =
      let p = result.provider_message_id in
      let i = result.internet_message_id in
      let c = result.provider_error_code in
      let s = k.stamp 2 in
      let t = k.stamp 3 in
      let y = (mark_provider_accepted p i c s x).0 in
      let z = (mark_delivery_pending t y).0 in
      let accept = Command.mark_provider_accepted p i c in
      let go =
        checked_ok id (mark_provider_accepted p i c s x)
          (λ y. save_execution k.ctx (mark_delivery_pending t y).0 >>= λ z.
            save_campaign k.ctx l.campaign >>= λ c.
            mark_idempotency_completed k z result >>= λ u. advance_sequence k l.sequence z)
          w (accepted_ok p i c s x h.sending) in
      subst (λ v. IsClosed k.ctx id v) (sym (ap (λ r. r.0) go))
        (save_past-IsClosed id x z
          (λ z. save_campaign k.ctx l.campaign >>= λ c.
            mark_idempotency_completed k z result >>= λ u. advance_sequence k l.sequence z)
          w h (run-row k.ctx id Command.mark_delivery_pending t y ∙ run-row k.ctx id accept s x)
          (run-loaded Command.mark_delivery_pending t y ∙ run-loaded accept s x)
          (accepted_past p i c s t x h.sending) (λ z. finish-Apart k l z result))

  pub failed_past :
      (c : RetryClassification) (why : String) (code : Option String) (s : Stamp) (x : Execution)
      → is_non_retryable c ≡ true
      → is_sending x.status ≡ true
      → is_past (mark_failed c why code s x).0.status ≡ true
  unfolding mark_failed
  failed_past c why code s x n h = ground arith

  pub unknown_past :
      (why : String) (s : Stamp) (x : Execution)
      → is_sending x.status ≡ true
      → is_past (mark_delivery_unknown why s x).0.status ≡ true
  unfolding mark_delivery_unknown
  unknown_past why s x h = ground arith
