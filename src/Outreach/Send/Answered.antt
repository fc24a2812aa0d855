-- ===== src/Outreach/Send/Answered.antt =====
-- What an answer of the provider leaves of the stored execution
-- (packages/outreach/src/application/outreach-execution.service.ts).
use vega_revenue_os.Prelude.{
  ℕ, ◌+◌, ◌≡◌, refl, sym, subst, ap, ◌∙◌, true, some, List, [], ◌∷◌, ◌++◌, arith,
}
use vega_revenue_os.Outreach.Effect.{Result, value, early, conflict, thrown, continue}
use vega_revenue_os.Outreach.Repository.{find_row, settled}
use vega_revenue_os.Outreach.Repository.Rows.{save-find}
use vega_revenue_os.Outreach.Execution.State.{Execution}
use vega_revenue_os.Outreach.Execution.Commands.{
  is_non_retryable, mark_failed, mark_delivery_unknown,
}
use vega_revenue_os.Outreach.Execution.Command as Command
use vega_revenue_os.Outreach.Execution.Command.{run}
use vega_revenue_os.Outreach.Send.Identity.{IsRow-id, run-row, run-loaded}
use vega_revenue_os.Outreach.Send.World.{
  Call, retryable, failed, reported, SendWorld, SendResult, ProviderResult, ProviderStatus,
  Provider, executions_table, save_execution,
}
use vega_revenue_os.Outreach.Send.Steps.{
  is_retryable, Step, classification_or, fail_and_release, release_key,
}
use vega_revenue_os.Outreach.Send.Attempt.{
  correct_spend, ambiguous_text, ambiguous_reason, Loaded, request_for, submit, on_failed,
  on_ambiguous, on_status, send_attempt,
}
use vega_revenue_os.Outreach.Send.Duplicate.{text_or}
use vega_revenue_os.Outreach.Send.Closed.{IsClosed, IsClosed-sends_nothing}
use vega_revenue_os.Outreach.Send.Touches.{same_row, sends_to, sends_to-append_same}
use vega_revenue_os.Outreach.Send.Response.{ServiceCall, serve_all}
use vega_revenue_os.Outreach.Send.Audit.{Silent-IsFrame}
use vega_revenue_os.Outreach.Send.Frame.Answer
use vega_revenue_os.Outreach.Send.Apart.{Apart, if-Apart, pure-Apart, release_key-Apart}
use vega_revenue_os.Outreach.Send.Accepted.{
  IsCurrent, failed_past, is_final, is_final_at, on_accepted-IsClosed, save_past-IsClosed,
  unknown_past,
}

module _ {D : Type 0} {L : Type 0} {R : Type 0} (k : Call D L R) where
  rows-IsClosed :
      (id : ℕ) (u v : SendWorld D L R)
      → v.executions ≡ u.executions
      → IsClosed k.ctx id u
      → IsClosed k.ctx id v
  rows-IsClosed id u v e h = record {
    row = h.row;
    stored = ap (find_row executions_table k.ctx id) e ∙ h.stored;
    past = h.past;
  }

  continue-IsClosed :
      {A B : Type 0} (id : ℕ) (f : A → Step k B) (r : SendWorld D L R × Result SendResult A)
      → IsClosed k.ctx id r.0
      → ((a : A) → Apart k (f a))
      → IsClosed k.ctx id (continue f r).0
  continue-IsClosed id f (w, value a) h g = rows-IsClosed id w (f a w).0 ((g a).at w).0 h
  continue-IsClosed id f (w, early e) h g = h
  continue-IsClosed id f (w, conflict) h g = h
  continue-IsClosed id f (w, thrown) h g = h

  on_failed-IsClosed :
      (id approval : ℕ) (x : Execution) (result : ProviderResult D) (w : SendWorld D L R)
      → is_non_retryable (classification_or result.retry_classification) ≡ true
      → IsCurrent k id x w.executions
      → IsClosed k.ctx id (on_failed k id approval x result w).0
  unfolding on_failed fail_and_release run
  on_failed-IsClosed id approval x result w n h =
      let c = classification_or result.retry_classification in
      let why = text_or result.provider_error_message "Provider reported failure" in
      let code = result.provider_error_code in
      let s = k.stamp 2 in
      let fails = Command.mark_failed c why code in
      continue-IsClosed id _ (fail_and_release k c why code x w)
        (save_past-IsClosed k id x (mark_failed c why code s x).0 (λ y. release_key k y) w h
          (run-row k.ctx id fails s x) (run-loaded fails s x)
          (failed_past k c why code s x n h.sending) (λ y. release_key-Apart k y))
        λ u.
          if-Apart k (is_retryable result.retry_classification)
            (pure-Apart k (retryable id result.retry_after_ms))
            (pure-Apart k
              (failed id (reported (text_or result.provider_error_message "Provider failure"))))

  on_ambiguous-IsClosed :
      (id approval : ℕ) (x : Execution) (result : ProviderResult D) (w : SendWorld D L R)
      → IsCurrent k id x w.executions
      → IsClosed k.ctx id (on_ambiguous k id approval x result w).0
  unfolding on_ambiguous run
  on_ambiguous-IsClosed id approval x result w h =
      let why = text_or result.provider_error_message ambiguous_text in
      let s = k.stamp 2 in
      save_past-IsClosed k id x (mark_delivery_unknown why s x).0 _ w h
        (run-row k.ctx id (Command.mark_delivery_unknown why) s x)
        (run-loaded (Command.mark_delivery_unknown why) s x) (unknown_past k why s x h.sending)
        λ z.
          pure-Apart k
            (failed id (reported (text_or result.provider_error_message ambiguous_reason)))

  on_status-IsClosed :
      (id approval : ℕ) (l : Loaded D) (x : Execution) (result : ProviderResult D)
      (status : ProviderStatus) (w : SendWorld D L R)
      → is_final_at result.retry_classification status ≡ true
      → IsCurrent k id x w.executions
      → IsClosed k.ctx id (on_status k id approval l x result status w).0
  on_status-IsClosed id a l x result ProviderStatus.provider_accepted w f h =
      on_accepted-IsClosed k id a l x result w h
  on_status-IsClosed id a l x result ProviderStatus.accepted w f h =
      on_accepted-IsClosed k id a l x result w h
  on_status-IsClosed id a l x result ProviderStatus.delivered w f h =
      on_accepted-IsClosed k id a l x result w h
  on_status-IsClosed id a l x result ProviderStatus.failed w f h =
      on_failed-IsClosed id a x result w f h
  on_status-IsClosed id a l x result ProviderStatus.rate_limited w f h = absurd (ground arith)
  on_status-IsClosed id a l x result ProviderStatus.ambiguous w f h =
      on_ambiguous-IsClosed id a x result w h

  attempt_answered :
      (id approval : ℕ) (provider : Provider D) (l : Loaded D) (y : Execution)
      (result : ProviderResult D) (w : SendWorld D L R)
      → IsCurrent k id y w.executions
      → provider.send (request_for k id approval l (settled executions_table k.ctx y)) ≡ some result
      → is_final result ≡ true
      → IsClosed k.ctx id (send_attempt k id approval provider l y w).0
        × ((send_attempt k id approval provider l y w).0.sent
            ≡ w.sent
              ++ (k.ctx, request_for k id approval l (settled executions_table k.ctx y)) ∷ [])
  unfolding send_attempt save_execution submit
  attempt_answered id approval provider l y result w h e f =
      let (rows, stored, found_it) =
        save-find executions_table k.ctx id y h.row w.executions h.in_row h.stored h.version in
      let z = settled executions_table k.ctx y in
      let request = request_for k id approval l z in
      let w' : SendWorld D L R = record w {
        executions = rows;
        sent = w.sent ++ (k.ctx, request) ∷ [];
      } in
      let current : IsCurrent k id z rows = record {
        row = y;
        stored = found_it;
        in_row = h.in_row;
        version = refl;
        sending = h.sending;
      } in
      let l' = correct_spend k id approval l result in
      let go : send_attempt k id approval provider l y w
          ≡ on_status k id approval l' z result result.status w' =
        rw (stored, e) in
      let same = IsRow-id k.ctx id y h.in_row in
      let quiet =
        (Answer.on_status-Kept k (Silent-IsFrame k.ctx id) l' z result result.status approval
            same).at
          w' in
      (
        subst (λ v. IsClosed k.ctx id v) (sym (ap (λ r. r.0) go))
            (on_status-IsClosed id approval l' z result result.status w' f current),
        ap (λ r. r.0.sent) go ∙ quiet.0.0,
      )

  -- An execution that is SENDING, and is stored with the version it was loaded with: if the provider
  -- accepts the message, answers ambiguously or reports a failure that is final, then after the
  -- attempt and any history of further calls, for it or for others, exactly one more request has been
  -- sent for it, also where a later save of the attempt is refused.
  pub sent_exactly_once :
      (id approval : ℕ) (provider : Provider D) (l : Loaded D) (y : Execution)
      (result : ProviderResult D) (w : SendWorld D L R) (cs : List (ServiceCall D L R))
      → IsCurrent k id y w.executions
      → provider.send (request_for k id approval l (settled executions_table k.ctx y)) ≡ some result
      → is_final result ≡ true
      → sends_to k.ctx id (serve_all cs (send_attempt k id approval provider l y w).0).sent
        ≡ sends_to k.ctx id w.sent + 1
  sent_exactly_once id approval provider l y result w cs h e f =
      let (closed, sent) = attempt_answered id approval provider l y result w h e f in
      let w' = (send_attempt k id approval provider l y w).0 in
      let request = request_for k id approval l (settled executions_table k.ctx y) in
      let (still, same) = IsClosed-sends_nothing cs k.ctx id w' closed in
      let here : same_row k.ctx y.root.id k.ctx id ≡ true =
        let i = IsRow-id k.ctx id y h.in_row in ground arith in
      same ∙ ap (sends_to k.ctx id) sent ∙ sends_to-append_same k.ctx id w.sent k.ctx request here
