-- ===== src/Outreach/Send/Stale.antt =====
-- A call that goes on from an execution which another worker has saved since
-- (packages/outreach/src/application/outreach-execution.service.ts,
-- packages/outreach/src/infrastructure/postgres-message-execution-repository.ts).
use vega_revenue_os.Prelude.{
  ℕ, ◌≡◌, ◌∙◌, refl, subst, ap, Bool, true, false, Option, none, some, if◌then◌else◌,
}
use vega_revenue_os.Aggregate.{Outcome, ok, fail}
use vega_revenue_os.Outreach.Effect.{
  Result, value, early, conflict, thrown, Any, Ends, Holds, bind-Ends, catch_conflict-Ends,
  body-Keeps, pure, found, guard, ◌>>=◌, catch_conflict,
}
use vega_revenue_os.Outreach.Execution.Status.{is_pending_approval, is_approved, is_sending}
use vega_revenue_os.Outreach.Execution.State.{Execution, ExecutionError}
use vega_revenue_os.Outreach.Execution.Commands.{approve, mark_sending}
use vega_revenue_os.Outreach.Execution.Command as Command
use vega_revenue_os.Outreach.Execution.Command.{run}
use vega_revenue_os.Outreach.Sequence.State.{Sequence}
use vega_revenue_os.Outreach.Campaign.State.{Campaign}
use vega_revenue_os.Outreach.Gate.Decision.{SafetyDecision, allow, deny, retryable}
use vega_revenue_os.Outreach.Gate.Evaluate.{evaluate}
use vega_revenue_os.Outreach.Send.World.{
  Call, SendWorld, SendResult, completed, failed, at_status, step_not_found, recovery_failed,
  not_ready,
}
use vega_revenue_os.Outreach.Send.Identity.{IsRow-id}
use vega_revenue_os.Outreach.Send.Steps.{Step, checked, ready_to_send, find_step}
use vega_revenue_os.Outreach.Send.Recovery.{recover_and_verify_recipient}
use vega_revenue_os.Outreach.Send.Duplicate.{is_positive_terminal, is_terminal_failure, error_or}
use vega_revenue_os.Outreach.Send.Attempt.{Loaded}
use vega_revenue_os.Outreach.Send.Execute.{
  Sendable, send_allowed, gate_input, ask_gate, on_decision, ask_and_act, send_ready, send_loaded,
  resolve_from_authoritative_state, continue_send,
}
use vega_revenue_os.Outreach.Send.Audit.{Silent, Silent-IsFrame}
use vega_revenue_os.Outreach.Send.Moved.{IsMoved, IsHeld, run-IsHeld, send_by-moved}
use vega_revenue_os.Outreach.Send.Frame.Whole

module _ {D : Type 0} {L : Type 0} {R : Type 0} (k : Call D L R) (id approval version : ℕ) where
  abbrev Held : Execution → Type 0
  Held x = IsHeld k.ctx id version x

  abbrev Moved : SendWorld D L R → Type 0
  Moved w = IsMoved k.ctx id version w.executions

  -- Nothing at all is changed.
  abbrev Quiet : {A : Type 0} → (A → Type 0) → Step k A → Type 0
  Quiet Q m = Ends {E = SendResult} (λ (u v : SendWorld D L R). v ≡ u) Q m

  bind-Quiet :
      {A B : Type 0} {m : Step k A} {f : A → Step k B} (Q : A → Type 0) (O : B → Type 0)
      → Quiet Q m
      → ((a : A) → Q a → Quiet O (f a))
      → Quiet O (m >>= f)
  bind-Quiet =
      bind-Ends SendResult (λ u v. v ≡ u) (λ u v. v ≡ u) (λ u v. v ≡ u) (λ u v w p q. q ∙ p)
        (λ u v p. p)

  pure-Quiet : (x : Execution) → Held x → Quiet Held (pure x)
  pure-Quiet x h = record { at = λ w. (refl, h) }

  checked-Quiet : (r : Execution × Outcome ExecutionError) → Held r.0 → Quiet Held (checked k id r)
  checked-Quiet (x, ok) h = record { at = λ w. (refl, h) }
  checked-Quiet (x, fail e) h = record { at = λ w. (refl, tt) }

  choose-Quiet :
      {m n : Step k Execution} (b : Bool)
      → Quiet Held m
      → Quiet Held n
      → Quiet Held (if b then m else n)
  choose-Quiet true h g = h
  choose-Quiet false h g = g

  guard-Quiet : (b : Bool) (e : SendResult) → Quiet Any (guard b e)
  guard-Quiet true e = record { at = λ w. (refl, tt) }
  guard-Quiet false e = record { at = λ w. (refl, tt) }

  found-Quiet : {A : Type 0} (e : SendResult) (o : Option A) → Quiet Any (found e o)
  found-Quiet e none = record { at = λ w. (refl, tt) }
  found-Quiet e (some a) = record { at = λ w. (refl, tt) }

  ready_to_send-Quiet : (x : Execution) → Held x → Quiet Held (ready_to_send k id approval x)
  unfolding ready_to_send run
  ready_to_send-Quiet x h =
      bind-Quiet Held Held
        (choose-Quiet (is_pending_approval x.status)
          (checked-Quiet (approve approval (k.stamp 0) x)
            (run-IsHeld k.ctx id version (Command.approve approval) (k.stamp 0) x h))
          (pure-Quiet x h))
        λ y g.
          bind-Quiet Held Held
            (choose-Quiet (is_approved y.status)
              (checked-Quiet (mark_sending (k.stamp 1) y)
                (run-IsHeld k.ctx id version Command.mark_sending (k.stamp 1) y g))
              (pure-Quiet y g))
            λ z f.
              bind-Quiet Any Held
                (guard-Quiet (is_sending z.status) (failed id (not_ready z.status)))
                λ u t. pure-Quiet z f

  Any-result : {A : Type 0} (r : Result SendResult A) → Holds Any r
  Any-result (value a) = tt
  Any-result (early e) = tt
  Any-result conflict = tt
  Any-result thrown = tt

  -- No request is sent, if no row has the version.
  abbrev Unsent : SendWorld D L R → SendWorld D L R → Type 0
  Unsent u v = Moved u → v.sent ≡ u.sent

  decided-Unsent :
      (l : Loaded D) (x : Execution) (d : SafetyDecision) (w : SendWorld D L R)
      → Held x
      → Moved w
      → (on_decision k id approval l x d w).0.sent ≡ w.sent
  unfolding on_decision send_allowed
  decided-Unsent l x allow w h m =
      ap (λ (v : SendWorld D L R). v.sent)
        (send_by-moved k id approval version (k.select l.step.channel) l x w h m)
  decided-Unsent l x (deny code) w h m =
      ((Whole.on_refusal-Kept k (Silent-IsFrame k.ctx id) approval l x (deny code)
          (IsRow-id k.ctx id x h.in_row) refl).at
        w).0.0
  decided-Unsent l x (retryable code ms) w h m =
      ((Whole.on_refusal-Kept k (Silent-IsFrame k.ctx id) approval l x (retryable code ms)
          (IsRow-id k.ctx id x h.in_row) refl).at
        w).0.0

  asked-Unsent :
      (l : Loaded D) (x : Execution) → Held x → Ends Unsent Any (ask_and_act k id approval l x)
  unfolding ask_and_act ask_gate
  asked-Unsent l x h = record {
    at = λ u.
        let e = evaluate k.usd k.json.json k.now k.ports (gate_input k id approval l x) u.gate in
        (
          λ m.
              decided-Unsent (record l { campaign = e.campaign }) x e.decision
                (record u { gate = e.world }) h m,
          Any-result _,
        );
  }

  -- After parts that change nothing.
  after-Quiet :
      {A B : Type 0} {m : Step k A} {f : A → Step k B} (Q : A → Type 0)
      → Quiet Q m
      → ((a : A) → Q a → Ends Unsent Any (f a))
      → Ends Unsent Any (m >>= f)
  after-Quiet Q h g =
      bind-Ends SendResult (λ u v. v ≡ u) Unsent Unsent (λ u v w p t. subst (λ x. Unsent x w) p t)
        (λ u v p m. ap (λ (w : SendWorld D L R). w.sent) p) Q Any h g

  send_ready-Unsent :
      (q : Sequence) (c : Campaign D) (x : Execution)
      → Held x
      → Ends Unsent Any (send_ready k id approval q c x)
  unfolding send_ready
  send_ready-Unsent q c x h = after-Quiet Held (ready_to_send-Quiet x h) λ y g.
      after-Quiet Any
        (found-Quiet (failed id step_not_found) (find_step y.key.step_number q.key.steps))
        λ step t.
          after-Quiet Any
            (found-Quiet (failed id recovery_failed) (recover_and_verify_recipient k y))
            λ address t'.
              let l : Loaded D = record {
                sequence = q;
                campaign = c;
                step = step;
                recipient_address = address;
              } in
              asked-Unsent l y g

  answered-Unsent : (a : SendResult) → Ends {E = SendResult} Unsent Any (pure a)
  answered-Unsent a = record { at = λ w. ((λ m. refl), tt) }

  choose-Unsent :
      {m n : Step k SendResult} (b : Bool)
      → Ends Unsent Any m
      → Ends Unsent Any n
      → Ends Unsent Any (if b then m else n)
  choose-Unsent true h g = h
  choose-Unsent false h g = g

  send_loaded-Unsent :
      (s : Sendable D)
      → Held s.execution
      → Ends Unsent Any (send_loaded k id approval s.sequence s.campaign s.execution)
  unfolding send_loaded
  send_loaded-Unsent s h =
      let x = s.execution in
      choose-Unsent (is_positive_terminal x.status) (answered-Unsent (completed id none)) (
        choose-Unsent (is_terminal_failure x.status)
          (answered-Unsent (failed id (error_or x.last_error (at_status x.status))))
          (send_ready-Unsent s.sequence s.campaign x h))

  -- A call that has loaded the execution with a version, and goes on when no row of the execution has
  -- that version any more, since another worker has saved it, sends no request.
  pub stale_sends_nothing :
      (s : Sendable D) (w : SendWorld D L R)
      → IsHeld k.ctx id version s.execution
      → IsMoved k.ctx id version w.executions
      → (continue_send k id approval s w).0.sent ≡ w.sent
  unfolding continue_send
  stale_sends_nothing s w h m =
      let all =
        catch_conflict-Ends SendResult Unsent Silent Unsent (λ u v x t g moved. g.0 ∙ t moved)
          (λ u v t. t) Any (send_loaded-Unsent s h)
          (Whole.resolve-Kept k (Silent-IsFrame k.ctx id) approval) in
      body-Keeps SendResult Unsent
        (catch_conflict (send_loaded k id approval s.sequence s.campaign s.execution)
          (resolve_from_authoritative_state k id approval))
        w (all.at w).0 m
