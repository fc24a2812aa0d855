-- ===== src/Outreach/Send/Touches.antt =====
-- Which rows and requests a call of the send service touches
-- (packages/outreach/src/application/outreach-execution.service.ts).
use vega_revenue_os.Prelude.{
  ℕ, ◌+◌, ◌≡◌, refl, ◌∙◌, Bool, true, false, ◌&&◌, List, [], ◌∷◌, ◌++◌, ◌==◌, if◌then◌else◌, arith,
}
use vega_revenue_os.Outreach.Effect.{Any, Ends}
use vega_revenue_os.Outreach.Repository.{Context, find_row, is_row}
use vega_revenue_os.Outreach.Repository.Rows.{save-other}
use vega_revenue_os.Outreach.Execution.State.{Execution}
use vega_revenue_os.Outreach.Gate.Decision.{SafetyDecision, allow, deny, retryable}
use vega_revenue_os.Outreach.Gate.Evaluate.{evaluate}
use vega_revenue_os.Outreach.Send.World.{Call, SendWorld, SendRequest, executions_table}
use vega_revenue_os.Outreach.Send.Execute.{
  ask_and_act, ask_gate, execute_approved_send, gate_input, on_decision, send_allowed,
}
use vega_revenue_os.Outreach.Send.Attempt.{Loaded, request_for}
use vega_revenue_os.Outreach.Send.Identity.{run-row, load-IsRow}
use vega_revenue_os.Outreach.Send.Frame.{IsFrame}
use vega_revenue_os.Outreach.Send.Frame.Answer
use vega_revenue_os.Outreach.Send.Frame.Whole

abbrev pub same_row : Context → ℕ → Context → ℕ → Bool
same_row c id c' id' = c.tenant_id == c'.tenant_id && c.workspace_id == c'.workspace_id && id == id'

context-path :
    {c c' : Context} → c.tenant_id ≡ c'.tenant_id → c.workspace_id ≡ c'.workspace_id → c ≡ c'
context-path p q = λ i. record { tenant_id = p i; workspace_id = q i }

pub same_row-to :
    (c : Context) (id : ℕ) (c' : Context) (id' : ℕ)
    → same_row c id c' id' ≡ true
    → (c ≡ c') × (id ≡ id')
same_row-to c id c' id' h = (context-path (ground arith) (ground arith), ground arith)

-- The requests sent for the execution of a context.
unfoldable pub sends_to : Context → ℕ → List (Context × SendRequest) → ℕ
sends_to c id [] = 0
sends_to c id ((ctx, r) ∷ rs) =
    let rest = sends_to c id rs in if same_row ctx r.execution_id c id then rest + 1 else rest

sends_to-append :
    (c : Context) (id : ℕ) (rs : List (Context × SendRequest)) (ctx : Context) (r : SendRequest)
    → same_row ctx r.execution_id c id ≡ false
    → sends_to c id (rs ++ (ctx, r) ∷ []) ≡ sends_to c id rs
unfolding sends_to
sends_to-append c id [] ctx r h = ground arith
sends_to-append c id (x ∷ rs) ctx r h = let ih = sends_to-append c id rs ctx r h in ground arith

pub sends_to-append_same :
    (c : Context) (id : ℕ) (rs : List (Context × SendRequest)) (ctx : Context) (r : SendRequest)
    → same_row ctx r.execution_id c id ≡ true
    → sends_to c id (rs ++ (ctx, r) ∷ []) ≡ sends_to c id rs + 1
unfolding sends_to
sends_to-append_same c id [] ctx r h = ground arith
sends_to-append_same c id (x ∷ rs) ctx r h =
    let ih = sends_to-append_same c id rs ctx r h in ground arith

module _ {D : Type 0} {L : Type 0} {R : Type 0} where
  -- The executions of other rows, and the requests for them, are as they were.
  abbrev pub Touches : Context → ℕ → SendWorld D L R → SendWorld D L R → Type 0
  Touches ctx id u v =
      (c : Context) (i : ℕ)
      → same_row ctx id c i ≡ false
      → (find_row executions_table c i v.executions ≡ find_row executions_table c i u.executions)
        × (sends_to c i v.sent ≡ sends_to c i u.sent)

  pub Touches-IsFrame :
      (ctx : Context) (id : ℕ)
      → IsFrame ctx id (λ x. is_row executions_table ctx id x ≡ true) (Touches ctx id)
  Touches-IsFrame ctx id = record {
    self = λ w c i n. (refl, refl);
    compose = λ u v w h g c i n. let (f, s) = h c i n in let (f', s') = g c i n in (f' ∙ f, s' ∙ s);
    executions = λ x y rows w p e c i n.
        let other : is_row executions_table c i x ≡ false = ground arith in
        (save-other executions_table ctx c i x y w.executions rows other e, refl);
    sequences = λ rows w c i n. (refl, refl);
    campaigns = λ rows w c i n. (refl, refl);
    keys = λ table w c i n. (refl, refl);
    loaded = λ x rows e. load-IsRow ctx id x rows e;
    settle = λ x p. p;
    command = λ c s x p. run-row ctx id c s x ∙ p;
  }

  module _ (k : Call D L R) (id approval : ℕ) where
    abbrev InRow : Execution → Type 0
    InRow x = is_row executions_table k.ctx id x ≡ true

    allowed-Touches :
        (l : Loaded D) (x : Execution)
        → InRow x
        → Ends (Touches k.ctx id) Any (send_allowed k id approval l x)
    allowed-Touches l x p =
        let frame = Touches-IsFrame k.ctx id in
        Answer.send_allowed-Ends k frame (Touches k.ctx id) frame.compose frame.compose (λ u v h. h)
          (λ l x approval w q c i n.
            (refl, sends_to-append c i w.sent k.ctx (request_for k id approval l x) (ground arith)))
          approval l x p

    decided-Touches :
        (l : Loaded D) (x : Execution) (d : SafetyDecision)
        → InRow x
        → Ends (Touches k.ctx id) Any (on_decision k id approval l x d)
    unfolding on_decision
    decided-Touches l x allow p = allowed-Touches l x p
    decided-Touches l x (deny code) p =
        Whole.on_refusal-Kept k (Touches-IsFrame k.ctx id) approval l x (deny code) p refl
    decided-Touches l x (retryable code ms) p =
        Whole.on_refusal-Kept k (Touches-IsFrame k.ctx id) approval l x (retryable code ms) p refl

    asked-Touches :
        (l : Loaded D) (x : Execution)
        → InRow x
        → Ends (Touches k.ctx id) Any (ask_and_act k id approval l x)
    unfolding ask_and_act ask_gate
    asked-Touches l x p = record {
      at = λ u.
          let e = evaluate k.usd k.json.json k.now k.ports (gate_input k id approval l x) u.gate in
          (decided-Touches (record l { campaign = e.campaign }) x e.decision p).at
            (record u { gate = e.world });
    }

    pub execute-Touches :
        (w : SendWorld D L R) → Touches k.ctx id w (execute_approved_send k id approval w).0
    execute-Touches w =
        let frame = Touches-IsFrame k.ctx id in
        Whole.execute-Keeps k frame (Touches k.ctx id) frame.compose frame.compose (λ u v h. h)
          approval asked-Touches w
