-- ===== src/Outreach/Send/Audit.antt =====
-- Requests and the gate's audit log, over any history of overlapping calls
-- (packages/outreach/src/application/outreach-execution.service.ts,
-- packages/outreach/src/safety/send-safety-gate.ts).
use vega_revenue_os.Prelude.{
  ℕ, ◌+◌, ◌≤◌, ◌≡◌, refl, ap, ◌∙◌, ◌&&◌, zero, suc, Option, none, some, List, [], ◌∷◌, ◌++◌, ◌==◌,
  if◌then◌else◌, arith,
}
use vega_revenue_os.Outreach.Effect.{Result, value, early, conflict, thrown, Any, Ends, Holds}
use vega_revenue_os.Outreach.Repository.{Context}
use vega_revenue_os.Outreach.Execution.State.{Execution}
use vega_revenue_os.Outreach.Gate.Decision.{SafetyDecision, allow, deny, retryable}
use vega_revenue_os.Outreach.Gate.Evaluate.{evaluate}
use vega_revenue_os.Outreach.Gate.Effect.{is_allow, evaluate-Effects}
use vega_revenue_os.Outreach.Send.World.{Call, SendWorld, SendRequest, SendResult}
use vega_revenue_os.Outreach.Send.Execute.{
  ask_and_act, ask_gate, Sendable, load_sendable, continue_send, gate_input, on_decision,
  send_allowed,
}
use vega_revenue_os.Outreach.Send.Attempt.{Loaded, request_for}
use vega_revenue_os.Outreach.Send.Response.{record_response}
use vega_revenue_os.Outreach.Send.Interleaving.{
  Begun, Service, Action, begin, resume, respond_to, after_loads, nth_begun, without, resumed, act,
  act_all, idle,
}
use vega_revenue_os.Outreach.Send.Identity.{run-id, load-id}
use vega_revenue_os.Outreach.Send.Frame.{IsFrame}
use vega_revenue_os.Outreach.Send.Frame.Answer
use vega_revenue_os.Outreach.Send.Frame.Whole

-- The requests sent for the execution `n`, and the evaluations that allowed one.
unfoldable pub sends : ℕ → List (Context × SendRequest) → ℕ
sends n [] = 0
sends n ((ctx, r) ∷ rs) = let rest = sends n rs in if r.execution_id == n then rest + 1 else rest

unfoldable pub allows : ℕ → List (ℕ × SafetyDecision) → ℕ
allows n [] = 0
allows n ((id, d) ∷ ds) = let rest = allows n ds in if id == n && is_allow d then rest + 1 else rest

sends-append :
    (n : ℕ) (rs : List (Context × SendRequest)) (ctx : Context) (r : SendRequest)
    → sends n (rs ++ (ctx, r) ∷ []) ≡ sends n rs + (if r.execution_id == n then 1 else 0)
unfolding sends
sends-append n [] ctx r = ground arith
sends-append n (x ∷ rs) ctx r = let ih = sends-append n rs ctx r in ground arith

allows-append :
    (n : ℕ) (ds : List (ℕ × SafetyDecision)) (id : ℕ) (d : SafetyDecision)
    → allows n (ds ++ (id, d) ∷ []) ≡ allows n ds + (if id == n && is_allow d then 1 else 0)
unfolding allows
allows-append n [] id d = ground arith
allows-append n (x ∷ ds) id d = let ih = allows-append n ds id d in ground arith

module _ {D : Type 0} {L : Type 0} {R : Type 0} where
  -- Nothing is sent and nothing written to the audit log.
  abbrev pub Silent : SendWorld D L R → SendWorld D L R → Type 0
  Silent u v = (v.sent ≡ u.sent) × (v.gate.audit ≡ u.gate.audit)

  pub Silent-IsFrame : (ctx : Context) (id : ℕ) → IsFrame ctx id (λ x. x.root.id ≡ id) Silent
  Silent-IsFrame ctx id = record {
    self = λ w. (refl, refl);
    compose = λ u v w h g. (g.0 ∙ h.0, g.1 ∙ h.1);
    executions = λ x y rows w p e. (refl, refl);
    sequences = λ rows w. (refl, refl);
    campaigns = λ rows w. (refl, refl);
    keys = λ table w. (refl, refl);
    loaded = λ x rows e. load-id ctx id x rows e;
    settle = λ x p. p;
    command = λ c s x p. run-id c s x ∙ p;
  }

  -- No more requests are sent than are allowed.
  abbrev Covered : ℕ → SendWorld D L R → SendWorld D L R → Type 0
  Covered n u v = sends n v.sent + allows n u.gate.audit ≤ sends n u.sent + allows n v.gate.audit

  -- At most one request is sent, for the execution `id`.
  abbrev OneSend : ℕ → ℕ → SendWorld D L R → SendWorld D L R → Type 0
  OneSend n id u v =
      (sends n v.sent ≤ sends n u.sent + (if id == n then 1 else 0)) × (v.gate.audit ≡ u.gate.audit)

  Silent-Covered : (n : ℕ) (u v : SendWorld D L R) → Silent u v → Covered n u v
  Silent-Covered n u v (s, a) =
      let s' = ap (sends n) s in let a' = ap (allows n) a in omega (arith, s', a')

  module _ (k : Call D L R) (n id approval : ℕ) where
    allowed-OneSend :
        (l : Loaded D) (x : Execution)
        → x.root.id ≡ id
        → Ends (OneSend n id) Any (send_allowed k id approval l x)
    allowed-OneSend l x p =
        Answer.send_allowed-Ends k (Silent-IsFrame k.ctx id) (OneSend n id)
          (λ u v w h g. let e = ap (sends n) h.0 in (omega (arith, e, g.0), g.1 ∙ h.1))
          (λ u v w h g. let e = ap (sends n) g.0 in (omega (arith, e, h.0), g.1 ∙ h.1))
          (λ u v h. let e = ap (sends n) h.0 in (omega (arith, e), h.1))
          (λ l x approval w q.
            let e = sends-append n w.sent k.ctx (request_for k id approval l x) in
            (ground arith, refl))
          approval l x p

    decided-Covered :
        (l : Loaded D) (x : Execution) (d : SafetyDecision) (u w : SendWorld D L R)
        → x.root.id ≡ id
        → w.sent ≡ u.sent
        → w.gate.audit ≡ u.gate.audit ++ (x.root.id, d) ∷ []
        → Covered n u (on_decision k id approval l x d w).0
          × Holds Any (on_decision k id approval l x d w).1
    unfolding on_decision
    decided-Covered l x allow u w p s a =
        let (one, any) = (allowed-OneSend l x p).at w in
        let grown = ap (allows n) a ∙ allows-append n u.gate.audit x.root.id allow in
        let before = ap (sends n) s in
        let after = ap (allows n) one.1 in let sent = one.0 in (ground arith, any)
    decided-Covered l x (deny code) u w p s a =
        let (quiet, any) =
          (Whole.on_refusal-Kept k (Silent-IsFrame k.ctx id) approval l x (deny code) p refl).at
            w in
        let grown = ap (allows n) a ∙ allows-append n u.gate.audit x.root.id (deny code) in
        let sent = ap (sends n) (quiet.0 ∙ s) in
        let after = ap (allows n) quiet.1 in (ground arith, any)
    decided-Covered l x (retryable code ms) u w p s a =
        let d = retryable code ms in
        let (quiet, any) =
          (Whole.on_refusal-Kept k (Silent-IsFrame k.ctx id) approval l x d p refl).at w in
        let grown = ap (allows n) a ∙ allows-append n u.gate.audit x.root.id d in
        let sent = ap (sends n) (quiet.0 ∙ s) in
        let after = ap (allows n) quiet.1 in (ground arith, any)

    asked-Covered :
        (l : Loaded D) (x : Execution)
        → x.root.id ≡ id
        → Ends (Covered n) Any (ask_and_act k id approval l x)
    unfolding ask_and_act ask_gate
    asked-Covered l x p = record {
      at = λ u.
          let e = evaluate k.usd k.json.json k.now k.ports (gate_input k id approval l x) u.gate in
          let logged =
            evaluate-Effects k.usd k.json.json k.now k.ports (gate_input k id approval l x)
              u.gate in
          decided-Covered (record l { campaign = e.campaign }) x e.decision u
            (record u { gate = e.world }) p refl logged.audit;
    }

    continue-Covered :
        (s : Sendable D) (w : SendWorld D L R)
        → s.execution.root.id ≡ id
        → Covered n w (continue_send k id approval s w).0
    continue-Covered s w p =
        Whole.continue-Keeps k (Silent-IsFrame k.ctx id) (Covered n)
          (λ u v w h g.
            let s = ap (sends n) h.0 in let a = ap (allows n) h.1 in omega (arith, s, a, g))
          (λ u v w h g.
            let s = ap (sends n) g.0 in let a = ap (allows n) g.1 in omega (arith, s, a, h))
          (Silent-Covered n) approval asked-Covered s w p

  -- The calls under way hold the executions that they are about.
  abbrev HoldTheirs : List (Begun D L R) → Type 0
  HoldTheirs [] = Unit
  HoldTheirs (b ∷ bs) = (b.loaded.execution.root.id ≡ b.id) × HoldTheirs bs

  HoldTheirs-append :
      (bs : List (Begun D L R)) (b : Begun D L R)
      → HoldTheirs bs
      → b.loaded.execution.root.id ≡ b.id
      → HoldTheirs (bs ++ b ∷ [])
  HoldTheirs-append [] b h e = (e, tt)
  HoldTheirs-append (c ∷ bs) b (h, hs) e = (h, HoldTheirs-append bs b hs e)

  HoldTheirs-without : (n : ℕ) (bs : List (Begun D L R)) → HoldTheirs bs → HoldTheirs (without n bs)
  unfolding without
  HoldTheirs-without n [] h = tt
  HoldTheirs-without zero (b ∷ bs) (h, hs) = hs
  HoldTheirs-without (suc n) (b ∷ bs) (h, hs) = (h, HoldTheirs-without n bs hs)

  IsTheirs : Option (Begun D L R) → Type 0
  IsTheirs none = Unit
  IsTheirs (some b) = b.loaded.execution.root.id ≡ b.id

  nth_begun-IsTheirs : (n : ℕ) (bs : List (Begun D L R)) → HoldTheirs bs → IsTheirs (nth_begun n bs)
  unfolding nth_begun IsTheirs
  nth_begun-IsTheirs n [] h = tt
  nth_begun-IsTheirs zero (b ∷ bs) (h, hs) = h
  nth_begun-IsTheirs (suc n) (b ∷ bs) (h, hs) = nth_begun-IsTheirs n bs hs

  -- A step keeps both.
  abbrev Goes : ℕ → SendWorld D L R → Service D L R → Type 0
  Goes n u m = Covered n u m.world × HoldTheirs m.begun

  after_loads-Goes :
      (n : ℕ) (k : Call D L R) (id approval : ℕ) (bs : List (Begun D L R)) (u : SendWorld D L R)
      (r : SendWorld D L R × Result SendResult (Sendable D))
      → HoldTheirs bs
      → Silent u r.0 × Holds (λ s. s.execution.root.id ≡ id) r.1
      → Goes n u (after_loads k id approval bs r)
  after_loads-Goes n k id approval bs u (w, value s) h (q, e) =
      (Silent-Covered n u w q, HoldTheirs-append bs _ h e)
  after_loads-Goes n k id approval bs u (w, early e) h (q, t) = (Silent-Covered n u w q, h)
  after_loads-Goes n k id approval bs u (w, conflict) h (q, t) = (Silent-Covered n u w q, h)
  after_loads-Goes n k id approval bs u (w, thrown) h (q, t) = (Silent-Covered n u w q, h)

  resumed-Goes :
      (n : ℕ) (bs : List (Begun D L R)) (o : Option (Begun D L R)) (w : SendWorld D L R)
      → HoldTheirs bs
      → IsTheirs o
      → Goes n w (resumed bs o w)
  unfolding IsTheirs
  resumed-Goes n bs none w h t = (omega arith, h)
  resumed-Goes n bs (some b) w h t = (continue-Covered b.call n b.id b.approval_id b.loaded w t, h)

  act-Goes :
      (n : ℕ) (a : Action D L R) (m : Service D L R) → HoldTheirs m.begun → Goes n m.world (act a m)
  unfolding act
  act-Goes n (begin k id approval) m h =
      after_loads-Goes n k id approval m.begun m.world (load_sendable k id approval m.world) h
        ((Whole.load_sendable-Kept k (Silent-IsFrame k.ctx id) approval).at m.world)
  act-Goes n (resume i) m h =
      resumed-Goes n (without i m.begun) (nth_begun i m.begun) m.world
        (HoldTheirs-without i m.begun h) (nth_begun-IsTheirs i m.begun h)
  act-Goes n (respond_to k id type) m h = (
    Silent-Covered n m.world (record_response k id type m.world).0
        ((Whole.record_response-Kept k (Silent-IsFrame k.ctx id) type).at m.world).0,
    h,
  )

  act_all-Covered :
      (n : ℕ) (actions : List (Action D L R)) (m : Service D L R)
      → HoldTheirs m.begun
      → Covered n m.world (act_all actions m).world
  unfolding act_all
  act_all-Covered n [] m h = omega arith
  act_all-Covered n (a ∷ rest) m h =
      let (step, held) = act-Goes n a m h in
      let more = act_all-Covered n rest (act a m) held in omega (arith, step, more)

  -- In any history of overlapping calls of the service, in which workers go on in any order with what
  -- they have loaded, and each save is refused whose row another worker has saved since, with any
  -- answers of the ports and the providers: if at the start no more requests are sent for an
  -- execution than the gate's audit log has evaluations that allowed one, then so at the end.
  pub sends_allowed :
      (n : ℕ) (actions : List (Action D L R)) (w : SendWorld D L R)
      → sends n w.sent ≤ allows n w.gate.audit
      → sends n (act_all actions (idle w)).world.sent
        ≤ allows n (act_all actions (idle w)).world.gate.audit
  sends_allowed n actions w h =
      let all = act_all-Covered n actions (idle w) tt in omega (arith, all, h)
