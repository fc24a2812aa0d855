-- ===== src/Outreach/Send/Closed.antt =====
-- An execution that has left SENDING, over any history of calls
-- (packages/outreach/src/application/outreach-execution.service.ts).
use vega_revenue_os.Prelude.{
  ℕ, ◌≡◌, refl, sym, subst, ap, ◌∙◌, Bool, true, false, none, some, List, [], ◌∷◌, Bool-cases, inl,
  inr, arith,
}
use vega_revenue_os.Aggregate.{Stamp}
use vega_revenue_os.Outreach.Repository.{Context, find_row, is_row, load}
use vega_revenue_os.Outreach.Repository.Rows.{save-find, find_row-IsRow}
use vega_revenue_os.Outreach.Execution.State.{Execution, reconstitute_execution}
use vega_revenue_os.Outreach.Execution.Command.{Command, run}
use vega_revenue_os.Outreach.Execution.Safety.{is_past, run-past}
use vega_revenue_os.Outreach.Send.World.{
  Call, SendWorld, executions_table, load_execution, save_execution, ensure_same_tenant,
}
use vega_revenue_os.Outreach.Send.Duplicate.{when}
use vega_revenue_os.Outreach.Send.Execute.{execute_approved_send}
use vega_revenue_os.Outreach.Send.Response.{
  ServiceCall, ResponseType, respond, execute, response, record_response, serve, serve_all,
}
use vega_revenue_os.Outreach.Send.Identity.{run-row, run-loaded}
use vega_revenue_os.Outreach.Send.Calm.{answered-unchanged}
use vega_revenue_os.Outreach.Send.Frame.Whole
use vega_revenue_os.Outreach.Send.Touches.{
  same_row, same_row-to, sends_to, Touches, Touches-IsFrame, execute-Touches,
}

-- What a response keeps of the row's execution: its row, the loaded version, a state after SENDING.
record IsLate (ctx : Context) (id version : ℕ) (x : Execution) : Type 0 where
  in_row : is_row executions_table ctx id x ≡ true
  loaded : x.root.loaded_version ≡ some version
  past : is_past x.status ≡ true

when-IsLate :
    (ctx : Context) (id v : ℕ) (b : Bool) (c : Command) (s : Stamp) (x : Execution)
    → IsLate ctx id v x
    → IsLate ctx id v (when b (run c s) x)
when-IsLate ctx id v true c s x h = record {
  in_row = run-row ctx id c s x ∙ h.in_row;
  loaded = run-loaded c s x ∙ h.loaded;
  past = (run-past c s x h.past).0;
}
when-IsLate ctx id v false c s x h = h

respond-IsLate :
    {D : Type 0} {L : Type 0} {R : Type 0} (k : Call D L R) (id v : ℕ) (type : ResponseType)
    (x : Execution)
    → IsLate k.ctx id v x
    → IsLate k.ctx id v (respond k type x)
unfolding respond run
respond-IsLate k id v type x h = when-IsLate k.ctx id v _ Command.mark_replied (k.stamp 2) _ (
    when-IsLate k.ctx id v _ Command.mark_opened (k.stamp 1) _
      (when-IsLate k.ctx id v _ (Command.mark_delivered none) (k.stamp 0) x h))

module _ {D : Type 0} {L : Type 0} {R : Type 0} where
  -- The stored execution is in a state after SENDING.
  pub record IsClosed (ctx : Context) (id : ℕ) (w : SendWorld D L R) : Type 0 where
    pub row : Execution
    pub stored : find_row executions_table ctx id w.executions ≡ some row
    pub past : is_past row.status ≡ true

  module _ (k : Call D L R) (id approval : ℕ) where
    -- A call for an execution that has left SENDING changes nothing at all.
    execute-closed :
        (w : SendWorld D L R) → IsClosed k.ctx id w → (execute_approved_send k id approval w).0 ≡ w
    execute-closed w h = answered-unchanged k id approval h.row w h.stored h.past

    -- A response is stored, and the execution stays in a state after SENDING.
    response-IsClosed :
        (type : ResponseType) (w : SendWorld D L R)
        → IsClosed k.ctx id w
        → IsClosed k.ctx id (record_response k id type w).0
          × ((record_response k id type w).0.sent ≡ w.sent)
    unfolding record_response load_execution load ensure_same_tenant reconstitute_execution
        save_execution
    response-IsClosed type w h =
        let r = h.row in
        let found_it = h.stored in
        let x = reconstitute_execution r r.root.version in
        let row = find_row-IsRow executions_table k.ctx id r w.executions found_it in
        let late : IsLate k.ctx id r.root.version x = record {
          in_row = row;
          loaded = refl;
          past = h.past;
        } in
        let z = respond-IsLate k id r.root.version type x late in
        let (rows, stored, again) =
          save-find executions_table k.ctx id (respond k type x) r w.executions z.in_row found_it
            z.loaded in
        let end : (record_response k id type w).0 ≡ record w { executions = rows } = ground arith in
        (
          subst (IsClosed k.ctx id) (sym end)
              (record { row = respond k type x; stored = again; past = z.past }),
          ap (λ v. v.sent) end,
        )

  -- What stays of a closed execution: that it is, and the requests sent for it.
  abbrev Stays : Context → ℕ → SendWorld D L R → SendWorld D L R → Type 0
  Stays ctx id u v = IsClosed ctx id v × (sends_to ctx id v.sent ≡ sends_to ctx id u.sent)

  Touches-Stays :
      (c : Context) (i : ℕ) (ctx : Context) (id : ℕ) (u v : SendWorld D L R)
      → same_row c i ctx id ≡ false
      → Touches c i u v
      → IsClosed ctx id u
      → Stays ctx id u v
  Touches-Stays c i ctx id u v n t h =
      let (f, s) = t ctx id n in (record { row = h.row; stored = f ∙ h.stored; past = h.past }, s)

  same-Stays :
      (id : ℕ) (ctx : Context) (u v : SendWorld D L R)
      → v ≡ u
      → IsClosed ctx id u
      → Stays ctx id u v
  same-Stays id ctx u v e h =
      (subst (IsClosed ctx id) (sym e) h, ap (λ w. sends_to ctx id w.sent) e)

  execute-Stays :
      (k : Call D L R) (i approval : ℕ) (ctx : Context) (id : ℕ) (w : SendWorld D L R)
      → IsClosed ctx id w
      → Stays ctx id w (execute_approved_send k i approval w).0
  execute-Stays k i approval ctx id w h = elim (Bool-cases (same_row k.ctx i ctx id)) [
    | inl s ↦
        let (c, e) = same_row-to k.ctx i ctx id s in
        let here = subst (λ x. IsClosed x i w) (sym c) (subst (λ j. IsClosed ctx j w) (sym e) h) in
        same-Stays id ctx w (execute_approved_send k i approval w).0
          (execute-closed k i approval w here) h
    | inr n ↦
        Touches-Stays k.ctx i ctx id w (execute_approved_send k i approval w).0 n
          (execute-Touches k i approval w) h
  ]

  response-Stays :
      (k : Call D L R) (i : ℕ) (type : ResponseType) (ctx : Context) (id : ℕ) (w : SendWorld D L R)
      → IsClosed ctx id w
      → Stays ctx id w (record_response k i type w).0
  response-Stays k i type ctx id w h = elim (Bool-cases (same_row k.ctx i ctx id)) [
    | inl s ↦
        let (c, e) = same_row-to k.ctx i ctx id s in
        let here = subst (λ x. IsClosed x i w) (sym c) (subst (λ j. IsClosed ctx j w) (sym e) h) in
        let (there, sent) = response-IsClosed k i 0 type w here in
        let w' = (record_response k i type w).0 in
        (
          subst (λ x. IsClosed x id w') c (subst (λ j. IsClosed k.ctx j w') e there),
          ap (sends_to ctx id) sent,
        )
    | inr n ↦
        Touches-Stays k.ctx i ctx id w (record_response k i type w).0 n
          ((Whole.record_response-Kept k (Touches-IsFrame k.ctx i) type).at w).0 h
  ]

  serve-Stays :
      (c : ServiceCall D L R) (ctx : Context) (id : ℕ) (w : SendWorld D L R)
      → IsClosed ctx id w
      → Stays ctx id w (serve c w)
  unfolding serve
  serve-Stays (execute k i approval) ctx id w h = execute-Stays k i approval ctx id w h
  serve-Stays (response k i type) ctx id w h = response-Stays k i type ctx id w h

  -- Once the stored execution is in a state after SENDING, as it is when the provider has accepted the
  -- message, when its answer was ambiguous and when a failure was final, no history of calls of the
  -- service, for it or for others, sends another request for it, and it stays in such a state.
  pub IsClosed-sends_nothing :
      (cs : List (ServiceCall D L R)) (ctx : Context) (id : ℕ) (w : SendWorld D L R)
      → IsClosed ctx id w
      → IsClosed ctx id (serve_all cs w)
        × (sends_to ctx id (serve_all cs w).sent ≡ sends_to ctx id w.sent)
  unfolding serve_all
  IsClosed-sends_nothing [] ctx id w h = (h, refl)
  IsClosed-sends_nothing (c ∷ cs) ctx id w h =
      let (g, s) = serve-Stays c ctx id w h in
      let (f, t) = IsClosed-sends_nothing cs ctx id (serve c w) g in (f, t ∙ s)
