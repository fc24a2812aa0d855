-- ===== src/Outreach/Send/Calm.antt =====
-- A call of the send service for an execution that has left SENDING
-- (packages/outreach/src/application/outreach-execution.service.ts).
use vega_revenue_os.Prelude.{
  ℕ, ◌≡◌, refl, true, ◌||◌, Option, none, if-cases, ◌==◌, some, Bool-cases, inl, inr, arith,
}
use vega_revenue_os.Outreach.Effect.{
  Result, value, early, conflict, thrown, Any, pure, ◌>>=◌, continue, found, returned, caught,
}
use vega_revenue_os.Outreach.Repository.{find_row, load}
use vega_revenue_os.Outreach.Execution.State.{Execution, reconstitute_execution}
use vega_revenue_os.Outreach.Execution.Safety.{is_past}
use vega_revenue_os.Outreach.Send.World.{
  Call, SendWorld, SendResult, failed, execution_not_found, sequence_not_found, campaign_not_found,
  executions_table, load_execution, load_sequence, load_campaign, ensure_same_tenant,
}
use vega_revenue_os.Outreach.Send.Duplicate.{is_positive_terminal, is_terminal_failure}
use vega_revenue_os.Outreach.Send.Steps.{Step}
use vega_revenue_os.Outreach.Send.Execute.{
  Sendable, load_sendable, resolve_from_authoritative_state, do_execute_approved_send,
  execute_approved_send, send_loaded,
}

past-answered :
    (x : Execution)
    → is_past x.status ≡ true
    → (is_positive_terminal x.status || is_terminal_failure x.status) ≡ true
past-answered x h = ground arith

module _ {D : Type 0} {L : Type 0} {R : Type 0} (k : Call D L R) (id approval : ℕ) where
  -- The world is as it was, no conflict was met, and the value, if there is one, is such.
  abbrev Plain :
      {A : Type 0} → (A → Type 0) → SendWorld D L R → SendWorld D L R × Result SendResult A → Type 0
  Plain Q w (v, value a) = (v ≡ w) × Q a
  Plain Q w (v, early e) = v ≡ w
  Plain Q w (v, conflict) = ⊥
  Plain Q w (v, thrown) = v ≡ w

  continue-Plain :
      {A B : Type 0} (Q : A → Type 0) (O : B → Type 0) (f : A → Step k B) (w : SendWorld D L R)
      (r : SendWorld D L R × Result SendResult A)
      → Plain Q w r
      → ((a : A) → Q a → Plain O w (f a w))
      → Plain O w (continue f r)
  continue-Plain Q O f w (v, value a) (e, h) g = rw e (g a h)
  continue-Plain Q O f w (v, early x) h g = h
  continue-Plain Q O f w (v, conflict) h g = h
  continue-Plain Q O f w (v, thrown) h g = h

  -- A part of a call that is so in this world.
  record Calm {A : Type 0} (Q : A → Type 0) (w : SendWorld D L R) (m : Step k A) : Type 0 where
    at : Plain Q w (m w)

  bind-Calm :
      {A B : Type 0} {m : Step k A} {f : A → Step k B} (Q : A → Type 0) (O : B → Type 0)
      (w : SendWorld D L R)
      → Calm Q w m
      → ((a : A) → Q a → Calm O w (f a))
      → Calm O w (m >>= f)
  bind-Calm {m = m} {f = f} Q O w h g = record {
    at = continue-Plain Q O f w (m w) h.at λ a q. (g a q).at;
  }

  found-Calm :
      {A : Type 0} (e : SendResult) (o : Option A) (w : SendWorld D L R) → Calm Any w (found e o)
  found-Calm e none w = record { at = refl }
  found-Calm e (some a) w = record { at = (refl, tt) }

  tenant-Calm :
      (tenant : ℕ) (w : SendWorld D L R)
      → Calm Any w (ensure_same_tenant {E = SendResult} k.ctx tenant)
  unfolding ensure_same_tenant
  tenant-Calm tenant w =
      if-cases (Calm Any w) (k.ctx.tenant_id == tenant) (λ e. record { at = (refl, tt) })
        (λ e. record { at = refl })

  abbrev IsAnswered : Execution → Type 0
  IsAnswered x = (is_positive_terminal x.status || is_terminal_failure x.status) ≡ true

  found_it-Calm :
      (e : SendResult) (x : Execution) (o : Option Execution) (w : SendWorld D L R)
      → o ≡ some x
      → IsAnswered x
      → Calm IsAnswered w (found e o)
  found_it-Calm e x o w h g = rw h (record { at = (refl, g) })

  load_execution-Calm :
      (row : Execution) (w : SendWorld D L R)
      → find_row executions_table k.ctx id w.executions ≡ some row
      → Calm
          (λ o. o ≡ some (reconstitute_execution row row.root.version))
          w
          (load_execution {E = SendResult} k.ctx id)
  unfolding load_execution load
  load_execution-Calm row w h = record { at = (refl, rw h refl) }

  load_sequence-Calm :
      (sequence : ℕ) (w : SendWorld D L R)
      → Calm Any w (load_sequence {E = SendResult} k.ctx sequence)
  unfolding load_sequence
  load_sequence-Calm sequence w = record { at = (refl, tt) }

  load_campaign-Calm :
      (campaign : ℕ) (w : SendWorld D L R)
      → Calm Any w (load_campaign {E = SendResult} k.ctx campaign)
  unfolding load_campaign
  load_campaign-Calm campaign w = record { at = (refl, tt) }

  abbrev IsFor : Sendable D → Type 0
  IsFor s = IsAnswered s.execution

  sendable-Calm : (s : Sendable D) (w : SendWorld D L R) → IsFor s → Calm IsFor w (pure s)
  sendable-Calm s w h = record { at = (refl, h) }

  load_sendable-Calm :
      (row : Execution) (w : SendWorld D L R)
      → find_row executions_table k.ctx id w.executions ≡ some row
      → is_past row.status ≡ true
      → Calm IsFor w (load_sendable k id approval)
  unfolding load_sendable reconstitute_execution
  load_sendable-Calm row w h past =
      let x = reconstitute_execution row row.root.version in
      bind-Calm (λ o. o ≡ some x) IsFor w (load_execution-Calm row w h)
        λ o e.
          bind-Calm IsAnswered IsFor w
            (found_it-Calm (failed id execution_not_found) x o w e (past-answered row past))
            λ y g. bind-Calm Any IsFor w (tenant-Calm y.root.tenant_id w) λ u t.
              bind-Calm Any IsFor w (load_sequence-Calm y.key.sequence_id w) λ o t.
                bind-Calm Any IsFor w (found-Calm (failed id sequence_not_found) o w) λ q t.
                  bind-Calm Any IsFor w (tenant-Calm q.root.tenant_id w) λ u t.
                    bind-Calm Any IsFor w (load_campaign-Calm y.key.campaign_id w) λ o t.
                      bind-Calm Any IsFor w (found-Calm (failed id campaign_not_found) o w) λ c t.
                        bind-Calm Any IsFor w (tenant-Calm c.root.tenant_id w) λ u t.
                          sendable-Calm (record { sequence = q; campaign = c; execution = y }) w g

  send_loaded-Calm :
      (s : Sendable D) (w : SendWorld D L R)
      → IsFor s
      → Calm Any w (send_loaded k id approval s.sequence s.campaign s.execution)
  unfolding send_loaded
  send_loaded-Calm s w h = elim (Bool-cases (is_positive_terminal s.execution.status)) [
    | inl p ↦ record { at = rw p (refl, tt) }
    | inr n ↦
        let f : is_terminal_failure s.execution.status ≡ true = ground arith in
        record { at = rw (n, f) (refl, tt) }
  ]

  Plain-executed :
      (w : SendWorld D L R) (r : SendWorld D L R × Result SendResult SendResult)
      → Plain Any w r
      → (returned (caught (resolve_from_authoritative_state k id approval) r)).0 ≡ w
  Plain-executed w (v, value a) h = h.0
  Plain-executed w (v, early e) h = h
  Plain-executed w (v, conflict) h = absurd h
  Plain-executed w (v, thrown) h = h

  -- The call changes nothing at all.
  pub answered-unchanged :
      (row : Execution) (w : SendWorld D L R)
      → find_row executions_table k.ctx id w.executions ≡ some row
      → is_past row.status ≡ true
      → (execute_approved_send k id approval w).0 ≡ w
  unfolding execute_approved_send do_execute_approved_send
  answered-unchanged row w h past =
      Plain-executed w (do_execute_approved_send k id approval w)
        (bind-Calm IsFor Any w (load_sendable-Calm row w h past) (λ s g. send_loaded-Calm s w g)).at
