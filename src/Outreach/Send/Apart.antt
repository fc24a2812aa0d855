-- ===== src/Outreach/Send/Apart.antt =====
-- The parts of the send service that leave the stored executions as they are
-- (packages/outreach/src/application/outreach-execution.service.ts).
use vega_revenue_os.Prelude.{
  ℕ, ◌+◌, length, ltb, if◌then◌else◌, ◌≡◌, refl, ◌∙◌, Bool, true, false, Option, none, some, List,
}
use vega_revenue_os.Aggregate.{Outcome, ok, fail}
use vega_revenue_os.Outreach.Effect.{Any, Ends, Holds, bind-Ends, pure, ◌>>=◌}
use vega_revenue_os.Outreach.Repository.{Saved, save, saved, stale, mismatched}
use vega_revenue_os.Outreach.Execution.State.{Execution}
use vega_revenue_os.Outreach.Sequence.State.{Sequence, SequenceError}
use vega_revenue_os.Outreach.Sequence.Commands.{complete_step}
use vega_revenue_os.Outreach.Campaign.State.{Campaign}
use vega_revenue_os.Outreach.Send.World.{
  Call, completed, store_saved, sequences_table, campaigns_table, SendWorld, SendResult,
  ProviderResult, save_sequence, save_campaign, load_campaign,
}
use vega_revenue_os.Outreach.Send.Steps.{
  Step, save_advanced, complete_campaign, following_due_at, advance_sequence,
  mark_idempotency_completed, release_key,
}
use vega_revenue_os.Outreach.Send.Attempt.{Loaded}

module _ {D : Type 0} {L : Type 0} {R : Type 0} (k : Call D L R) where
  -- The executions are as they were.
  abbrev pub Apart : {A : Type 0} → Step k A → Type 0
  Apart m = Ends {E = SendResult} (λ u v. v.executions ≡ u.executions) Any m

  then-Apart :
      {A B : Type 0} {m : Step k A} {f : A → Step k B}
      → Apart m
      → ((a : A) → Apart (f a))
      → Apart (m >>= f)
  then-Apart h g =
      bind-Ends SendResult (λ u v. v.executions ≡ u.executions) (λ u v. v.executions ≡ u.executions)
        (λ u v. v.executions ≡ u.executions) (λ u v w p q. q ∙ p) (λ u v p. p) Any Any h λ a u. g a

  pub pure-Apart : {A : Type 0} (a : A) → Apart (pure a)
  pure-Apart a = record { at = λ w. (refl, tt) }

  stored-Apart :
      {A : Type 0} (put : List A → SendWorld D L R → SendWorld D L R) (w : SendWorld D L R)
      (r : Saved A)
      → ((rows : List A) → (put rows w).executions ≡ w.executions)
      → ((store_saved {E = SendResult} put w r).0.executions ≡ w.executions)
        × Holds Any (store_saved {E = SendResult} put w r).1
  stored-Apart put w (saved rows y) h = (h rows, tt)
  stored-Apart put w stale h = (refl, tt)
  stored-Apart put w mismatched h = (refl, tt)

  save_campaign-Apart : (c : Campaign D) → Apart (save_campaign k.ctx c)
  unfolding save_campaign
  save_campaign-Apart c = record {
    at = λ w.
        stored-Apart (λ rows w'. record w' { campaigns = rows }) w
          (save campaigns_table k.ctx c w.campaigns) (λ rows. refl);
  }

  save_advanced-Apart :
      (x : Execution) (r : Sequence × Outcome SequenceError) → Apart (save_advanced k x r)
  unfolding save_sequence
  save_advanced-Apart x (q, ok) = record {
    at = λ w.
        stored-Apart (λ rows w'. record w' { sequences = rows }) w
          (save sequences_table k.ctx q w.sequences) (λ rows. refl);
  }
  save_advanced-Apart x (q, fail e) = record { at = λ w. (refl, tt) }

  load_campaign-Apart : (c : ℕ) → Apart (load_campaign k.ctx c)
  unfolding load_campaign
  load_campaign-Apart c = record { at = λ w. (refl, tt) }

  complete_campaign-Apart : (o : Option (Campaign D)) → Apart (complete_campaign k o)
  complete_campaign-Apart none = pure-Apart tt
  complete_campaign-Apart (some c) = then-Apart (save_campaign-Apart _) λ c'. pure-Apart tt

  pub if-Apart :
      {A : Type 0} {m n : Step k A} (b : Bool) → Apart m → Apart n → Apart (if b then m else n)
  if-Apart true h g = h
  if-Apart false h g = g

  advance_sequence-Apart : (q : Sequence) (x : Execution) → Apart (advance_sequence k q x)
  unfolding advance_sequence
  advance_sequence-Apart q x = then-Apart (load_campaign-Apart q.key.campaign_id) λ c.
      then-Apart
        (save_advanced-Apart x (complete_step x.root.id (following_due_at k q) (k.stamp 4) q))
        λ q'.
          then-Apart
            (if-Apart (ltb (q.current_step_index + 1) (length q.key.steps)) (pure-Apart tt)
              (complete_campaign-Apart c))
            λ u. pure-Apart (completed x.root.id (following_due_at k q))

  mark_idempotency_completed-Apart :
      (x : Execution) (result : ProviderResult D) → Apart (mark_idempotency_completed k x result)
  unfolding mark_idempotency_completed
  mark_idempotency_completed-Apart x result = record { at = λ w. (refl, tt) }

  pub release_key-Apart : (x : Execution) → Apart (release_key k x)
  unfolding release_key
  release_key-Apart x = record { at = λ w. (refl, tt) }

  -- What on_accepted does after the execution is stored.
  pub finish-Apart :
      (l : Loaded D) (x : Execution) (result : ProviderResult D)
      → Apart (
          save_campaign k.ctx l.campaign >>= λ c.
          mark_idempotency_completed k x result >>= λ u. advance_sequence k l.sequence x)
  finish-Apart l x result = then-Apart (save_campaign-Apart l.campaign) λ c.
      then-Apart (mark_idempotency_completed-Apart x result)
        λ u. advance_sequence-Apart l.sequence x
