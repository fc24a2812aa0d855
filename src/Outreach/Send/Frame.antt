-- ===== src/Outreach/Send/Frame.antt =====
-- What the parts of the send service change
-- (packages/outreach/src/application/outreach-execution.service.ts): a relation between worlds that
-- every access to the tables and to the keys keeps is kept by all of them, whatever the ports answer.
pub mod Duplicate
pub mod Answer
pub mod Whole
use vega_revenue_os.Prelude.{
  not, ◌&&◌, ℕ, ◌≡◌, refl, sym, subst, String, Bool, true, false, Option, none, some, List,
  Bool-cases, inl, inr, if◌then◌else◌,
}
use vega_revenue_os.Aggregate.{Stamp}
use vega_revenue_os.Idempotency.Store.{IdempotencyRecord, RecordStatus, get}
use vega_revenue_os.Outreach.Effect.{
  Result, value, early, conflict, thrown, M, pure, found, ◌>>=◌, catch_conflict, Ends, Any, Holds,
  bind-Ends, catch_conflict-Ends,
}
use vega_revenue_os.Outreach.Repository.{
  Context, Saved, saved, stale, mismatched, load, save, settled,
}
use vega_revenue_os.Outreach.Repository.Rows.{save-settled}
use vega_revenue_os.Outreach.Execution.State.{Execution, RetryClassification}
use vega_revenue_os.Outreach.Execution.Command as Command
use vega_revenue_os.Outreach.Execution.Command.{Command, run}
use vega_revenue_os.Outreach.Execution.Commands.{mark_delivery_unknown}
use vega_revenue_os.Outreach.Sequence.State.{Sequence}
use vega_revenue_os.Outreach.Campaign.State.{Campaign}
use vega_revenue_os.Outreach.Send.World.{
  SendResult, failed, not_found_after_duplicate, outcome_unknown, Call, SendWorld, executions_table,
  sequences_table, campaigns_table, store_saved, load_execution, save_execution, save_campaign,
  save_sequence,
}
use vega_revenue_os.Outreach.Gate.Release.{mark_idempotency_failed}
use vega_revenue_os.Outreach.Send.Steps.{Step, release_key, fail_and_release}
use vega_revenue_os.Outreach.Send.Duplicate.{
  save_authoritative, save_and_answer, recover_completed, resolve_pending, require_reconciliation,
  resolve_record, resolve_status, get_record, handle_duplicate_send, result_from_execution, when,
  advance_to_delivery_pending, stale_claim, unproven, text_or, is_positive_terminal,
  is_expired_idempotency, is_in_flight, has_submission_attempt,
}

module _ {D : Type 0} {L : Type 0} {R : Type 0} where
  -- `P` is what is known of the execution that the call with this context and id is about.
  pub record IsFrame (ctx : Context) (id : ℕ) (P : Execution → Type 0)
      (T : SendWorld D L R → SendWorld D L R → Type 0) : Type 0 where
    pub self : (w : SendWorld D L R) → T w w
    pub compose : (u v w : SendWorld D L R) → T u v → T v w → T u w
    pub executions :
        (x y : Execution) (rows : List Execution) (w : SendWorld D L R)
        → P x
        → save executions_table ctx x w.executions ≡ saved rows y
        → T w (record w { executions = rows })
    pub sequences :
        (rows : List Sequence) (w : SendWorld D L R) → T w (record w { sequences = rows })
    pub campaigns :
        (rows : List (Campaign D)) (w : SendWorld D L R) → T w (record w { campaigns = rows })
    pub keys :
        (table : List (IdempotencyRecord R)) (w : SendWorld D L R)
        → T w (record w { gate = record w.gate { table = table } })
    pub loaded :
        (x : Execution) (rows : List Execution) → load executions_table ctx id rows ≡ some x → P x
    pub settle : (x : Execution) → P x → P (settled executions_table ctx x)
    pub command : (c : Command) (s : Stamp) (x : Execution) → P x → P (run c s x).0

-- What is known of an optional execution.
abbrev pub IfSome : (Execution → Type 0) → Option Execution → Type 0
IfSome P none = Unit
IfSome P (some x) = P x

module _ {D : Type 0} {L : Type 0} {R : Type 0} (k : Call D L R) {id : ℕ} {P : Execution → Type 0}
    {T : SendWorld D L R → SendWorld D L R → Type 0} (frame : IsFrame k.ctx id P T) where
  -- A step of the service that keeps the relation.
  abbrev pub Kept : {A : Type 0} → (A → Type 0) → Step k A → Type 0
  Kept Q m = Ends {E = SendResult} T Q m

  -- Both parts keep the relation.
  pub bind-Kept :
      {A B : Type 0} {m : Step k A} {f : A → Step k B} (Q : A → Type 0) (O : B → Type 0)
      → Kept Q m
      → ((a : A) → Q a → Kept O (f a))
      → Kept O (m >>= f)
  bind-Kept = bind-Ends SendResult T T T frame.compose (λ u v h. h)

  pub pure-Kept : {A : Type 0} (a : A) → Kept Any (pure a)
  pure-Kept a = record { at = λ w. (frame.self w, tt) }

  store_saved-Kept :
      (x : Execution) (w : SendWorld D L R) (r : Saved Execution)
      → P x
      → save executions_table k.ctx x w.executions ≡ r
      → T w (store_saved {E = SendResult} (λ rows w'. record w' { executions = rows }) w r).0
        × Holds P (store_saved {E = SendResult} (λ rows w'. record w' { executions = rows }) w r).1
  store_saved-Kept x w (saved rows y) p e =
      let same = save-settled executions_table k.ctx x y w.executions rows e in
      (frame.executions x y rows w p e, subst P (sym same) (frame.settle x p))
  store_saved-Kept x w stale p e = (frame.self w, tt)
  store_saved-Kept x w mismatched p e = (frame.self w, tt)

  pub save_execution-Kept : (x : Execution) → P x → Kept P (save_execution k.ctx x)
  unfolding save_execution
  save_execution-Kept x p = record { at = λ w. store_saved-Kept x w _ p refl }

  stored-Kept :
      {A : Type 0} (put : List A → SendWorld D L R → SendWorld D L R) (w : SendWorld D L R)
      (r : Saved A)
      → ((rows : List A) → T w (put rows w))
      → T w (store_saved {E = SendResult} put w r).0
        × Holds Any (store_saved {E = SendResult} put w r).1
  stored-Kept put w (saved rows y) h = (h rows, tt)
  stored-Kept put w stale h = (frame.self w, tt)
  stored-Kept put w mismatched h = (frame.self w, tt)

  pub save_campaign-Kept : (c : Campaign D) → Kept Any (save_campaign k.ctx c)
  unfolding save_campaign
  save_campaign-Kept c = record {
    at = λ w.
        stored-Kept (λ rows w'. record w' { campaigns = rows }) w
          (save campaigns_table k.ctx c w.campaigns) (λ rows. frame.campaigns rows w);
  }

  pub save_sequence-Kept : (q : Sequence) → Kept Any (save_sequence k.ctx q)
  unfolding save_sequence
  save_sequence-Kept q = record {
    at = λ w.
        stored-Kept (λ rows w'. record w' { sequences = rows }) w
          (save sequences_table k.ctx q w.sequences) (λ rows. frame.sequences rows w);
  }

  IfSome-load :
      (o : Option Execution) (rows : List Execution)
      → load executions_table k.ctx id rows ≡ o
      → IfSome P o
  IfSome-load none rows e = tt
  IfSome-load (some x) rows e = frame.loaded x rows e

  pub load_execution-Kept : Kept (IfSome P) (load_execution k.ctx id)
  unfolding load_execution
  load_execution-Kept = record { at = λ w. (frame.self w, IfSome-load _ w.executions refl) }

  pub found-Kept : (e : SendResult) (o : Option Execution) → IfSome P o → Kept P (found e o)
  found-Kept e none h = record { at = λ w. (frame.self w, tt) }
  found-Kept e (some x) h = record { at = λ w. (frame.self w, h) }

  drop-Holds : {A : Type 0} (Q : A → Type 0) (r : Result SendResult A) → Holds Q r → Holds Any r
  drop-Holds Q (value a) h = tt
  drop-Holds Q (early e) h = tt
  drop-Holds Q conflict h = tt
  drop-Holds Q thrown h = tt

  drop-Kept : {A : Type 0} {m : Step k A} (Q : A → Type 0) → Kept Q m → Kept Any m
  drop-Kept Q h = record { at = λ w. ((h.at w).0, drop-Holds Q _ (h.at w).1) }

  release_key-Kept : (x : Execution) → Kept Any (release_key k x)
  unfolding release_key mark_idempotency_failed
  release_key-Kept x = record { at = λ w. (frame.keys _ w, tt) }

  pub fail_and_release-Kept :
      (c : RetryClassification) (why : String) (code : Option String) (x : Execution)
      → P x
      → Kept Any (fail_and_release k c why code x)
  unfolding fail_and_release run
  fail_and_release-Kept c why code x p =
      bind-Kept P Any
        (save_execution-Kept _ (frame.command (Command.mark_failed c why code) (k.stamp 2) x p))
        (λ y q. release_key-Kept y)

  pub save_authoritative-Kept : (x : Execution) → P x → Kept Any (save_authoritative k x id)
  unfolding save_authoritative
  save_authoritative-Kept x p =
      catch_conflict-Ends SendResult T T T frame.compose (λ u v h. h) Any
        (drop-Kept P (save_execution-Kept x p))
        (bind-Kept (IfSome P) Any load_execution-Kept
          (λ o h. pure-Kept (elim o [ none ↦ x | some y ↦ y ])))

  -- A branch of the code.
  pub if-Kept :
      {A : Type 0} {m n : Step k A} (Q : A → Type 0) (b : Bool)
      → Kept Q m
      → Kept Q n
      → Kept Q (if b then m else n)
  if-Kept Q true h g = h
  if-Kept Q false h g = g
