-- ===== src/Outreach/Send/Moved.antt =====
-- Saves of an execution which another worker has saved since it was loaded
-- (packages/outreach/src/application/outreach-execution.service.ts,
-- packages/outreach/src/infrastructure/postgres-message-execution-repository.ts).
use vega_revenue_os.Prelude.{
  ℕ, ◌≡◌, ◌≢◌, ◌∙◌, refl, sym, subst, String, true, Option, none, some, List, [], ◌∷◌, arith, inl,
  inr, Bool-cases,
}
use vega_revenue_os.Aggregate.{Stamp, Outcome, ok, fail}
use vega_revenue_os.Outreach.Effect.{conflict, ◌>>=◌}
use vega_revenue_os.Outreach.Repository.{Context, stale, is_row, update_row, save}
use vega_revenue_os.Outreach.Execution.State.{
  Execution, ExecutionError, RetryClassification, non_retryable,
}
use vega_revenue_os.Outreach.Execution.Commands.{mark_failed, mark_provider_attempt}
use vega_revenue_os.Outreach.Execution.Command as Command
use vega_revenue_os.Outreach.Execution.Command.{run}
use vega_revenue_os.Outreach.Send.World.{
  Call, SendWorld, SendResult, Provider, executions_table, save_execution,
}
use vega_revenue_os.Outreach.Send.Identity.{run-row, run-loaded, IsRow-id}
use vega_revenue_os.Outreach.Send.Steps.{fail_and_release}
use vega_revenue_os.Outreach.Send.Attempt.{Loaded, send_attempt}
use vega_revenue_os.Outreach.Send.Execute.{attempted, send_by}

-- No row of the execution has the version any more.
abbrev pub IsMoved : Context → ℕ → ℕ → List Execution → Type 0
IsMoved ctx id version [] = Unit
IsMoved ctx id version (x ∷ xs) =
    (is_row executions_table ctx id x ≡ true → x.root.version ≢ version) × IsMoved ctx id version xs

-- The execution, as it was loaded with the version.
pub record IsHeld (ctx : Context) (id version : ℕ) (x : Execution) : Type 0 where
  pub in_row : is_row executions_table ctx id x ≡ true
  pub loaded : x.root.loaded_version ≡ some version

update_row-moved :
    (ctx : Context) (id version : ℕ) (x : Execution) (rows : List Execution)
    → IsMoved ctx id version rows
    → update_row executions_table ctx id version x rows ≡ none
unfolding update_row
update_row-moved ctx id version x [] h = refl
update_row-moved ctx id version x (y ∷ ys) (h, hs) =
    let ih = update_row-moved ctx id version x ys hs in
    elim (Bool-cases (is_row executions_table ctx id y)) [
      | inl mine ↦ let other = h mine in ground arith
      | inr other ↦ ground arith
    ]

save-moved :
    (ctx : Context) (id version : ℕ) (x : Execution) (rows : List Execution)
    → IsHeld ctx id version x
    → IsMoved ctx id version rows
    → save executions_table ctx x rows ≡ stale
unfolding save
save-moved ctx id version x rows h m =
    let same : x.root.id ≡ id = IsRow-id ctx id x h.in_row in
    let none_left : update_row executions_table ctx x.root.id version x rows ≡ none =
      subst (λ i. update_row executions_table ctx i version x rows ≡ none) (sym same)
        (update_row-moved ctx id version x rows m) in
    let row = h.in_row in let loaded = h.loaded in ground arith

pub run-IsHeld :
    (ctx : Context) (id version : ℕ) (c : Command.Command) (s : Stamp) (x : Execution)
    → IsHeld ctx id version x
    → IsHeld ctx id version (run c s x).0
run-IsHeld ctx id version c s x h = record {
  in_row = run-row ctx id c s x ∙ h.in_row;
  loaded = run-loaded c s x ∙ h.loaded;
}

module _ {D : Type 0} {L : Type 0} {R : Type 0} (k : Call D L R) (id approval version : ℕ) where
  abbrev Held : Execution → Type 0
  Held x = IsHeld k.ctx id version x

  abbrev Moved : SendWorld D L R → Type 0
  Moved w = IsMoved k.ctx id version w.executions

  save_execution-moved :
      (x : Execution) (w : SendWorld D L R)
      → Held x
      → Moved w
      → save_execution {E = SendResult} k.ctx x w ≡ (w, conflict)
  unfolding save_execution
  save_execution-moved x w h m = rw (save-moved k.ctx id version x w.executions h m) refl

  send_attempt-moved :
      (provider : Provider D) (l : Loaded D) (x : Execution) (w : SendWorld D L R)
      → Held x
      → Moved w
      → (send_attempt k id approval provider l x w).0 ≡ w
  unfolding send_attempt
  send_attempt-moved provider l x w h m = rw (save_execution-moved x w h m) refl

  attempted-moved :
      (provider : Provider D) (l : Loaded D) (r : Execution × Outcome ExecutionError)
      (w : SendWorld D L R)
      → Held r.0
      → Moved w
      → ((attempted k id approval r >>= send_attempt k id approval provider l) w).0 ≡ w
  attempted-moved provider l (x, ok) w h m = send_attempt-moved provider l x w h m
  attempted-moved provider l (x, fail e) w h m = refl

  fail_and_release-moved :
      (c : RetryClassification) (why : String) (code : Option String) (x : Execution)
      (w : SendWorld D L R)
      → Held x
      → Moved w
      → fail_and_release k c why code x w ≡ (w, conflict)
  unfolding fail_and_release run
  fail_and_release-moved c why code x w h m =
      rw
        (save_execution-moved (mark_failed c why code (k.stamp 2) x).0 w
          (run-IsHeld k.ctx id version (Command.mark_failed c why code) (k.stamp 2) x h) m)
        refl

  pub send_by-moved :
      (o : Option (Provider D)) (l : Loaded D) (x : Execution) (w : SendWorld D L R)
      → Held x
      → Moved w
      → (send_by k id approval o l x w).0 ≡ w
  unfolding run
  send_by-moved none l x w h m =
      rw
        (fail_and_release-moved non_retryable "No provider available for channel"
          (some "NO_PROVIDER") x w h m)
        refl
  send_by-moved (some provider) l x w h m =
      attempted-moved provider l (mark_provider_attempt provider.provider_id k.now x) w
        (run-IsHeld k.ctx id version (Command.mark_provider_attempt provider.provider_id)
          (record { event_id = 0; correlation_id = 0; now = k.now }) x h)
        m
