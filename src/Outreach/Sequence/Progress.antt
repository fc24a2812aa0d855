-- ===== src/Outreach/Sequence/Progress.antt =====
-- How far a sequence is (packages/domain/src/outreach/sequence.ts).
use vega_revenue_os.Prelude.{
  ℕ, zero, suc, ◌≤◌, ◌<◌, ◌≡◌, ◌≢◌, refl, Bool, true, false, is_some, get_elem?, List, [], ◌∷◌,
  arith, length,
}
use vega_revenue_os.Aggregate.{Stamp, Outcome, fail}
use vega_revenue_os.Outreach.Sequence.State.{
  Sequence, SequenceKey, SequenceStatus, SequenceError, completed, cancelled, failed, type_error,
  new_sequence,
}
use vega_revenue_os.Outreach.Sequence.Command.{Command, run, run_all}

-- The states in which a sequence may still do a step.
abbrev pub is_live : SequenceStatus → Bool
is_live completed = false
is_live cancelled = false
is_live failed = false
is_live _ = true

abbrev pub is_completed : SequenceStatus → Bool
is_completed completed = true
is_completed _ = false

pub record IsOnTrack (q : Sequence) : Type 0 where
  pub live_step : is_live q.status ≡ true → q.current_step_index < length q.key.steps
  pub done_all : is_completed q.status ≡ true → q.current_step_index ≡ length q.key.steps
  pub bounded : q.current_step_index ≤ length q.key.steps

-- An index is in range exactly if there is a step.
get_elem?-length :
    {A : Type 0} (xs : List A) (i : ℕ) → i < length xs → is_some (get_elem? xs i) ≡ true
get_elem?-length [] i h = absurd (omega arith)
get_elem?-length (x ∷ xs) zero h = refl
get_elem?-length (x ∷ xs) (suc i) h = get_elem?-length xs i (omega arith)

run-IsOnTrack : (c : Command) (s : Stamp) (q : Sequence) → IsOnTrack q → IsOnTrack (run c s q).0
unfolding run
run-IsOnTrack Command.start s q h = ground arith
run-IsOnTrack c s q h = ground (arith, get_elem?-length q.key.steps q.current_step_index)

run-ne-type_error :
    (c : Command) (s : Stamp) (q : Sequence) → IsOnTrack q → (run c s q).1 ≢ fail type_error
unfolding run
run-ne-type_error Command.start s q h = ground arith
run-ne-type_error c s q h = ground (arith, get_elem?-length q.key.steps q.current_step_index)

-- Each outcome of a history, in order.
abbrev pub outcomes : List (Command × Stamp) → Sequence → List (Outcome SequenceError)
outcomes [] q = []
outcomes ((c, s) ∷ cs) q = (run c s q).1 ∷ outcomes cs (run c s q).0

abbrev pub NoTypeError : List (Outcome SequenceError) → Type 0
NoTypeError [] = Unit
NoTypeError (r ∷ rs) = (r ≢ fail type_error) × NoTypeError rs

run_all-IsOnTrack :
    (cs : List (Command × Stamp)) (q : Sequence)
    → IsOnTrack q
    → IsOnTrack (run_all cs q) × NoTypeError (outcomes cs q)
unfolding run_all
run_all-IsOnTrack [] q h = (h, tt)
run_all-IsOnTrack ((c, s) ∷ cs) q h =
    let (k, rest) = run_all-IsOnTrack cs (run c s q).0 (run-IsOnTrack c s q h) in
    (k, (run-ne-type_error c s q h, rest))

-- A new sequence with at least one step has, after any history of commands, a step left to do while it
-- is live, and all its steps behind it if it is completed; and no command of the history reads a step
-- that is not there.
pub history-IsOnTrack :
    (cs : List (Command × Stamp)) (tenant id : ℕ) (key : SequenceKey) (now : ℕ)
    → 0 < length key.steps
    → let q = new_sequence tenant id key now in
      IsOnTrack (run_all cs q) × NoTypeError (outcomes cs q)
unfolding new_sequence
history-IsOnTrack cs tenant id key now h =
    run_all-IsOnTrack cs (new_sequence tenant id key now)
      (record { live_step = λ _. h; done_all = λ e. cc; bounded = omega arith })
