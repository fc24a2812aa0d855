-- ===== src/Outreach/Sequence/Commands.antt =====
-- The commands of a sequence (packages/domain/src/outreach/sequence.ts). What a command assigns or
-- emits before it fails stays.
use vega_revenue_os.Prelude.{
  ℕ, ◌+◌, String, Bool, true, false, not, Option, none, some, get_elem?, length, ltb, leb, ◌==◌,
  if◌then◌else◌,
}
use vega_revenue_os.Aggregate.{Stamp, Outcome, ok, fail, emit}
use vega_revenue_os.Outreach.Step.{SequenceStep}
use vega_revenue_os.Outreach.Sequence.State.{
  Sequence, SequenceStatus, SequenceError, pending_approval, approved, running, waiting, paused,
  completed, cancelled, failed, transition, submitted, sequence_started, all_steps_completed,
  sequence_resumed, awaiting_response, response_or_timeout, given, rejected, step_started,
  step_completed, step_failed, workflow_linked, not_running, no_more_steps, too_early,
  already_linked, type_error,
}

abbrev pub Done : Type 0
Done = Sequence × Outcome SequenceError

abbrev pub is_running : SequenceStatus → Bool
is_running running = true
is_running _ = false

-- `submitForApproval`.
unfoldable pub submit_for_approval : Stamp → Sequence → Done
unfolding transition
submit_for_approval s q = transition pending_approval submitted none s q

unfoldable pub approve : ℕ → String → Stamp → Sequence → Done
unfolding transition
approve by why s q = transition approved (given why) (some by) s q

unfoldable pub reject : ℕ → String → Stamp → Sequence → Done
unfolding transition
reject by why s q = transition cancelled (rejected why) (some by) s q

unfoldable pub start : Stamp → Sequence → Done
unfolding transition
start s q = transition running sequence_started none s q

-- `this.nextDueAt && scheduledAt.getTime() < this.nextDueAt.getTime()`
abbrev pub is_early : Option ℕ → ℕ → Bool
is_early none at_time = false
is_early (some due) at_time = ltb at_time due

-- `startStep`.
unfoldable pub start_step : ℕ → ℕ → Stamp → Sequence → Done
start_step execution_id scheduled_at s q =
    if not (is_running q.status)
    then (q, fail not_running)
    else if leb (length q.key.steps) q.current_step_index
    then (q, fail no_more_steps)
    else if is_early q.next_due_at scheduled_at
    then (q, fail too_early)
    else elim (get_elem? q.key.steps q.current_step_index) [
      | none ↦ (q, fail type_error)
      | some step ↦ (
        record q {
          root =
              emit s (step_started q.root.id q.key.campaign_id step.step_number execution_id)
                q.root;
        },
        ok,
      )
    ]

abbrev number_of : Option SequenceStep → Option ℕ
number_of none = none
number_of (some step) = some step.step_number

-- `completeStep` once the index has moved on to that of `q`, for the step that was completed.
abbrev close_step : ℕ → Option ℕ → Stamp → Sequence → Option SequenceStep → Done
close_step execution_id next_due_at s q none = (q, fail type_error)
close_step execution_id next_due_at s q (some step) =
    let r = record q {
      root =
          emit s
            (step_completed q.root.id q.key.campaign_id step.step_number execution_id
              (number_of (get_elem? q.key.steps q.current_step_index)) next_due_at)
            q.root;
    } in
    if ltb q.current_step_index (length q.key.steps)
    then (r, ok)
    else transition completed all_steps_completed none s r

-- `completeStep`.
unfoldable pub complete_step : ℕ → Option ℕ → Stamp → Sequence → Done
unfolding transition
complete_step execution_id next_due_at s q =
    if not (is_running q.status)
    then (q, fail not_running)
    else close_step execution_id next_due_at s
        (record q { current_step_index = q.current_step_index + 1; next_due_at = next_due_at })
        (get_elem? q.key.steps q.current_step_index)

-- `failStep`.
unfoldable pub fail_step : ℕ → String → Bool → Stamp → Sequence → Done
unfolding transition
fail_step execution_id why retryable s q =
    if not (is_running q.status)
    then (q, fail not_running)
    else elim (get_elem? q.key.steps q.current_step_index) [
      | none ↦ (q, fail type_error)
      | some step ↦
          let r = record q {
            root =
                emit s
                  (step_failed q.root.id q.key.campaign_id step.step_number execution_id why
                    retryable)
                  q.root;
          } in
          if retryable then (r, ok) else transition failed (given why) none s r
    ]

unfoldable pub pause : String → Stamp → Sequence → Done
unfolding transition
pause why s q = transition paused (given why) none s q

unfoldable pub resume : Stamp → Sequence → Done
unfolding transition
resume s q = transition running sequence_resumed none s q

-- `waitForResponse`.
unfoldable pub wait_for_response : ℕ → Stamp → Sequence → Done
unfolding transition
wait_for_response deadline s q =
    if not (is_running q.status)
    then (q, fail not_running)
    else transition waiting awaiting_response none s
        (record q { response_deadline_at = some deadline })

-- `continueAfterResponse`.
unfoldable pub continue_after_response : Stamp → Sequence → Done
unfolding transition
continue_after_response s q =
    transition running response_or_timeout none s (record q { response_deadline_at = none })

-- `this.workflowId && this.workflowId !== workflowId`
abbrev is_other : Option ℕ → ℕ → Bool
is_other none id = false
is_other (some linked) id = not (linked == id)

-- `linkWorkflow`.
unfoldable pub link_workflow : ℕ → Stamp → Sequence → Done
link_workflow id s q = if is_other q.workflow_id id then (q, fail already_linked) else (
  record q {
    workflow_id = some id;
    workflow_started_at = some s.now;
    updated_at = s.now;
    root = emit s (workflow_linked q.root.id id) q.root;
  },
  ok,
)

unfoldable pub cancel : String → Stamp → Sequence → Done
unfolding transition
cancel why s q = transition cancelled (given why) none s q
