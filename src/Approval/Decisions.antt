-- ===== src/Approval/Decisions.antt =====
-- The decisions on an approval over a history of commands
-- (packages/mission-orchestrator/src/domain/approval/approval.ts).
use vega_revenue_os.Prelude.{
  ◌≡◌, ◌∙◌, refl, ap, Bool, true, false, is_some, List, [], ◌∷◌, arith, length-append,
}
use vega_revenue_os.Aggregate.{Stamp}
use vega_revenue_os.Aggregate.Log.{IsLogged}
use vega_revenue_os.Approval.State.{
  Approval, ApprovalStatus, approved, rejected, expired, Command, run, run_all, transition,
  can_transition_approval,
}

abbrev pub is_decided : ApprovalStatus → Bool
is_decided approved = true
is_decided rejected = true
is_decided expired = true
is_decided _ = false

abbrev pub is_approved : ApprovalStatus → Bool
is_approved approved = true
is_approved _ = false

run_decided :
    (c : Command) (s : Stamp) (a : Approval) → is_decided a.status ≡ true → (run c s a).0 ≡ a
unfolding run transition can_transition_approval
run_decided (Command.approve by why) s a h = ground arith
run_decided c s a h = ground arith

-- An approval that is approved, rejected or expired stays as it is in every part, whatever commands
-- follow.
pub decided_for_good :
    (cs : List (Command × Stamp)) (a : Approval) → is_decided a.status ≡ true → run_all cs a ≡ a
unfolding run_all
decided_for_good [] a h = refl
decided_for_good ((c, s) ∷ cs) a h =
    let same = run_decided c s a h in
    ap (λ (b : Approval). run_all cs b) same ∙ decided_for_good cs a h

pub record IsAccounted (a : Approval) : Type 0 where
  pub decider : is_approved a.status ≡ true → is_some a.decided_by ≡ true
  pub logged : IsLogged a.root

run-IsAccounted :
    (c : Command) (s : Stamp) (a : Approval) → IsAccounted a → IsAccounted (run c s a).0
unfolding run transition can_transition_approval
run-IsAccounted (Command.approve by why) s a h = grind (arith, length-append)
run-IsAccounted c s a h = grind (arith, length-append)

-- If an approval that is approved names who decided, and the version counts the events not yet
-- saved, then this holds after any history of commands.
pub history-IsAccounted :
    (cs : List (Command × Stamp)) (a : Approval) → IsAccounted a → IsAccounted (run_all cs a)
unfolding run_all
history-IsAccounted [] a h = h
history-IsAccounted ((c, s) ∷ cs) a h =
    history-IsAccounted cs (run c s a).0 (run-IsAccounted c s a h)
