-- ===== src/Order/StateMachine/Authority.antt =====
-- order-service/src/orders/order-state-machine.ts: who may take an errand where, and what a
-- participant's suspension does.
use foc_app.Common.{◌≡◌, ◌≢◌, true, false, Option, none, some, arith}
use foc_app.Order.Types.{
  OrderStatus, open_, accepted, picked_up, delivered, disputed, completion_pending_credit,
  release_pending_credit, completed, is_terminal,
}
use foc_app.Order.StateMachine.Vocabulary.{OrderAction, OrderActor}
use foc_app.Order.StateMachine.Table.{
  TransitionContext, TransitionDecision, truthy, order_transitions,
}
use foc_app.Order.StateMachine.Decide.{decide_transition, suspension_action, Part}
use foc_app.Order.StateMachine.Laws.{decision_of_rules}

-- What a decision tells of the actor who got it and of the flags that were set.
pub record DecisionAuthority (s : OrderStatus) (actor : OrderActor) (c : TransitionContext)
    (d : TransitionDecision) : Type 0 where
  pub end_by_credit : is_terminal d.to ≡ true → actor ≡ OrderActor.credit_service
  pub completed_from : d.to ≡ completed → s ≡ completion_pending_credit
  pub ruling :
      s ≡ disputed
      → d.to ≢ disputed
      → (actor ≡ OrderActor.admin) × (truthy c.reason_provided ≡ true)
  pub non_receipt :
      s ≡ delivered
      → d.to ≡ disputed
      → (actor ≡ OrderActor.requester) × (truthy c.auto_confirmation_period_passed ≡ false)
  pub non_delivery :
      s ≡ picked_up
      → d.to ≡ disputed
      → actor ≡ OrderActor.requester
      → truthy c.delivery_period_passed ≡ true
  pub taken :
      d.to ≡ accepted
      → (s ≡ open_)
        × (actor ≡ OrderActor.other_student)
        × (truthy c.acceptance_deadline_passed ≡ false)
  pub reopened : s ≡ accepted → d.to ≡ open_ → actor ≢ OrderActor.requester

-- Every decision respects authority: only the credit service ends an errand, an errand completes from
-- COMPLETION_PENDING_CREDIT alone, a dispute is decided by an administrator with a reason, the
-- requester reports in time, and only another student takes an errand, before its deadline.
pub decision_authority :
    (s : OrderStatus) (action : OrderAction) (actor : OrderActor) (c : TransitionContext)
    {d : TransitionDecision}
    → decide_transition s action actor c ≡ some d
    → DecisionAuthority s actor c d
unfolding order_transitions
decision_authority s action actor c =
    decision_of_rules (λ s _ actor c d. DecisionAuthority s actor c d) s action actor c
      (ground arith)

abbrev pub next_status : Option TransitionDecision → Option OrderStatus
next_status none = none
next_status (some d) = some d.to

-- Where a suspension leaves the errand.
abbrev pub suspension_outcome : Part → OrderStatus → OrderStatus
suspension_outcome Part.requester picked_up = disputed
suspension_outcome Part.requester _ = release_pending_credit
suspension_outcome Part.courier picked_up = disputed
suspension_outcome Part.courier _ = open_

-- Each action of `SUSPENSION_EFFECTS` is decided for the system once the requester's suspension and
-- the end of the delivery period are known: an errand not yet picked up is released for its requester
-- or reopened after its courier, and one that was picked up is disputed.
pub suspension_decides :
    (part : Part) (s : OrderStatus) (c : TransitionContext) {action : OrderAction}
    → suspension_action part s ≡ some action
    → truthy c.requester_suspended ≡ true
    → truthy c.delivery_period_passed ≡ true
    → next_status (decide_transition s action OrderActor.system c)
      ≡ some (suspension_outcome part s)
unfolding decide_transition order_transitions suspension_action
suspension_decides part s c h suspended passed = ground arith
