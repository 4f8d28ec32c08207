-- ===== src/Order/StateMachine/Progress.antt =====
-- order-service/src/orders/order-state-machine.ts: no status is a dead end.
use foc_app.Common.{◌≡◌, refl, Bool, true, Option, some, none}
use foc_app.Order.Types.{
  OrderStatus, ReleaseReason, pending_credit, open_, accepted, picked_up, delivered, disputed,
  completion_pending_credit, release_pending_credit, rejected, completed, is_terminal,
}
use foc_app.Order.StateMachine.Vocabulary.{
  OrderAction, OrderActor, credit_rejected, cancel, record_delivery, confirm_receipt,
  resolve_for_requester, transfer_confirmed, release_confirmed, admin, credit_service,
}
use foc_app.Order.StateMachine.Table.{TransitionContext, TransitionDecision, order_transitions}
use foc_app.Order.StateMachine.Decide.{decide_transition}

-- Decisions of the table lead from the status to a final one.
pub data Ends : OrderStatus → Type 0 where
  ended : {s : OrderStatus} → is_terminal s ≡ true → Ends s
  moves :
      {s : OrderStatus} {d : TransitionDecision}
      → (action : OrderAction) (actor : OrderActor) (c : TransitionContext)
      → decide_transition s action actor c ≡ some d
      → Ends d.to
      → Ends s

abbrev facts : Option Bool → Option ReleaseReason → TransitionContext
facts reason release = record {
  acceptance_deadline_passed = none;
  delivery_period_passed = none;
  auto_confirmation_period_passed = none;
  requester_suspended = none;
  reason_provided = reason;
  release_reason = release;
}

release-Ends : Ends release_pending_credit
unfolding decide_transition order_transitions
release-Ends =
    moves release_confirmed credit_service (facts none (some ReleaseReason.cancelled)) refl
      (ended refl)

completion-Ends : Ends completion_pending_credit
unfolding decide_transition order_transitions
completion-Ends = moves transfer_confirmed credit_service (facts none none) refl (ended refl)

delivered-Ends : Ends delivered
unfolding decide_transition order_transitions
delivered-Ends = moves confirm_receipt OrderActor.requester (facts none none) refl completion-Ends

-- From every status some decisions of the table lead to a final status.
pub every_status-Ends : (s : OrderStatus) → Ends s
unfolding decide_transition order_transitions
every_status-Ends pending_credit =
    moves credit_rejected credit_service (facts none none) refl (ended refl)
every_status-Ends open_ = moves cancel OrderActor.requester (facts none none) refl release-Ends
every_status-Ends accepted = moves cancel OrderActor.requester (facts none none) refl release-Ends
every_status-Ends picked_up =
    moves record_delivery OrderActor.assigned_courier (facts none none) refl delivered-Ends
every_status-Ends delivered = delivered-Ends
every_status-Ends disputed =
    moves resolve_for_requester admin (facts (some true) none) refl release-Ends
every_status-Ends completion_pending_credit = completion-Ends
every_status-Ends release_pending_credit = release-Ends
every_status-Ends rejected = ended refl
every_status-Ends completed = ended refl
every_status-Ends OrderStatus.cancelled = ended refl
every_status-Ends OrderStatus.expired = ended refl
