-- ===== src/Order/StateMachine/Vocabulary.antt =====
-- order-service/src/orders/order-state-machine.ts: actions, actors and events.
use foc_app.Common.{ℕ}
use foc_app.Order.Types.{OrderStatus}

pub data OrderAction : Type 0 where
  credit_reserved credit_rejected accept cancel requester_suspended : OrderAction
  acceptance_deadline_passed record_pickup withdraw pickup_timeout courier_suspended : OrderAction
  record_delivery report_non_delivery delivery_period_passed confirm_receipt : OrderAction
  auto_confirm report_non_receipt resolve_for_courier resolve_for_requester : OrderAction
  admin_assigned admin_unassigned transfer_confirmed release_confirmed : OrderAction

pub data OrderActor : Type 0 where
  requester assigned_courier other_student admin credit_service system : OrderActor

-- The catalogued event types that a transition emits.
pub data EventType : Type 0 where
  order_status_changed order_completion_requested order_release_requested : EventType

-- `===` on statuses, actions and actors: each is a closed enumeration, compared by its position.
abbrev pub status_index : OrderStatus → ℕ
status_index OrderStatus.pending_credit = 0
status_index OrderStatus.open_ = 1
status_index OrderStatus.accepted = 2
status_index OrderStatus.picked_up = 3
status_index OrderStatus.delivered = 4
status_index OrderStatus.disputed = 5
status_index OrderStatus.completion_pending_credit = 6
status_index OrderStatus.release_pending_credit = 7
status_index OrderStatus.rejected = 8
status_index OrderStatus.completed = 9
status_index OrderStatus.cancelled = 10
status_index OrderStatus.expired = 11

abbrev pub action_index : OrderAction → ℕ
action_index OrderAction.credit_reserved = 0
action_index OrderAction.credit_rejected = 1
action_index OrderAction.accept = 2
action_index OrderAction.cancel = 3
action_index OrderAction.requester_suspended = 4
action_index OrderAction.acceptance_deadline_passed = 5
action_index OrderAction.record_pickup = 6
action_index OrderAction.withdraw = 7
action_index OrderAction.pickup_timeout = 8
action_index OrderAction.courier_suspended = 9
action_index OrderAction.record_delivery = 10
action_index OrderAction.report_non_delivery = 11
action_index OrderAction.delivery_period_passed = 12
action_index OrderAction.confirm_receipt = 13
action_index OrderAction.auto_confirm = 14
action_index OrderAction.report_non_receipt = 15
action_index OrderAction.resolve_for_courier = 16
action_index OrderAction.resolve_for_requester = 17
action_index OrderAction.admin_assigned = 18
action_index OrderAction.admin_unassigned = 19
action_index OrderAction.transfer_confirmed = 20
action_index OrderAction.release_confirmed = 21

abbrev pub actor_index : OrderActor → ℕ
actor_index OrderActor.requester = 0
actor_index OrderActor.assigned_courier = 1
actor_index OrderActor.other_student = 2
actor_index OrderActor.admin = 3
actor_index OrderActor.credit_service = 4
actor_index OrderActor.system = 5

abbrev pub event_index : EventType → ℕ
event_index order_status_changed = 0
event_index order_completion_requested = 1
event_index order_release_requested = 2
