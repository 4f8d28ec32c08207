-- ===== src/Order/StateMachine/Decide.antt =====
-- order-service/src/orders/order-state-machine.ts: `decideTransition`, `SUSPENSION_EFFECTS` and
-- `RESOLVE_ACTIONS`.
use foc_app.Common.{Bool, true, ◌&&◌, Option, none, some, List, any, find, ◌==◌}
use foc_app.Order.Types.{OrderStatus, open_, accepted, picked_up}
use foc_app.Order.StateMachine.Vocabulary.{
  OrderAction, OrderActor, status_index, action_index, actor_index,
}
use foc_app.Order.StateMachine.Table.{
  TransitionContext, TransitionDecision, TransitionRule, order_transitions,
}

-- `!candidate.guard || candidate.guard(context)`
abbrev pub passes : Option (TransitionContext → Bool) → TransitionContext → Bool
passes none c = true
passes (some g) c = g c

-- `candidate.actors.includes(actor)`
abbrev pub includes : List OrderActor → OrderActor → Bool
includes actors actor = any (λ a. actor_index a == actor_index actor) actors

-- The test that `ORDER_TRANSITIONS.find` applies to a candidate.
abbrev pub matches :
    OrderStatus → OrderAction → OrderActor → TransitionContext → TransitionRule → Bool
matches from action actor c rule =
    (status_index rule.from == status_index from)
    && ((action_index rule.action == action_index action)
        && (includes rule.actors actor && passes rule.guard c))

-- `rule?.decide(context) ?? null`
abbrev pub decided : TransitionContext → Option TransitionRule → Option TransitionDecision
decided c none = none
decided c (some rule) = some (rule.decide c)

unfoldable pub decide_transition :
    OrderStatus → OrderAction → OrderActor → TransitionContext → Option TransitionDecision
unfolding order_transitions
decide_transition from action actor c =
    decided c (find (matches from action actor c) order_transitions)

-- `SUSPENSION_EFFECTS`: a participant's part in an errand, and the action tried from each status.
pub data Part : Type 0 where
  requester courier : Part

unfoldable pub suspension_action : Part → OrderStatus → Option OrderAction
suspension_action Part.requester open_ = some OrderAction.requester_suspended
suspension_action Part.requester accepted = some OrderAction.requester_suspended
suspension_action Part.requester picked_up = some OrderAction.delivery_period_passed
suspension_action Part.courier accepted = some OrderAction.courier_suspended
suspension_action Part.courier picked_up = some OrderAction.courier_suspended
suspension_action _ _ = none

-- `RESOLVE_ACTIONS`
unfoldable pub resolve_action : Part → OrderAction
resolve_action Part.courier = OrderAction.resolve_for_courier
resolve_action Part.requester = OrderAction.resolve_for_requester
