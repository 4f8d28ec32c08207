-- ===== src/Order/StateMachine/Traces.antt =====
-- order-service/src/orders/order-state-machine.ts: what a whole life of an errand can do, as a
-- sequence of decisions of the table.
use foc_app.Common.{ℕ, ◌+◌, ◌≡◌, Bool, some, if◌then◌else◌}
use foc_app.Order.Types.{OrderStatus, completion_pending_credit, release_pending_credit, completed}
use foc_app.Order.StateMachine.Vocabulary.{
  OrderAction, OrderActor, order_completion_requested, order_release_requested,
}
use foc_app.Order.StateMachine.Table.{TransitionContext, TransitionDecision}
use foc_app.Order.StateMachine.Decide.{decide_transition}
use foc_app.Order.StateMachine.Laws.{emits}

abbrev count_if : Bool → ℕ
count_if b = if b then 1 else 0

-- A sequence of decisions that began in `s`, the status now, and how many completions and releases the
-- decisions requested. What the reconciler requests again for a waiting errand is not counted.
pub data Trace (s : OrderStatus) : OrderStatus → ℕ → ℕ → Type 0 where
  start : Trace s s 0 0
  decide :
      {t : OrderStatus} {completions releases : ℕ} {d : TransitionDecision}
      → Trace s t completions releases
      → (action : OrderAction) (actor : OrderActor) (c : TransitionContext)
      → decide_transition t action actor c ≡ some d
      → Trace s d.to
          (completions + count_if (emits order_completion_requested d))
          (releases + count_if (emits order_release_requested d))

-- What an errand in each status has asked the credit service to do with its reservation.
abbrev pub settled : OrderStatus → ℕ × ℕ
settled completion_pending_credit = (1, 0)
settled completed = (1, 0)
settled release_pending_credit = (0, 1)
settled OrderStatus.cancelled = (0, 1)
settled OrderStatus.expired = (0, 1)
settled _ = (0, 0)
