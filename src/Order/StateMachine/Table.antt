-- ===== src/Order/StateMachine/Table.antt =====
-- order-service/src/orders/order-state-machine.ts: the rules of the transition table.
use foc_app.Common.{ℕ, Bool, false, not, ◌&&◌, Option, none, some, List, [], ◌∷◌, ◌==◌}
use foc_app.Order.Types.{
  OrderStatus, ReleaseReason, pending_credit, open_, accepted, picked_up, delivered, disputed,
  completion_pending_credit, release_pending_credit, rejected, completed,
}
use foc_app.Order.StateMachine.Vocabulary.{
  OrderAction, OrderActor, EventType, order_status_changed, order_completion_requested,
  order_release_requested,
}

-- What is known when a command is decided; an optional flag of the source is `none` when left out.
pub record TransitionContext : Type 0 where
  pub acceptance_deadline_passed : Option Bool
  pub delivery_period_passed : Option Bool
  pub auto_confirmation_period_passed : Option Bool
  pub requester_suspended : Option Bool
  pub reason_provided : Option Bool
  pub release_reason : Option ReleaseReason

pub record TransitionDecision : Type 0 where
  pub to : OrderStatus
  pub release_reason : Option ReleaseReason
  pub emitted : List EventType

pub record TransitionRule : Type 0 where
  pub from : OrderStatus
  pub action : OrderAction
  pub actors : List OrderActor
  pub guard : Option (TransitionContext → Bool)
  pub decide : TransitionContext → TransitionDecision

-- `flag === true`; `!flag` is its negation, on a flag that is left out too.
abbrev pub truthy : Option Bool → Bool
truthy none = false
truthy (some b) = b

abbrev pub reason_index : ReleaseReason → ℕ
reason_index ReleaseReason.cancelled = 0
reason_index ReleaseReason.expired = 1

abbrev pub is_reason : ReleaseReason → Option ReleaseReason → Bool
is_reason r none = false
is_reason r (some s) = reason_index s == reason_index r

abbrev pub status_changed : List EventType
status_changed = order_status_changed ∷ []

abbrev pub completion : List EventType
completion = order_completion_requested ∷ order_status_changed ∷ []

abbrev pub release : List EventType
release = order_release_requested ∷ order_status_changed ∷ []

-- The literals of the table: a rule, and a decision that does not read the context.
abbrev rule :
    OrderStatus
    → OrderAction
    → List OrderActor
    → Option (TransitionContext → Bool)
    → (TransitionContext → TransitionDecision)
    → TransitionRule
rule f a by g d = record { from = f; action = a; actors = by; guard = g; decide = d }

abbrev leads :
    OrderStatus → Option ReleaseReason → List EventType → TransitionContext → TransitionDecision
leads s r events _ = record { to = s; release_reason = r; emitted = events }

-- `ORDER_TRANSITIONS`, in the order of the source.
unfoldable pub order_transitions : List TransitionRule
order_transitions =
    rule pending_credit OrderAction.credit_reserved (OrderActor.credit_service ∷ [])
      (some (λ c. not (truthy c.requester_suspended))) (leads open_ none status_changed)
    ∷ rule pending_credit OrderAction.credit_reserved (OrderActor.credit_service ∷ [])
        (some (λ c. truthy c.requester_suspended))
        (leads release_pending_credit (some ReleaseReason.cancelled) release)
    ∷ rule pending_credit OrderAction.credit_rejected (OrderActor.credit_service ∷ []) none
        (leads rejected none status_changed)
    ∷ rule open_ OrderAction.accept (OrderActor.other_student ∷ [])
        (some (λ c. not (truthy c.acceptance_deadline_passed))) (leads accepted none status_changed)
    ∷ rule open_ OrderAction.cancel (OrderActor.requester ∷ []) none
        (leads release_pending_credit (some ReleaseReason.cancelled) release)
    ∷ rule open_ OrderAction.requester_suspended (OrderActor.system ∷ []) none
        (leads release_pending_credit (some ReleaseReason.cancelled) release)
    ∷ rule open_ OrderAction.acceptance_deadline_passed (OrderActor.system ∷ []) none
        (leads release_pending_credit (some ReleaseReason.expired) release)
    ∷ rule accepted OrderAction.record_pickup (OrderActor.assigned_courier ∷ []) none
        (leads picked_up none status_changed)
    ∷ rule accepted OrderAction.cancel (OrderActor.requester ∷ []) none
        (leads release_pending_credit (some ReleaseReason.cancelled) release)
    ∷ rule accepted OrderAction.requester_suspended (OrderActor.system ∷ []) none
        (leads release_pending_credit (some ReleaseReason.cancelled) release)
    ∷ rule accepted OrderAction.withdraw (OrderActor.assigned_courier ∷ [])
        (some (λ c. not (truthy c.acceptance_deadline_passed))) (leads open_ none status_changed)
    ∷ rule accepted OrderAction.withdraw (OrderActor.assigned_courier ∷ [])
        (some (λ c. truthy c.acceptance_deadline_passed))
        (leads release_pending_credit (some ReleaseReason.expired) release)
    ∷ rule accepted OrderAction.pickup_timeout (OrderActor.system ∷ [])
        (some (λ c. not (truthy c.acceptance_deadline_passed))) (leads open_ none status_changed)
    ∷ rule accepted OrderAction.pickup_timeout (OrderActor.system ∷ [])
        (some (λ c. truthy c.acceptance_deadline_passed))
        (leads release_pending_credit (some ReleaseReason.expired) release)
    ∷ rule accepted OrderAction.courier_suspended (OrderActor.system ∷ []) none
        (leads open_ none status_changed)
    ∷ rule picked_up OrderAction.record_delivery (OrderActor.assigned_courier ∷ []) none
        (leads delivered none status_changed)
    ∷ rule picked_up OrderAction.report_non_delivery (OrderActor.requester ∷ [])
        (some (λ c. truthy c.delivery_period_passed)) (leads disputed none status_changed)
    ∷ rule picked_up OrderAction.delivery_period_passed (OrderActor.system ∷ [])
        (some (λ c. truthy c.requester_suspended && truthy c.delivery_period_passed))
        (leads disputed none status_changed)
    ∷ rule picked_up OrderAction.courier_suspended (OrderActor.system ∷ []) none
        (leads disputed none status_changed)
    ∷ rule delivered OrderAction.confirm_receipt (OrderActor.requester ∷ []) none
        (leads completion_pending_credit none completion)
    ∷ rule delivered OrderAction.auto_confirm (OrderActor.system ∷ []) none
        (leads completion_pending_credit none completion)
    ∷ rule delivered OrderAction.report_non_receipt (OrderActor.requester ∷ [])
        (some (λ c. not (truthy c.auto_confirmation_period_passed)))
        (leads disputed none status_changed)
    ∷ rule disputed OrderAction.resolve_for_courier (OrderActor.admin ∷ [])
        (some (λ c. truthy c.reason_provided)) (leads completion_pending_credit none completion)
    ∷ rule disputed OrderAction.resolve_for_requester (OrderActor.admin ∷ [])
        (some (λ c. truthy c.reason_provided))
        (leads release_pending_credit (some ReleaseReason.cancelled) release)
    ∷ rule disputed OrderAction.admin_assigned (OrderActor.system ∷ []) none
        (leads disputed none [])
    ∷ rule disputed OrderAction.admin_unassigned (OrderActor.system ∷ []) none
        (leads disputed none [])
    ∷ rule completion_pending_credit OrderAction.transfer_confirmed (OrderActor.credit_service ∷ [])
        none (leads completed none status_changed)
    ∷ rule release_pending_credit OrderAction.release_confirmed (OrderActor.credit_service ∷ [])
        (some (λ c. is_reason ReleaseReason.cancelled c.release_reason))
        (leads OrderStatus.cancelled none status_changed)
    ∷ rule release_pending_credit OrderAction.release_confirmed (OrderActor.credit_service ∷ [])
        (some (λ c. is_reason ReleaseReason.expired c.release_reason))
        (leads OrderStatus.expired none status_changed)
    ∷ []
