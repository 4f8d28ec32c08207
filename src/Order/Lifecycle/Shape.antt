-- ===== src/Order/Lifecycle/Shape.antt =====
-- order-service/src/orders/orders.repository.ts: the shape of an errand's row in each status, and
-- that every command the services send keeps it.
use foc_app.Common.{
  ℕ, ◌+◌, ◌≤◌, ◌≡◌, Bool, true, false, Option, none, some, List, [], ◌∷◌, is_some, arith,
}
use foc_app.Order.Types.{
  OrderStatus, RejectionReason, OrderRow, open_, accepted, picked_up, delivered, rejected,
  completed, release_pending_credit, disputed, completion_pending_credit,
}
use foc_app.Order.StateMachine.Vocabulary.{
  OrderAction, OrderActor, accept, credit_rejected, transfer_confirmed, release_confirmed,
  admin_assigned, admin_unassigned,
}
use foc_app.Order.StateMachine.Table.{TransitionContext, TransitionDecision, order_transitions}
use foc_app.Order.StateMachine.Decide.{decide_transition}
use foc_app.Order.StateMachine.Laws.{decision_of_rules}
use foc_app.Order.Lifecycle.Store.{Result, ok, err}
use foc_app.Order.Lifecycle.Patch.{
  Column, Periods, has_courier, is_released, row_checks, rejection_reason, available_at_rejection,
  credit_transaction_id, referred_admin_id,
}
use foc_app.Order.Lifecycle.Transition.{TransitionCommand, next_row}

abbrev waits_for_pickup : OrderStatus → Bool
waits_for_pickup open_ = true
waits_for_pickup accepted = true
waits_for_pickup _ = false

abbrev releases : OrderStatus → Bool
releases release_pending_credit = true
releases s = is_released s

-- The statuses that follow a pickup, unless the requester got the credits back.
abbrev pub was_picked_up : OrderStatus → Bool
was_picked_up picked_up = true
was_picked_up delivered = true
was_picked_up disputed = true
was_picked_up completion_pending_credit = true
was_picked_up completed = true
was_picked_up _ = false

abbrev pub was_requested : OrderStatus → Bool
was_requested completion_pending_credit = true
was_requested completed = true
was_requested _ = false

-- What each status guarantees of the row.
pub record RowShape (o : OrderRow) : Type 0 where
  pub courier_set : has_courier o.status ≡ true → is_some o.courier_id ≡ true
  pub deadline_set : waits_for_pickup o.status ≡ true → is_some o.acceptance_deadline_at ≡ true
  pub taken_set : o.status ≡ accepted → is_some o.accepted_at ≡ true
  pub pickup_set :
      was_picked_up o.status ≡ true
      → (is_some o.accepted_at ≡ true) × (is_some o.picked_up_at ≡ true)
  pub requested_set : was_requested o.status ≡ true → is_some o.completion_requested_at ≡ true
  pub report_set : o.status ≡ picked_up → is_some o.non_delivery_report_at ≡ true
  pub confirm_set : o.status ≡ delivered → is_some o.auto_confirm_at ≡ true
  pub reason_set : releases o.status ≡ true → is_some o.release_reason ≡ true
  pub released_set :
      is_released o.status ≡ true
      → (is_some o.released_at ≡ true) × (is_some o.credit_transaction_id ≡ true)
  pub completed_set :
      o.status ≡ completed
      → (is_some o.completed_at ≡ true) × (is_some o.credit_transaction_id ≡ true)
  pub rejected_set : o.status ≡ rejected → is_some o.rejection_reason ≡ true
  pub rejected_only : is_some o.rejection_reason ≡ true → o.status ≡ rejected
  pub reward_least : 1 ≤ o.reward
  pub reward_most : o.reward ≤ 5
  pub version_least : 1 ≤ o.version

-- The columns that the services add to the update of each action. No service sends ACCEPT through
-- `transition`: `accept` has an update of its own.
abbrev pub CallerPatch : OrderAction → List Column → Type 0
CallerPatch accept patch = ⊥
CallerPatch credit_rejected patch =
    (r : RejectionReason) × (available : Option ℕ) × (patch
      ≡ rejection_reason r ∷ available_at_rejection available ∷ [])
CallerPatch transfer_confirmed patch = (t : ℕ) × (patch ≡ credit_transaction_id t ∷ [])
CallerPatch release_confirmed patch = (t : ℕ) × (patch ≡ credit_transaction_id t ∷ [])
CallerPatch admin_assigned patch = (a : ℕ) × (patch ≡ referred_admin_id (some a) ∷ [])
CallerPatch admin_unassigned patch = patch ≡ referred_admin_id none ∷ []
CallerPatch _ patch = patch ≡ []

-- A call that returned, with a result of which `P` holds.
abbrev pub Succeeds {ℓ} : {A : Type ℓ} → (A → Type 0) → Result A → Type 0
Succeeds P (ok a) = P a
Succeeds P (err e) = ⊥

-- What the update wrote.
pub record Written (o : OrderRow) (d : TransitionDecision) (next : OrderRow) : Type 0 where
  pub shape : RowShape next
  pub checks : row_checks next ≡ true
  pub status_is : next.status ≡ d.to
  pub version_is : next.version ≡ o.version + 1
  pub id_kept : next.order_id ≡ o.order_id
  pub requester_kept : next.requester_id ≡ o.requester_id
  pub reward_kept : next.reward ≡ o.reward

abbrev pub Moves :
    OrderStatus → OrderAction → OrderActor → TransitionContext → TransitionDecision → Type 0
Moves s action actor c d =
    (p : Periods) (command : TransitionCommand) (now : ℕ) (o : OrderRow)
    → command.action ≡ action
    → CallerPatch action command.patch
    → o.status ≡ s
    → RowShape o
    → Succeeds (Written o d) (next_row p command d now o)

pub next_row-Moves :
    (s : OrderStatus) (action : OrderAction) (actor : OrderActor) (c : TransitionContext)
    {d : TransitionDecision}
    → decide_transition s action actor c ≡ some d
    → Moves s action actor c d
unfolding order_transitions next_row row_checks
next_row-Moves s action actor c = decision_of_rules Moves s action actor c (ground arith)
