-- ===== src/Order/Lifecycle/Store.antt =====
-- order-service/src/orders/orders.repository.ts and order-service/src/db/schema.ts: the tables that
-- an errand's life writes, and the errors it can raise. A call that raises rolls its transaction
-- back, so an error carries no state.
use foc_app.Common.{
  ℕ, Bool, true, false, Option, none, some, List, [], ◌∷◌, ◌==◌, ◌&&◌, if◌then◌else◌,
}
use foc_app.Order.Types.{OrderStatus, OrderRow, SupplierSnapshot, OrderItem, ApiException}
use foc_app.Order.StateMachine.Vocabulary.{OrderAction}

-- `order_status_history.actor_type`
pub data HistoryActor : Type 0 where
  requester courier student admin credit_service system : HistoryActor

-- `order_status_history.action`: a table action, or the creation of the errand.
pub data HistoryAction : Type 0 where
  create : HistoryAction
  transition : OrderAction → HistoryAction

pub record HistoryRow : Type 0 where
  pub order_id : ℕ
  pub previous_status : Option OrderStatus
  pub new_status : OrderStatus
  pub action : HistoryAction
  pub actor_type : HistoryActor
  pub actor_id : Option ℕ
  pub reason : Option (List ℕ)
  pub order_version : ℕ
  pub occurred_at : ℕ

-- The catalogued events of the order service, with their payloads.
pub data OrderEvent : Type 0 where
  status_changed :
      (order_id : ℕ) (previous : Option OrderStatus) (next : OrderStatus)
      → (occurred_at order_version : ℕ) → OrderEvent
  reservation_requested : (order_id requester_id amount : ℕ) → OrderEvent
  completion_requested : (order_id requester_id courier_id amount : ℕ) → OrderEvent
  release_requested : (order_id requester_id amount : ℕ) → OrderEvent

pub record OutboxRow : Type 0 where
  pub event : OrderEvent
  pub aggregate_id : ℕ
  pub correlation_id : ℕ
  pub causation_id : Option ℕ

-- `order_receipts`
pub record Receipt : Type 0 where
  pub order_id : ℕ
  pub requester_id : ℕ
  pub courier_id : Option ℕ
  pub supplier_snapshot : SupplierSnapshot
  pub items : List OrderItem
  pub reward : ℕ
  pub credit_transaction_id : Option ℕ
  pub created_at : ℕ
  pub accepted_at : Option ℕ
  pub picked_up_at : Option ℕ
  pub delivered_at : Option ℕ
  pub completion_requested_at : Option ℕ
  pub completed_at : Option ℕ

pub record Store : Type 0 where
  pub orders : List OrderRow
  pub history : List HistoryRow
  pub outbox : List OutboxRow
  pub receipts : List Receipt

pub data Error : Type 0 where
  check_violation not_null_violation unique_violation invalid_time no_courier not_due : Error
  unparseable stale_event directory_unavailable missing_order supplier_unavailable : Error
  key_reused : Error
  api_exception : ApiException → Error

pub data Result {ℓ} (A : Type ℓ) : Type ℓ where
  ok : A → Result A
  err : Error → Result A

infixl 5 ◌>>=◌
abbrev pub ◌>>=◌ {ℓ κ} : {A : Type ℓ} {B : Type κ} → Result A → (A → Result B) → Result B
ok a >>= f = f a
err e >>= f = err e

-- `SELECT … FROM orders WHERE order_id = $1`
abbrev pub find_order : ℕ → List OrderRow → Option OrderRow
find_order k [] = none
find_order k (o ∷ os) = if o.order_id == k then some o else find_order k os

-- `UPDATE orders SET … WHERE order_id = $1 AND version = $2`: the rows after it. `order_id` is the
-- primary key, so at most one row changes.
abbrev pub put_order : ℕ → ℕ → OrderRow → List OrderRow → List OrderRow
put_order k v new [] = []
put_order k v new (o ∷ os) =
    if (o.order_id == k) && (o.version == v) then new ∷ os else o ∷ put_order k v new os

-- Whether that update matches a row.
abbrev pub has_version : ℕ → ℕ → List OrderRow → Bool
has_version k v [] = false
has_version k v (o ∷ os) =
    if (o.order_id == k) && (o.version == v) then true else has_version k v os
