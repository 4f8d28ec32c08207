-- ===== src/Order/Creation.antt =====
-- order-service/src/orders/orders.service.ts and orders.repository.ts: posting an errand. `id` is the
-- identifier drawn for it, `supplier` what the supplier service answers, `now` the server's clock. No
-- other call comes between the first look for the key and the transaction, which looks again.
pub mod Created
use Prim.Native.String.{String, count}
use foc_app.Common.{
  ℕ, Bool, true, false, not, ◌&&◌, Option, none, some, List, [], ◌∷◌, ◌++◌, leb, is_some, ◌==◌,
  if◌then◌else◌,
}
use foc_app.Order.Types.{OrderItem, SupplierSnapshot, OrderRow, pending_credit}
use foc_app.Order.Lifecycle.Store.{
  Store, Result, ok, err, Error, ◌>>=◌, HistoryRow, HistoryActor, HistoryAction, OutboxRow,
  OrderEvent, status_changed, reservation_requested, check_violation, unique_violation,
  missing_order, key_reused, find_order,
}
use foc_app.Order.Lifecycle.Patch.{row_checks}
use foc_app.Order.Views.{Caller, OrderView, project_order}
use foc_app.Order.Service.{KeyRow, Service, find_key, found_view, translated}

pub record CreateOrderInput : Type 0 where
  pub supplier_id : ℕ
  pub items : List OrderItem
  pub delivery_zone : String
  pub delivery_instructions : String
  pub reward : ℕ

-- The row that is inserted.
unfoldable pub pending_order :
    (id now : ℕ) → Caller → CreateOrderInput → SupplierSnapshot → OrderRow
pending_order id now c input supplier = record {
  order_id = id;
  requester_id = c.user_id;
  courier_id = none;
  referred_admin_id = none;
  supplier_snapshot = supplier;
  items = input.items;
  delivery_zone = input.delivery_zone;
  delivery_instructions = input.delivery_instructions;
  reward = input.reward;
  status = pending_credit;
  release_reason = none;
  rejection_reason = none;
  available_at_rejection = none;
  version = 1;
  acceptance_deadline_at = none;
  accepted_at = none;
  picked_up_at = none;
  delivered_at = none;
  non_delivery_report_at = none;
  auto_confirm_at = none;
  completion_requested_at = none;
  completed_at = none;
  release_requested_at = none;
  released_at = none;
  credit_transaction_id = none;
  created_at = now;
  updated_at = now;
}

abbrev is_empty {ℓ} : {A : Type ℓ} → List A → Bool
is_empty [] = true
is_empty (x ∷ xs) = false

abbrev between : ℕ → ℕ → ℕ → Bool
between lo hi n = leb lo n && leb n hi

-- The CHECK constraints that only an insertion can break, and those of every write.
unfoldable pub insert_checks : OrderRow → Bool
unfolding row_checks
insert_checks o =
    not (is_empty o.items)
    && (between 1 200 (count o.delivery_zone)
        && (between 1 1000 (count o.delivery_instructions) && row_checks o))

abbrev pub creation_entry : OrderRow → HistoryRow
creation_entry o = record {
  order_id = o.order_id;
  previous_status = none;
  new_status = pending_credit;
  action = HistoryAction.create;
  actor_type = HistoryActor.requester;
  actor_id = some o.requester_id;
  reason = none;
  order_version = 1;
  occurred_at = o.created_at;
}

abbrev outbox_row : (correlation : ℕ) → OrderRow → OrderEvent → OutboxRow
outbox_row correlation o event = record {
  event = event;
  aggregate_id = o.order_id;
  correlation_id = correlation;
  causation_id = none;
}

abbrev pub creation_events : (correlation : ℕ) → OrderRow → List OutboxRow
creation_events correlation o =
    outbox_row correlation o (status_changed o.order_id none pending_credit o.created_at 1)
    ∷ outbox_row correlation o (reservation_requested o.order_id o.requester_id o.reward)
    ∷ []

-- The five insertions.
unfoldable pub insert_order : (correlation : ℕ) → KeyRow → OrderRow → Service → Result Service
unfolding insert_checks
insert_order correlation key o s =
    if not (insert_checks o)
    then err check_violation
    else if is_some (find_order o.order_id s.tables.orders)
    then err unique_violation
    else ok (record s {
      tables = record s.tables {
        orders = s.tables.orders ++ (o ∷ []);
        history = s.tables.history ++ (creation_entry o ∷ []);
        outbox = s.tables.outbox ++ creation_events correlation o;
      };
      creation_keys = s.creation_keys ++ (key ∷ []);
    })

abbrev replay_creation : KeyRow → KeyRow → Service → Result ((OrderRow × Bool) × Service)
replay_creation key row s =
    if not (row.request_hash == key.request_hash)
    then err key_reused
    else elim (find_order row.order_id s.tables.orders) [
      | none ↦ err missing_order
      | some o ↦ ok ((o, true), s)
    ]

-- `createPending`: the row with whether it was there before.
unfoldable pub create_pending :
    (correlation : ℕ) → KeyRow → OrderRow → Service → Result ((OrderRow × Bool) × Service)
create_pending correlation key o s =
    elim (find_key key.caller_id key.idempotency_key s.creation_keys) [
      | none ↦ (insert_order correlation key o s >>= λ s'. ok ((o, false), s'))
      | some row ↦ replay_creation key row s
    ]

-- `findIdempotent`
abbrev pub find_idempotent : ℕ → ℕ → Service → Option (ℕ × OrderRow)
find_idempotent caller key s = elim (find_key caller key s.creation_keys) [
  | none ↦ none
  | some row ↦ elim (find_order row.order_id s.tables.orders) [
    | none ↦ none
    | some o ↦ some (row.request_hash, o)
  ]
]

-- The view with whether the errand was there before.
abbrev pub created_view :
    (now : ℕ) → Caller → OrderRow → (replayed : Bool) → Result (OrderView × Bool)
created_view now c o replayed = found_view (project_order now o c) >>= λ v. ok (v, replayed)

abbrev conclude_creation :
    (now : ℕ)
    → Caller
    → Service
    → Result ((OrderRow × Bool) × Service)
    → Result (OrderView × Bool) × Service
conclude_creation now c s (err e) = (err (translated e), s)
conclude_creation now c s (ok ((o, replayed), s')) = (created_view now c o replayed, s')

module _ (hash : CreateOrderInput → ℕ) where
  abbrev pub creation_key : (id : ℕ) → Caller → (key : ℕ) → CreateOrderInput → KeyRow
  creation_key id c key input = record {
    caller_id = c.user_id;
    idempotency_key = key;
    order_id = id;
    request_hash = hash input;
  }

  module _ (id now correlation : ℕ) (supplier : Result SupplierSnapshot) (c : Caller) (key : ℕ)
      (input : CreateOrderInput) where
    abbrev create_anew : Service → Result SupplierSnapshot → Result (OrderView × Bool) × Service
    create_anew s (err e) = (err e, s)
    create_anew s (ok snapshot) = conclude_creation now c s (
        create_pending correlation (creation_key id c key input)
          (pending_order id now c input snapshot) s)

    abbrev create_found : Service → Option (ℕ × OrderRow) → Result (OrderView × Bool) × Service
    create_found s none = create_anew s supplier
    create_found s (some (recorded, o)) =
        if not (recorded == hash input)
        then (err (translated key_reused), s)
        else (created_view now c o true, s)

    -- `create`
    unfoldable pub create : Service → Result (OrderView × Bool) × Service
    create s = create_found s (find_idempotent c.user_id key s)
