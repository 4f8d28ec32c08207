-- ===== src/Order/Lifecycle/Patch.antt =====
-- order-service/src/orders/orders.repository.ts: the columns that a transition writes
-- (`timestampPatch` and the patch of `transitionUsing`), and the CHECK constraints of
-- order-service/src/db/schema.ts that the written row must pass.
use foc_app.Common.{
  ℕ, ◌+◌, ◌-◌, Bool, true, false, not, ◌&&◌, ◌||◌, Option, none, some, List, [], ◌∷◌, ◌++◌, leb,
  is_some, if◌then◌else◌, ◌==◌,
}
use foc_app.Order.Types.{
  OrderStatus, ReleaseReason, RejectionReason, OrderRow, open_, accepted, picked_up, delivered,
  disputed, completion_pending_credit, release_pending_credit, rejected, completed,
}
use foc_app.Order.StateMachine.Vocabulary.{
  OrderAction, status_index, credit_reserved, record_pickup, withdraw, pickup_timeout,
  courier_suspended, record_delivery,
}
use foc_app.Order.Lifecycle.Store.{Result, ok, err, invalid_time}

-- One column of a patch and its new value.
pub data Column : Type 0 where
  status : OrderStatus → Column
  version updated_at acceptance_deadline_at picked_up_at non_delivery_report_at : ℕ → Column
  delivered_at auto_confirm_at completion_requested_at completed_at : ℕ → Column
  release_requested_at released_at credit_transaction_id : ℕ → Column
  courier_id accepted_at referred_admin_id available_at_rejection : Option ℕ → Column
  release_reason : ReleaseReason → Column
  rejection_reason : RejectionReason → Column

abbrev pub write : Column → OrderRow → OrderRow
write (status v) o = record o { status = v }
write (version v) o = record o { version = v }
write (updated_at v) o = record o { updated_at = v }
write (acceptance_deadline_at v) o = record o { acceptance_deadline_at = some v }
write (picked_up_at v) o = record o { picked_up_at = some v }
write (non_delivery_report_at v) o = record o { non_delivery_report_at = some v }
write (delivered_at v) o = record o { delivered_at = some v }
write (auto_confirm_at v) o = record o { auto_confirm_at = some v }
write (completion_requested_at v) o = record o { completion_requested_at = some v }
write (completed_at v) o = record o { completed_at = some v }
write (release_requested_at v) o = record o { release_requested_at = some v }
write (released_at v) o = record o { released_at = some v }
write (credit_transaction_id v) o = record o { credit_transaction_id = some v }
write (courier_id v) o = record o { courier_id = v }
write (accepted_at v) o = record o { accepted_at = v }
write (referred_admin_id v) o = record o { referred_admin_id = v }
write (available_at_rejection v) o = record o { available_at_rejection = v }
write (release_reason v) o = record o { release_reason = some v }
write (rejection_reason v) o = record o { rejection_reason = some v }

-- An object spread: a later column of the same name wins.
abbrev pub write_all : List Column → OrderRow → OrderRow
write_all [] o = o
write_all (c ∷ cs) o = write_all cs (write c o)

-- The periods of order-service/src/config.ts, in milliseconds.
pub record Periods : Type 0 where
  pub delivery_period : ℕ
  pub acceptance_window : ℕ
  pub auto_confirm : ℕ

abbrev no_courier_columns : List Column
no_courier_columns = courier_id none ∷ accepted_at none ∷ []

abbrev courier_removed : OrderAction → List Column
courier_removed withdraw = no_courier_columns
courier_removed pickup_timeout = no_courier_columns
courier_removed _ = []

-- `later(order.acceptanceDeadlineAt!, Date.parse(at) - Date.parse(order.acceptedAt!))`; a missing
-- time is no number, and `toISOString` raises.
abbrev reopened : OrderRow → ℕ → Result (List Column)
reopened o at_ = elim o.acceptance_deadline_at [
  | none ↦ err invalid_time
  | some deadline ↦ elim o.accepted_at [
    | none ↦ err invalid_time
    | some taken ↦
        ok (
          courier_id none ∷ accepted_at none ∷ acceptance_deadline_at (deadline + at_ - taken) ∷ [])
  ]
]

-- What the status that is entered stamps.
abbrev stamped : OrderAction → OrderStatus → ℕ → List Column
stamped a completion_pending_credit at_ = completion_requested_at at_ ∷ []
stamped a completed at_ = completed_at at_ ∷ []
stamped a release_pending_credit at_ = courier_removed a ++ (release_requested_at at_ ∷ [])
stamped a OrderStatus.cancelled at_ = released_at at_ ∷ []
stamped a OrderStatus.expired at_ = released_at at_ ∷ []
stamped a _ at_ = courier_removed a

abbrev is_status : OrderStatus → OrderStatus → Bool
is_status s t = status_index s == status_index t

-- `timestampPatch`
unfoldable pub timestamp_patch :
    Periods → OrderAction → OrderStatus → ℕ → OrderRow → Result (List Column)
timestamp_patch p courier_suspended to at_ o =
    if is_status to open_ then reopened o at_ else ok (stamped courier_suspended to at_)
timestamp_patch p record_pickup to at_ o =
    ok (picked_up_at at_ ∷ non_delivery_report_at (at_ + p.delivery_period) ∷ [])
timestamp_patch p credit_reserved to at_ o =
    if is_status to open_
    then ok (acceptance_deadline_at (at_ + p.acceptance_window) ∷ [])
    else ok (stamped credit_reserved to at_)
timestamp_patch p record_delivery to at_ o =
    ok (delivered_at at_ ∷ auto_confirm_at (at_ + p.auto_confirm) ∷ [])
timestamp_patch p action to at_ o = ok (stamped action to at_)

abbrev implies : Bool → Bool → Bool
implies a b = not a || b

-- The statuses of `orders_courier_shape`.
abbrev pub has_courier : OrderStatus → Bool
has_courier accepted = true
has_courier picked_up = true
has_courier delivered = true
has_courier disputed = true
has_courier completion_pending_credit = true
has_courier completed = true
has_courier _ = false

abbrev pub is_released : OrderStatus → Bool
is_released OrderStatus.cancelled = true
is_released OrderStatus.expired = true
is_released _ = false

abbrev is_equal : Bool → Bool → Bool
is_equal true b = b
is_equal false b = not b

-- The CHECK constraints on a row of `orders` that depend on what a transition writes.
unfoldable pub row_checks : OrderRow → Bool
row_checks o =
    implies (has_courier o.status) (is_some o.courier_id)
    && (implies (is_status o.status completed)
          (is_some o.completed_at && is_some o.credit_transaction_id)
        && (implies (is_released o.status) (
              is_some o.released_at
              && (is_some o.credit_transaction_id && is_some o.release_reason))
            && (is_equal (is_status o.status rejected) (is_some o.rejection_reason)
                && (implies (is_status o.status picked_up) (is_some o.non_delivery_report_at)
                    && (implies (is_status o.status delivered) (is_some o.auto_confirm_at)
                        && (leb 1 o.reward && (leb o.reward 5 && leb 1 o.version)))))))
