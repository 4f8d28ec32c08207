-- ===== src/Order/Views.antt =====
-- order-service/src/orders/orders.service.ts: what an answer shows of an errand, and to whom. `now` is the
-- server's clock.
use Prim.Native.String.{String, []}
use foc_app.Common.{
  ℕ, Bool, true, false, not, ◌&&◌, ◌||◌, Option, none, some, List, map, any, ◌==◌, if◌then◌else◌,
}
use foc_app.Order.Types.{
  OrderStatus, ReleaseReason, RejectionReason, OrderItem, SupplierSnapshot, OrderRow,
  pending_credit, picked_up, delivered, release_pending_credit, rejected,
}
use foc_app.Order.StateMachine.Vocabulary.{status_index}
use foc_app.Order.Lifecycle.Store.{HistoryActor, HistoryAction, HistoryRow}
pub mod Private

-- The caller, as the access token names it: `AuthContext`.
pub record Caller : Type 0 where
  pub user_id : ℕ
  pub is_admin : Bool

pub record OrderView : Type 0 where
  pub order_id : ℕ
  pub supplier : SupplierSnapshot
  pub items : List OrderItem
  pub delivery_zone : String
  pub reward : ℕ
  pub status : OrderStatus
  pub version : ℕ
  pub acceptance_deadline_at : Option ℕ
  pub created_at : ℕ
  pub updated_at : ℕ
  pub server_time : ℕ
  pub requester_id : Option ℕ
  pub courier_id : Option ℕ
  pub delivery_instructions : Option String
  pub non_delivery_report_at : Option ℕ
  pub auto_confirm_at : Option ℕ
  pub release_reason : Option ReleaseReason
  pub rejection : Option (RejectionReason × Option ℕ)

abbrev is_user : Option ℕ → ℕ → Bool
is_user none i = false
is_user (some j) i = i == j

abbrev pub is_referred_admin : OrderRow → Caller → Bool
is_referred_admin o c = c.is_admin && is_user o.referred_admin_id c.user_id

abbrev pub can_read_private : OrderRow → Caller → Bool
can_read_private o c =
    (c.user_id == o.requester_id) || (is_user o.courier_id c.user_id || is_referred_admin o c)

-- Pending and rejected requests.
abbrev pub is_hidden : OrderStatus → Bool
is_hidden pending_credit = true
is_hidden rejected = true
is_hidden _ = false

abbrev without_note : OrderItem → OrderItem
without_note i = record i { note = none }

-- `publicOrderView`
unfoldable pub public_order_view : (now : ℕ) → OrderRow → OrderView
public_order_view now o = record {
  order_id = o.order_id;
  supplier = o.supplier_snapshot;
  items = map without_note o.items;
  delivery_zone = o.delivery_zone;
  reward = o.reward;
  status = o.status;
  version = o.version;
  acceptance_deadline_at = o.acceptance_deadline_at;
  created_at = o.created_at;
  updated_at = o.updated_at;
  server_time = now;
  requester_id = none;
  courier_id = none;
  delivery_instructions = none;
  non_delivery_report_at = none;
  auto_confirm_at = none;
  release_reason = none;
  rejection = none;
}

-- `...(condition ? { field } : {})`
abbrev given {ℓ} : {A : Type ℓ} → Bool → Option A → Option A
given b v = if b then v else none

abbrev is_in : OrderStatus → OrderRow → Bool
is_in s o = status_index o.status == status_index s

abbrev rejection_of : OrderRow → Option (RejectionReason × Option ℕ)
rejection_of o = elim o.rejection_reason [
  | none ↦ none
  | some r ↦ some (r, o.available_at_rejection)
]

abbrev projected : (now : ℕ) → OrderRow → (private_ : Bool) → OrderView
projected now o private_ = record {
  order_id = o.order_id;
  supplier = o.supplier_snapshot;
  items = if private_ then o.items else map without_note o.items;
  delivery_zone = o.delivery_zone;
  reward = o.reward;
  status = o.status;
  version = o.version;
  acceptance_deadline_at = o.acceptance_deadline_at;
  created_at = o.created_at;
  updated_at = o.updated_at;
  server_time = now;
  requester_id = given private_ (some o.requester_id);
  courier_id = given private_ o.courier_id;
  delivery_instructions = given private_ (some o.delivery_instructions);
  non_delivery_report_at = given private_ (given (is_in picked_up o) o.non_delivery_report_at);
  auto_confirm_at = given private_ (given (is_in delivered o) o.auto_confirm_at);
  release_reason = given private_ (given (is_in release_pending_credit o) o.release_reason);
  rejection = given (is_in rejected o && private_) (rejection_of o);
}

-- `projectOrder`
unfoldable pub project_order : (now : ℕ) → OrderRow → Caller → Option OrderView
project_order now o c =
    if is_hidden o.status && (not (c.user_id == o.requester_id) && not (is_referred_admin o c))
    then none
    else some (projected now o (can_read_private o c))

-- `!projected.deliveryInstructions`: an absent text and an empty one count as the same.
abbrev pub has_instructions : OrderView → Bool
has_instructions v = elim v.delivery_instructions [ none ↦ false | some [] ↦ false | some _ ↦ true ]
