-- ===== src/Order/Types.antt =====
-- order-service/src/orders/types.ts: the statuses of an errand, and its row.
use Prim.Native.String.{String}
use foc_app.Common.{ℕ, Bool, true, false, Option, List}

pub data OrderStatus : Type 0 where
  pending_credit open_ accepted picked_up delivered disputed : OrderStatus
  completion_pending_credit release_pending_credit : OrderStatus
  rejected completed cancelled expired : OrderStatus

-- The status in which an errand ends once its credits are returned.
pub data ReleaseReason : Type 0 where
  cancelled expired : ReleaseReason

-- What the credit service may answer to a reservation it refuses.
pub data RejectionReason : Type 0 where
  insufficient_credits amount_out_of_range conflicting_request : RejectionReason

-- Membership in `TERMINAL_ORDER_STATUSES`.
abbrev pub is_terminal : OrderStatus → Bool
is_terminal OrderStatus.rejected = true
is_terminal OrderStatus.completed = true
is_terminal OrderStatus.cancelled = true
is_terminal OrderStatus.expired = true
is_terminal _ = false

pub record OrderItem : Type 0 where
  pub name : String
  pub quantity : ℕ
  pub note : Option String

pub record SupplierSnapshot : Type 0 where
  pub supplier_id : ℕ
  pub name : String
  pub kind : String
  pub building : String
  pub floor : String
  pub location_description : String

-- A row of the table `orders`. Identifiers are compared only, and times are milliseconds since 1970;
-- both are numbers.
pub record OrderRow : Type 0 where
  pub order_id : ℕ
  pub requester_id : ℕ
  pub courier_id : Option ℕ
  pub referred_admin_id : Option ℕ
  pub supplier_snapshot : SupplierSnapshot
  pub items : List OrderItem
  pub delivery_zone : String
  pub delivery_instructions : String
  pub reward : ℕ
  pub status : OrderStatus
  pub release_reason : Option ReleaseReason
  pub rejection_reason : Option RejectionReason
  pub available_at_rejection : Option ℕ
  pub version : ℕ
  pub acceptance_deadline_at : Option ℕ
  pub accepted_at : Option ℕ
  pub picked_up_at : Option ℕ
  pub delivered_at : Option ℕ
  pub non_delivery_report_at : Option ℕ
  pub auto_confirm_at : Option ℕ
  pub completion_requested_at : Option ℕ
  pub completed_at : Option ℕ
  pub release_requested_at : Option ℕ
  pub released_at : Option ℕ
  pub credit_transaction_id : Option ℕ
  pub created_at : ℕ
  pub updated_at : ℕ

-- The codes of the service's `ApiException`s.
pub data ApiCode : Type 0 where
  not_found private_order_forbidden receipt_not_found idempotency_key_reused : ApiCode
  self_acceptance_forbidden order_not_open acceptance_deadline_passed order_changed : ApiCode
  action_forbidden delivery_period_not_passed auto_confirmation_passed : ApiCode
  invalid_order_state conflict_of_interest not_referred_admin : ApiCode

pub record ApiException : Type 0 where
  pub code : ApiCode
  pub details : Option (OrderStatus × ℕ)
