-- ===== src/Credit/Types.antt =====
-- credit-service/src/credits/types.ts: the inputs, outcomes and limits of the credit operations.
-- Identifiers are compared only, so they are numbers.
use foc_app.Common.{ℕ, Option}

-- `INITIAL_CREDIT_ALLOCATION`, unless the configuration sets another.
abbrev pub initial_credit_allocation : ℕ
initial_credit_allocation = 10

-- `MAX_RESERVATION_AMOUNT`
abbrev pub max_reservation_amount : ℕ
max_reservation_amount = 5

pub data TransactionType : Type 0 where
  issue reserve release transfer : TransactionType

pub data ReservationRejection : Type 0 where
  insufficient_credits amount_out_of_range conflicting_request : ReservationRejection

pub data TerminalRejection : Type 0 where
  conflicting_request invalid_participants reservation_not_active : TerminalRejection
  terminal_operation_conflict : TerminalRejection

pub record ReservationInput : Type 0 where
  pub order_id : ℕ
  pub requester_id : ℕ
  pub amount : ℕ
  pub correlation_id : ℕ
  pub causation_id : ℕ

-- `ReleaseInput`
pub record ReleaseInput : Type 0 where
  pub order_id : ℕ
  pub requester_id : ℕ
  pub amount : ℕ
  pub correlation_id : ℕ
  pub causation_id : ℕ

pub record TransferInput : Type 0 where
  pub order_id : ℕ
  pub requester_id : ℕ
  pub courier_id : ℕ
  pub amount : ℕ
  pub correlation_id : ℕ
  pub causation_id : ℕ

pub record ResultingBalance : Type 0 where
  pub available : ℕ
  pub reserved : ℕ
  pub total : ℕ

pub record ReleaseResult : Type 0 where
  pub order_id : ℕ
  pub requester_id : ℕ
  pub amount : ℕ
  pub transaction_id : ℕ
  pub requester_balance : ResultingBalance

pub record TransferResult : Type 0 where
  pub order_id : ℕ
  pub requester_id : ℕ
  pub courier_id : ℕ
  pub amount : ℕ
  pub transaction_id : ℕ
  pub requester_balance : ResultingBalance
  pub courier_balance : ResultingBalance

pub data ReservationOutcome : Type 0 where
  reserved : (transaction_id : ℕ) → ReservationOutcome
  rejected : ReservationRejection → (available : Option ℕ) → ReservationOutcome

pub data ReleaseOutcome : Type 0 where
  released : ReleaseResult → ReleaseOutcome
  rejected : TerminalRejection → ReleaseOutcome

pub data TransferOutcome : Type 0 where
  transferred : TransferResult → TransferOutcome
  rejected : TerminalRejection → TransferOutcome
