-- ===== src/Credit/Db/Tables.antt =====
-- credit-service/src/db/schema.ts: the rows of the tables, and the errors a transaction can raise.
use foc_app.Common.{ℕ, Option, List}
use foc_app.Credit.Types.{
  TransactionType, ReservationRejection, TerminalRejection, ReleaseResult, TransferResult,
}

pub record Wallet : Type 0 where
  pub user_id : ℕ
  pub available : ℕ
  pub reserved : ℕ

pub record Transaction : Type 0 where
  pub transaction_id : ℕ
  pub order_id : Option ℕ
  pub transaction_type : TransactionType
  pub wallet_user_id : ℕ
  pub amount : ℕ

pub data Account : Type 0 where
  platform_issuance available reserved : Account

pub data Direction : Type 0 where
  debit credit : Direction

pub record LedgerEntry : Type 0 where
  pub transaction_id : ℕ
  pub entry_no : ℕ
  pub wallet_user_id : Option ℕ
  pub account : Account
  pub direction : Direction
  pub amount : ℕ
  pub resulting_available : Option ℕ
  pub resulting_reserved : Option ℕ

pub data OperationType : Type 0 where
  reserve release transfer : OperationType

-- The columns `outcome`, `transaction_id` and `rejection_reason` of `credit_operations`, in the shapes
-- that `credit_operations_outcome_shape` allows.
pub data OperationOutcome : Type 0 where
  pending : OperationOutcome
  succeeded : (transaction_id : ℕ) → OperationOutcome
  rejected : ReservationRejection → OperationOutcome

-- `result_payload`
pub data Payload : Type 0 where
  of_release : ReleaseResult → Payload
  of_transfer : TransferResult → Payload

pub record Operation : Type 0 where
  pub order_id : ℕ
  pub operation_type : OperationType
  pub requester_id : ℕ
  pub courier_id : Option ℕ
  pub amount : ℕ
  pub outcome : OperationOutcome
  pub available_at_decision : Option ℕ
  pub result_payload : Option Payload

-- `credit_audit_alerts.code`
pub data AlertCode : Type 0 where
  of_reservation : ReservationRejection → AlertCode
  of_terminal : TerminalRejection → AlertCode

pub record Alert : Type 0 where
  pub order_id : ℕ
  pub operation_type : OperationType
  pub code : AlertCode
  pub correlation_id : ℕ

pub data CreditEvent : Type 0 where
  credits_reserved : (order_id requester_id amount : ℕ) → CreditEvent
  reservation_rejected :
      (order_id requester_id amount : ℕ)
      → ReservationRejection
      → (available : Option ℕ) → CreditEvent
  credits_released : ReleaseResult → CreditEvent
  credits_transferred : TransferResult → CreditEvent

pub record OutboxEvent : Type 0 where
  pub event : CreditEvent
  pub aggregate_id : ℕ
  pub correlation_id : ℕ
  pub causation_id : ℕ

pub record Db : Type 0 where
  pub wallets : List Wallet
  pub transactions : List Transaction
  pub entries : List LedgerEntry
  pub operations : List Operation
  pub alerts : List Alert
  pub outbox : List OutboxEvent

pub data Error : Type 0 where
  wallet_not_ready reservation_not_ready not_backed not_replayable : ℕ → Error
  conflict_disappeared still_pending unparseable : Error
  unique_violation check_violation foreign_key_violation out_of_range : Error

pub data Result (A : Type 0) : Type 0 where
  ok : A → Result A
  err : Error → Result A

-- A computation inside one database transaction.
abbrev pub Tx : Type 0 → Type 0
Tx A = Db → Result (A × Db)

infixl 5 ◌>>=◌ ◌>>◌
abbrev pub ◌>>=◌ : {A B : Type 0} → Tx A → (A → Tx B) → Tx B
◌>>=◌ m f db = elim (m db) [ ok (a, db') ↦ f a db' | err e ↦ err e ]

abbrev pub ◌>>◌ : {A B : Type 0} → Tx A → Tx B → Tx B
m >> k = m >>= λ _. k

abbrev pub pure : {A : Type 0} → A → Tx A
pure a db = ok (a, db)

abbrev pub raise : {A : Type 0} → Error → Tx A
raise e db = err e
