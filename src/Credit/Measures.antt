-- ===== src/Credit/Measures.antt =====
-- credit-service/src/credits/invariants.ts: the sums and counts that its queries take over the tables.
use foc_app.Common.{
  ℕ, ◌+◌, Bool, true, false, not, ◌&&◌, Option, none, some, List, [], ◌∷◌, any, find, ◌==◌,
  if◌then◌else◌,
}
use foc_app.Credit.Db.{
  Wallet, Transaction, LedgerEntry, Operation, OperationType, OperationOutcome, Account, Direction,
  is_of, is_terminal_type, type_index, is_operation, is_terminal_of,
}

abbrev pub available_in : Option Wallet → ℕ
available_in none = 0
available_in (some w) = w.available

abbrev pub reserved_in : Option Wallet → ℕ
reserved_in none = 0
reserved_in (some w) = w.reserved

-- `sum(available + reserved)` over `wallets`
abbrev pub held : List Wallet → ℕ
held [] = 0
held (w ∷ ws) = (w.available + w.reserved) + held ws

-- `sum(amount)` over the transactions of type ISSUE
abbrev pub issued : List Transaction → ℕ
issued [] = 0
issued (t ∷ ts) = (if type_index t.transaction_type == 0 then t.amount else 0) + issued ts

-- Whether the order has a TRANSFER or a RELEASE.
abbrev pub settles : ℕ → Transaction → Bool
settles k t = is_of k t.order_id && is_terminal_type t.transaction_type

abbrev pub settled : Option ℕ → List Transaction → Bool
settled none ts = false
settled (some k) ts = any (settles k) ts

abbrev pub is_reserve : Transaction → Bool
is_reserve t = type_index t.transaction_type == 1

-- The open reservations of a user: the RESERVE transactions of `ts` for orders that no transaction of
-- `all` settled.
abbrev pub open_reserved : ℕ → List Transaction → List Transaction → ℕ
open_reserved u [] all = 0
open_reserved u (t ∷ ts) all =
    (if is_reserve t && ((t.wallet_user_id == u) && not (settled t.order_id all))
      then t.amount
      else 0)
    + open_reserved u ts all

-- What a user reserved for one order.
abbrev pub reserved_for : ℕ → ℕ → List Transaction → ℕ
reserved_for u k [] = 0
reserved_for u k (t ∷ ts) =
    (if is_reserve t && ((t.wallet_user_id == u) && is_of k t.order_id) then t.amount else 0)
    + reserved_for u k ts

abbrev pub count_reserves : ℕ → List Transaction → ℕ
count_reserves k [] = 0
count_reserves k (t ∷ ts) =
    (if is_reserve t && is_of k t.order_id then 1 else 0) + count_reserves k ts

abbrev pub count_terminals : ℕ → List Transaction → ℕ
count_terminals k [] = 0
count_terminals k (t ∷ ts) = (if settles k t then 1 else 0) + count_terminals k ts

abbrev pub account_index : Account → ℕ
account_index Account.platform_issuance = 0
account_index Account.available = 1
account_index Account.reserved = 2

abbrev pub direction_index : Direction → ℕ
direction_index Direction.debit = 0
direction_index Direction.credit = 1

-- `sum(amount)` of one account of a user, in one direction.
abbrev pub moved : ℕ → Account → Direction → List LedgerEntry → ℕ
moved u a d [] = 0
moved u a d (e ∷ es) =
    (if is_of u e.wallet_user_id
        && ((account_index e.account == account_index a)
            && (direction_index e.direction == direction_index d))
      then e.amount
      else 0)
    + moved u a d es

-- `sum(amount)` of one transaction, in one direction.
abbrev pub posted : ℕ → Direction → List LedgerEntry → ℕ
posted id d [] = 0
posted id d (e ∷ es) =
    (if (e.transaction_id == id) && (direction_index e.direction == direction_index d)
      then e.amount
      else 0)
    + posted id d es

-- What the operations record of an order: the reservation that succeeded, and a settlement.
abbrev pub granted : Option Operation → Bool
granted none = false
granted (some o) = elim o.outcome [
  | OperationOutcome.succeeded id ↦ true
  | OperationOutcome.pending ↦ false
  | OperationOutcome.rejected reason ↦ false
]

abbrev pub reservation_of : ℕ → List Operation → Option Operation
reservation_of k os = find (is_operation k OperationType.reserve) os

abbrev pub settlement_of : ℕ → List Operation → Option Operation
settlement_of k os = find (is_terminal_of k) os

abbrev pub granted_amount : ℕ → Option Operation → ℕ
granted_amount u none = 0
granted_amount u (some o) = if granted (some o) && (o.requester_id == u) then o.amount else 0

abbrev pub bit : Bool → ℕ
bit b = if b then 1 else 0
