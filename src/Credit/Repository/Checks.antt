-- ===== src/Credit/Repository/Checks.antt =====
-- credit-service/src/credits/credit.repository.ts: what `release` and `transfer` share: locking and
-- checking the reservation, and refusing.
use foc_app.Common.{
  ℕ, ◌+◌, Bool, not, ◌||◌, Option, none, some, List, true, false, find, ◌==◌, if◌then◌else◌,
}
use foc_app.Credit.Types.{
  ReleaseInput, TransferInput, TerminalRejection, ResultingBalance, reservation_not_active,
}
use foc_app.Credit.Db.{
  Wallet, Operation, OperationType, OperationOutcome, Payload, Tx, ◌>>=◌, ◌>>◌, pure, raise,
  pending, succeeded, of_terminal, reservation_not_ready, is_operation, is_terminal_of,
  insert_alert, update_operation,
}

-- A transfer's input read as a terminal input.
abbrev pub terminal_of : TransferInput → ReleaseInput
terminal_of t = record {
  order_id = t.order_id;
  requester_id = t.requester_id;
  amount = t.amount;
  correlation_id = t.correlation_id;
  causation_id = t.causation_id;
}

-- `balance`
abbrev pub balance : Wallet → ResultingBalance
balance w = record {
  available = w.available;
  reserved = w.reserved;
  total = w.available + w.reserved;
}

-- `rejectTerminal`
unfoldable pub reject_terminal :
    ReleaseInput → OperationType → TerminalRejection → Tx TerminalRejection
unfolding insert_alert
reject_terminal input kind reason = do
  insert_alert (record {
    order_id = input.order_id;
    operation_type = kind;
    code = of_terminal reason;
    correlation_id = input.correlation_id;
  })
  pure reason

abbrev pub when_locked : ℕ → Option Operation → Tx Operation
when_locked k none = raise (reservation_not_ready k)
when_locked k (some o) = elim o.outcome [
  | pending ↦ raise (reservation_not_ready k)
  | succeeded id ↦ pure o
  | OperationOutcome.rejected reason ↦ pure o
]

-- `lockReservation`
unfoldable pub lock_reservation : ℕ → Tx Operation
lock_reservation k db = when_locked k (find (is_operation k OperationType.reserve) db.operations) db

abbrev is_succeeded : OperationOutcome → Bool
is_succeeded (succeeded id) = true
is_succeeded _ = false

unfoldable pub refuse_terminal :
    ReleaseInput → OperationType → TerminalRejection → Tx (Option TerminalRejection)
unfolding reject_terminal
refuse_terminal input kind reason = do r ← reject_terminal input kind reason; pure (some r)

-- `validateReservation`
unfoldable pub validate_reservation :
    Operation → ReleaseInput → OperationType → Tx (Option TerminalRejection)
unfolding refuse_terminal
validate_reservation o input kind =
    if not (is_succeeded o.outcome)
    then refuse_terminal input kind reservation_not_active
    else if not (o.requester_id == input.requester_id) || not (o.amount == input.amount)
    then refuse_terminal input kind TerminalRejection.conflicting_request
    else pure none

-- `findTerminalOperation`
abbrev pub find_terminal : ℕ → List Operation → Option Operation
find_terminal k os = find (is_terminal_of k) os

-- `finishTerminal`
unfoldable pub finish_terminal : ℕ → OperationType → (uuid : ℕ) → Payload → Tx (Unit {0})
unfolding update_operation
finish_terminal k kind uuid payload =
    update_operation (is_operation k kind)
      (λ o. record o { outcome = succeeded uuid; result_payload = some payload })
