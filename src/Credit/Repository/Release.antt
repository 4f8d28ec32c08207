-- ===== src/Credit/Repository/Release.antt =====
-- credit-service/src/credits/credit.repository.ts: `release` and its replay.
use foc_app.Common.{
  ℕ, ◌+◌, ◌-◌, Bool, true, false, not, ◌||◌, Option, none, some, leb, ◌==◌, if◌then◌else◌,
}
use foc_app.Credit.Types.{
  TransactionType, ReleaseInput, ReleaseResult, ReleaseOutcome, TerminalRejection, released,
  terminal_operation_conflict,
}
use foc_app.Credit.Db.{
  Wallet, Operation, OperationType, OperationOutcome, Payload, Account, Direction, Tx, ◌>>=◌, ◌>>◌,
  pure, raise, pending, succeeded, of_release, credits_released, not_backed, not_replayable,
  insert_operation, update_wallet, insert_transaction, insert_entry, insert_event,
}
use foc_app.Credit.Repository.Checks.{
  balance, reject_terminal, lock_reservation, validate_reservation, find_terminal, finish_terminal,
}

-- `writeReleaseOutcome`
unfoldable pub write_release : ReleaseInput → ReleaseResult → Tx (Unit {0})
unfolding insert_event
write_release input result = insert_event (record {
  event = credits_released result;
  aggregate_id = input.order_id;
  correlation_id = input.correlation_id;
  causation_id = input.causation_id;
})

unfoldable pub reject_release : ReleaseInput → TerminalRejection → Tx ReleaseOutcome
unfolding reject_terminal
reject_release input reason = do
  r ← reject_terminal input OperationType.release reason
  pure (ReleaseOutcome.rejected r)

-- A recorded result that can be sent again.
abbrev recorded_release : ℕ → OperationOutcome → Option Payload → Tx ReleaseResult
recorded_release k (succeeded id) (some (of_release result)) = pure result
recorded_release k _ _ = raise (not_replayable k)

unfoldable pub repeat_release : Operation → ReleaseInput → Tx ReleaseOutcome
unfolding write_release
repeat_release prior input = do
  result ← recorded_release input.order_id prior.outcome prior.result_payload
  write_release input result
  pure (released result)

abbrev release_conflict : OperationType → TerminalRejection
release_conflict OperationType.release = TerminalRejection.conflicting_request
release_conflict _ = terminal_operation_conflict

abbrev is_release : OperationType → Bool
is_release OperationType.release = true
is_release _ = false

-- `replayReleaseOrReject`
unfoldable pub replay_release : Operation → ReleaseInput → Tx ReleaseOutcome
unfolding reject_release repeat_release
replay_release prior input =
    if not (is_release prior.operation_type)
      || (not (prior.requester_id == input.requester_id) || not (prior.amount == input.amount))
    then reject_release input (release_conflict prior.operation_type)
    else repeat_release prior input

-- The requester's wallet was credited: the transaction, its entries, the outcome and the reply.
unfoldable pub record_release : ReleaseInput → (uuid : ℕ) → Wallet → Tx ReleaseOutcome
unfolding insert_transaction insert_entry finish_terminal write_release
record_release input uuid w = do
  insert_transaction (record {
    transaction_id = uuid;
    order_id = some input.order_id;
    transaction_type = TransactionType.release;
    wallet_user_id = input.requester_id;
    amount = input.amount;
  })
  insert_entry (record {
    transaction_id = uuid;
    entry_no = 1;
    wallet_user_id = some input.requester_id;
    account = Account.reserved;
    direction = Direction.debit;
    amount = input.amount;
    resulting_available = some w.available;
    resulting_reserved = some w.reserved;
  })
  insert_entry (record {
    transaction_id = uuid;
    entry_no = 2;
    wallet_user_id = some input.requester_id;
    account = Account.available;
    direction = Direction.credit;
    amount = input.amount;
    resulting_available = some w.available;
    resulting_reserved = some w.reserved;
  })
  let result : ReleaseResult = record {
    order_id = input.order_id;
    requester_id = input.requester_id;
    amount = input.amount;
    transaction_id = uuid;
    requester_balance = balance w;
  }
  finish_terminal input.order_id OperationType.release uuid (of_release result)
  write_release input result
  pure (released result)

abbrev when_returned : ReleaseInput → (uuid : ℕ) → Option Wallet → Tx ReleaseOutcome
when_returned input uuid none = raise (not_backed input.order_id)
when_returned input uuid (some w) = record_release input uuid w

-- `UPDATE wallets SET available = available + $2, reserved = reserved - $2 … WHERE reserved >= $2`
unfoldable pub return_reserved : ReleaseInput → Tx (Option Wallet)
unfolding update_wallet
return_reserved input =
    update_wallet input.requester_id (λ w. leb input.amount w.reserved)
      (λ w. record w {
        available = w.available + input.amount;
        reserved = w.reserved - input.amount;
      })

-- The first settlement of the order.
unfoldable pub settle_release : ReleaseInput → (uuid : ℕ) → Tx ReleaseOutcome
unfolding insert_operation return_reserved record_release
settle_release input uuid = do
  insert_operation (record {
    order_id = input.order_id;
    operation_type = OperationType.release;
    requester_id = input.requester_id;
    courier_id = none;
    amount = input.amount;
    outcome = pending;
    available_at_decision = none;
    result_payload = none;
  })
  changed ← return_reserved input
  when_returned input uuid changed

abbrev pub when_prior : ReleaseInput → (uuid : ℕ) → Option Operation → Tx ReleaseOutcome
when_prior input uuid none = settle_release input uuid
when_prior input uuid (some prior) = replay_release prior input

abbrev pub when_valid : ReleaseInput → (uuid : ℕ) → Option TerminalRejection → Tx ReleaseOutcome
when_valid input uuid (some reason) db = pure (ReleaseOutcome.rejected reason) db
when_valid input uuid none db =
    when_prior input uuid (find_terminal input.order_id db.operations) db

-- `release`
unfoldable pub release : ReleaseInput → (uuid : ℕ) → Tx ReleaseOutcome
unfolding lock_reservation validate_reservation settle_release replay_release
release input uuid = do
  reservation ← lock_reservation input.order_id
  invalid ← validate_reservation reservation input OperationType.release
  when_valid input uuid invalid
