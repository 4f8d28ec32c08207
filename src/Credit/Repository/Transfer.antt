-- ===== src/Credit/Repository/Transfer.antt =====
-- credit-service/src/credits/credit.repository.ts: `transfer` and its replay.
use foc_app.Common.{
  ℕ, ◌+◌, ◌-◌, Bool, true, false, not, ◌||◌, Option, none, some, leb, ◌==◌, if◌then◌else◌,
}
use foc_app.Credit.Types.{
  TransactionType, TransferInput, TransferResult, TransferOutcome, TerminalRejection, transferred,
  terminal_operation_conflict, invalid_participants,
}
use foc_app.Credit.Db.{
  Wallet, Operation, OperationType, OperationOutcome, Payload, Account, Direction, Tx, ◌>>=◌, ◌>>◌,
  pure, raise, pending, succeeded, of_transfer, credits_transferred, wallet_not_ready, has_wallet,
  is_of, err, not_backed, not_replayable, insert_operation, update_wallet, insert_transaction,
  insert_entry, insert_event,
}
use foc_app.Credit.Repository.Checks.{
  balance, terminal_of, reject_terminal, lock_reservation, validate_reservation, find_terminal,
  finish_terminal,
}

-- `writeTransferOutcome`
unfoldable pub write_transfer : TransferInput → TransferResult → Tx (Unit {0})
unfolding insert_event
write_transfer input result = insert_event (record {
  event = credits_transferred result;
  aggregate_id = input.order_id;
  correlation_id = input.correlation_id;
  causation_id = input.causation_id;
})

unfoldable pub reject_transfer : TransferInput → TerminalRejection → Tx TransferOutcome
unfolding reject_terminal
reject_transfer input reason = do
  r ← reject_terminal (terminal_of input) OperationType.transfer reason
  pure (TransferOutcome.rejected r)

-- A recorded result that can be sent again.
abbrev recorded_transfer : ℕ → OperationOutcome → Option Payload → Tx TransferResult
recorded_transfer k (succeeded id) (some (of_transfer result)) = pure result
recorded_transfer k _ _ = raise (not_replayable k)

unfoldable pub repeat_transfer : Operation → TransferInput → Tx TransferOutcome
unfolding write_transfer
repeat_transfer prior input = do
  result ← recorded_transfer input.order_id prior.outcome prior.result_payload
  write_transfer input result
  pure (transferred result)

abbrev transfer_conflict : OperationType → TerminalRejection
transfer_conflict OperationType.transfer = TerminalRejection.conflicting_request
transfer_conflict _ = terminal_operation_conflict

abbrev is_transfer : OperationType → Bool
is_transfer OperationType.transfer = true
is_transfer _ = false

-- `replayTransferOrReject`
unfoldable pub replay_transfer : Operation → TransferInput → Tx TransferOutcome
unfolding reject_transfer repeat_transfer
replay_transfer prior input =
    if not (is_transfer prior.operation_type)
      || (not (prior.requester_id == input.requester_id)
          || (not (is_of input.courier_id prior.courier_id) || not (prior.amount == input.amount)))
    then reject_transfer input (transfer_conflict prior.operation_type)
    else repeat_transfer prior input

-- Both wallets were updated: the transaction, its entries, the outcome and the reply.
unfoldable pub record_transfer :
    TransferInput → (uuid : ℕ) → (requester courier : Wallet) → Tx TransferOutcome
unfolding insert_transaction insert_entry finish_terminal write_transfer
record_transfer input uuid w v = do
  insert_transaction (record {
    transaction_id = uuid;
    order_id = some input.order_id;
    transaction_type = TransactionType.transfer;
    wallet_user_id = input.requester_id;
    amount = input.amount;
  })
  insert_entry (record {
    transaction_id = uuid;
    entry_no = 1;
    wallet_user_id = some input.requester_id;
    account = Account.reserved;
    direction = Direction.debit;
    amount = input.amount;
    resulting_available = some w.available;
    resulting_reserved = some w.reserved;
  })
  insert_entry (record {
    transaction_id = uuid;
    entry_no = 2;
    wallet_user_id = some input.courier_id;
    account = Account.available;
    direction = Direction.credit;
    amount = input.amount;
    resulting_available = some v.available;
    resulting_reserved = some v.reserved;
  })
  let result : TransferResult = record {
    order_id = input.order_id;
    requester_id = input.requester_id;
    courier_id = input.courier_id;
    amount = input.amount;
    transaction_id = uuid;
    requester_balance = balance w;
    courier_balance = balance v;
  }
  finish_terminal input.order_id OperationType.transfer uuid (of_transfer result)
  write_transfer input result
  pure (transferred result)

-- `UPDATE wallets SET reserved = reserved - $2 … WHERE user_id = $1 AND reserved >= $2`
unfoldable pub take_reserved : TransferInput → Tx (Option Wallet)
unfolding update_wallet
take_reserved input =
    update_wallet input.requester_id (λ w. leb input.amount w.reserved)
      (λ w. record w { reserved = w.reserved - input.amount })

-- `UPDATE wallets SET available = available + $2 … WHERE user_id = $1`
unfoldable pub pay_courier : TransferInput → Tx (Option Wallet)
unfolding update_wallet
pay_courier input =
    update_wallet input.courier_id (λ _. true)
      (λ w. record w { available = w.available + input.amount })

abbrev when_paid :
    TransferInput → (uuid : ℕ) → (requester : Wallet) → Option Wallet → Tx TransferOutcome
when_paid input uuid w none = raise (wallet_not_ready input.courier_id)
when_paid input uuid w (some v) = record_transfer input uuid w v

unfoldable pub pay_and_record :
    TransferInput → (uuid : ℕ) → (requester : Wallet) → Tx TransferOutcome
unfolding pay_courier record_transfer
pay_and_record input uuid w = do paid ← pay_courier input; when_paid input uuid w paid

abbrev when_taken : TransferInput → (uuid : ℕ) → Option Wallet → Tx TransferOutcome
when_taken input uuid none = raise (not_backed input.order_id)
when_taken input uuid (some w) = pay_and_record input uuid w

-- Both wallets are locked, and then the first settlement of the order is made.
unfoldable pub settle_locked : TransferInput → (uuid : ℕ) → Tx TransferOutcome
unfolding insert_operation take_reserved pay_and_record
settle_locked input uuid = do
  insert_operation (record {
    order_id = input.order_id;
    operation_type = OperationType.transfer;
    requester_id = input.requester_id;
    courier_id = some input.courier_id;
    amount = input.amount;
    outcome = pending;
    available_at_decision = none;
    result_payload = none;
  })
  taken ← take_reserved input
  when_taken input uuid taken

unfoldable pub settle_transfer : TransferInput → (uuid : ℕ) → Tx TransferOutcome
unfolding settle_locked
settle_transfer input uuid db =
    if not (has_wallet input.courier_id db.wallets)
    then err (wallet_not_ready input.courier_id)
    else if not (has_wallet input.requester_id db.wallets)
    then err (wallet_not_ready input.requester_id)
    else settle_locked input uuid db

abbrev pub when_prior : TransferInput → (uuid : ℕ) → Option Operation → Tx TransferOutcome
when_prior input uuid none = settle_transfer input uuid
when_prior input uuid (some prior) = replay_transfer prior input

abbrev pub when_valid : TransferInput → (uuid : ℕ) → Option TerminalRejection → Tx TransferOutcome
when_valid input uuid (some reason) db = pure (TransferOutcome.rejected reason) db
when_valid input uuid none db =
    if input.requester_id == input.courier_id
    then reject_transfer input invalid_participants db
    else when_prior input uuid (find_terminal input.order_id db.operations) db

-- `transfer`
unfoldable pub transfer : TransferInput → (uuid : ℕ) → Tx TransferOutcome
unfolding lock_reservation validate_reservation settle_transfer replay_transfer reject_transfer
transfer input uuid = do
  reservation ← lock_reservation input.order_id
  invalid ← validate_reservation reservation (terminal_of input) OperationType.transfer
  when_valid input uuid invalid
