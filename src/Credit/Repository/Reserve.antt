-- ===== src/Credit/Repository/Reserve.antt =====
-- credit-service/src/credits/credit.repository.ts: `reserve`, its replay and its replies.
use foc_app.Common.{
  ℕ, ◌+◌, ◌-◌, Bool, true, false, not, ◌&&◌, ◌||◌, Option, none, some, find, ltb, leb, ◌==◌,
  if◌then◌else◌,
}
use foc_app.Credit.Types.{
  TransactionType, ReservationRejection, ReservationInput, ReservationOutcome,
  max_reservation_amount, insufficient_credits, amount_out_of_range,
}
use foc_app.Credit.Db.{
  Wallet, Operation, OperationType, OperationOutcome, Account, Direction, CreditEvent, OutboxEvent,
  Tx, ◌>>=◌, ◌>>◌, pure, raise, pending, succeeded, credits_reserved, reservation_rejected,
  wallet_not_ready, conflict_disappeared, still_pending, of_reservation, is_operation,
  claim_operation, update_wallet, update_operation, insert_transaction, insert_entry, insert_alert,
  insert_event, find_wallet,
}

-- Only a refusal for want of credits reports the balance.
abbrev reported : ReservationRejection → Option ℕ → Option ℕ
reported insufficient_credits available = available
reported _ available = none

-- `writeOutcome`
abbrev pub outcome_event : ReservationInput → ReservationOutcome → CreditEvent
outcome_event input (ReservationOutcome.reserved id) =
    credits_reserved input.order_id input.requester_id input.amount
outcome_event input (ReservationOutcome.rejected reason available) =
    reservation_rejected input.order_id input.requester_id input.amount reason
      (reported reason available)

abbrev pub reservation_reply : ReservationInput → ReservationOutcome → OutboxEvent
reservation_reply input outcome = record {
  event = outcome_event input outcome;
  aggregate_id = input.order_id;
  correlation_id = input.correlation_id;
  causation_id = input.causation_id;
}

unfoldable pub write_outcome : ReservationInput → ReservationOutcome → Tx (Unit {0})
unfolding insert_event
write_outcome input outcome = insert_event (reservation_reply input outcome)

-- `finishRejection`
unfoldable pub finish_rejection : ReservationInput → ReservationRejection → Option ℕ → Tx (Unit {0})
unfolding update_operation
finish_rejection input reason available =
    update_operation
      (λ o.
        is_operation input.order_id OperationType.reserve o
        && (o.requester_id == input.requester_id))
      (λ o. record o {
        outcome = OperationOutcome.rejected reason;
        available_at_decision = available;
      })

-- The refusal of a claimed reservation: recorded and announced.
unfoldable pub refuse : ReservationInput → ReservationRejection → Option ℕ → Tx ReservationOutcome
unfolding finish_rejection write_outcome
refuse input reason available = do
  finish_rejection input reason available
  write_outcome input (ReservationOutcome.rejected reason available)
  pure (ReservationOutcome.rejected reason available)

-- The answer that a recorded reservation gives again.
abbrev pub recorded_outcome : Operation → OperationOutcome → Tx ReservationOutcome
recorded_outcome o pending = raise still_pending
recorded_outcome o (succeeded id) = pure (ReservationOutcome.reserved id)
recorded_outcome o (OperationOutcome.rejected reason) =
    pure (ReservationOutcome.rejected reason o.available_at_decision)

unfoldable pub reply_conflict : ReservationInput → Tx ReservationOutcome
unfolding insert_alert write_outcome
reply_conflict input = do
  insert_alert (record {
    order_id = input.order_id;
    operation_type = OperationType.reserve;
    code = of_reservation ReservationRejection.conflicting_request;
    correlation_id = input.correlation_id;
  })
  write_outcome input (ReservationOutcome.rejected ReservationRejection.conflicting_request none)
  pure (ReservationOutcome.rejected ReservationRejection.conflicting_request none)

unfoldable pub reply_again : ReservationInput → Operation → Tx ReservationOutcome
unfolding write_outcome
reply_again input o = do
  outcome ← recorded_outcome o o.outcome
  write_outcome input outcome
  pure outcome

abbrev replay_recorded : ReservationInput → Option Operation → Tx ReservationOutcome
replay_recorded input none = raise conflict_disappeared
replay_recorded input (some o) =
    if not (o.requester_id == input.requester_id) || not (o.amount == input.amount)
    then reply_conflict input
    else reply_again input o

-- `replayOrRejectConflict`
unfoldable pub replay_or_reject : ReservationInput → Tx ReservationOutcome
unfolding reply_conflict reply_again
replay_or_reject input db =
    replay_recorded input (find (is_operation input.order_id OperationType.reserve) db.operations)
      db

-- No wallet was debited: there is none, or it holds too little.
abbrev refuse_short : ReservationInput → Option Wallet → Tx ReservationOutcome
refuse_short input none = raise (wallet_not_ready input.requester_id)
refuse_short input (some w) = refuse input insufficient_credits (some w.available)

-- A wallet was debited: the transaction, its two ledger entries, the outcome and the reply.
unfoldable pub record_reservation : ReservationInput → (uuid : ℕ) → Wallet → Tx ReservationOutcome
unfolding insert_transaction insert_entry update_operation write_outcome
record_reservation input uuid balances = do
  insert_transaction (record {
    transaction_id = uuid;
    order_id = some input.order_id;
    transaction_type = TransactionType.reserve;
    wallet_user_id = input.requester_id;
    amount = input.amount;
  })
  insert_entry (record {
    transaction_id = uuid;
    entry_no = 1;
    wallet_user_id = some input.requester_id;
    account = Account.available;
    direction = Direction.debit;
    amount = input.amount;
    resulting_available = some balances.available;
    resulting_reserved = some balances.reserved;
  })
  insert_entry (record {
    transaction_id = uuid;
    entry_no = 2;
    wallet_user_id = some input.requester_id;
    account = Account.reserved;
    direction = Direction.credit;
    amount = input.amount;
    resulting_available = some balances.available;
    resulting_reserved = some balances.reserved;
  })
  update_operation
      (λ o.
        is_operation input.order_id OperationType.reserve o
        && (o.requester_id == input.requester_id))
      (λ o. record o { outcome = succeeded uuid })
  write_outcome input (ReservationOutcome.reserved uuid)
  pure (ReservationOutcome.reserved uuid)

abbrev when_debited : ReservationInput → (uuid : ℕ) → Option Wallet → Tx ReservationOutcome
when_debited input uuid none db = refuse_short input (find_wallet input.requester_id db.wallets) db
when_debited input uuid (some w) db = record_reservation input uuid w db

-- `UPDATE wallets SET available = available - $2, reserved = reserved + $2 … WHERE available >= $2`
unfoldable pub debit_available : ReservationInput → Tx (Option Wallet)
unfolding update_wallet
debit_available input =
    update_wallet input.requester_id (λ w. leb input.amount w.available)
      (λ w. record w {
        available = w.available - input.amount;
        reserved = w.reserved + input.amount;
      })

unfoldable pub decide_claimed : ReservationInput → (uuid : ℕ) → Tx ReservationOutcome
unfolding debit_available refuse record_reservation
decide_claimed input uuid = do changed ← debit_available input; when_debited input uuid changed

abbrev pub when_claimed : ReservationInput → (uuid : ℕ) → Bool → Tx ReservationOutcome
when_claimed input uuid false = replay_or_reject input
when_claimed input uuid true =
    if ltb max_reservation_amount input.amount
    then refuse input amount_out_of_range none
    else decide_claimed input uuid

-- `reserve`
unfoldable pub reserve : ReservationInput → (uuid : ℕ) → Tx ReservationOutcome
unfolding claim_operation replay_or_reject decide_claimed
reserve input uuid = do
  claimed ← claim_operation (record {
    order_id = input.order_id;
    operation_type = OperationType.reserve;
    requester_id = input.requester_id;
    courier_id = none;
    amount = input.amount;
    outcome = pending;
    available_at_decision = none;
    result_payload = none;
  })
  when_claimed input uuid claimed
