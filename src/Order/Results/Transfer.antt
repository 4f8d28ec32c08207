-- ===== src/Order/Results/Transfer.antt =====
-- order-service/src/credit-terminal-results.consumer.ts: the credit service's confirmation of a transfer,
-- which completes the errand and writes its receipt.
use foc_app.Common.{
  ℕ, Bool, true, false, not, ◌&&◌, Option, none, some, List, [], ◌∷◌, ◌==◌, if◌then◌else◌,
}
use foc_app.Order.Types.{OrderRow, completed}
use foc_app.Order.StateMachine.Vocabulary.{transfer_confirmed}
use foc_app.Order.Lifecycle.Store.{Store, Result, ok, err, unparseable}
use foc_app.Order.Lifecycle.Patch.{Periods, credit_transaction_id}
use foc_app.Order.Lifecycle.Transition.{
  CommandActor, TransitionCommand, TransitionResult, applied, refused, transition_using,
}
use foc_app.Order.Receipts.{insert_receipt}
use foc_app.Order.Results.{Envelope, is_number, has_status, unless}
pub mod Completed

-- `CreditsTransferredPayload`
pub record CreditsTransferredPayload : Type 0 where
  pub order_id : ℕ
  pub requester_id : ℕ
  pub courier_id : ℕ
  pub amount : ℕ
  pub transaction_id : ℕ

-- `matches`
abbrev pub matches_transfer : CreditsTransferredPayload → OrderRow → Bool
matches_transfer payload o =
    (o.requester_id == payload.requester_id)
    && (is_number o.courier_id payload.courier_id && (o.reward == payload.amount))

-- The command of a transfer confirmation. `actor` is the identifier of the credit service.
unfoldable pub transfer_command :
    (actor : ℕ) → Envelope CreditsTransferredPayload → TransitionCommand
transfer_command actor e = record {
  order_id = e.payload.order_id;
  action = transfer_confirmed;
  actor = CommandActor.credit_service actor;
  expected_version = none;
  correlation_id = e.correlation_id;
  causation_id = some e.event_id;
  now = none;
  verify = λ o. unless (matches_transfer e.payload o);
  patch = credit_transaction_id e.payload.transaction_id ∷ [];
  reason = none;
  requester_suspended = none;
  after_apply = insert_receipt;
}

-- Whether the errand was completed by this very transfer before.
abbrev pub is_duplicate_transfer : CreditsTransferredPayload → Option OrderRow → Bool
is_duplicate_transfer payload none = false
is_duplicate_transfer payload (some o) =
    has_status completed o
    && (is_number o.credit_transaction_id payload.transaction_id && matches_transfer payload o)

abbrev pub conclude_transfer :
    CreditsTransferredPayload → Result (TransitionResult × Store) → Result (Bool × Store)
conclude_transfer payload (err e) = err e
conclude_transfer payload (ok (applied o d, s)) = ok (true, s)
conclude_transfer payload (ok (refused reason found, s)) =
    if is_duplicate_transfer payload found then ok (false, s) else err unparseable

-- `CreditTerminalResultsConsumer.handleTransfer`
unfoldable pub handle_transfer :
    (actor : ℕ)
    → Periods
    → (clock : ℕ) → Envelope CreditsTransferredPayload
    → Store
    → Result (Bool × Store)
handle_transfer actor p clock e s =
    if not (e.aggregate_id == e.payload.order_id)
    then err unparseable
    else conclude_transfer e.payload (transition_using p clock (transfer_command actor e) s)
