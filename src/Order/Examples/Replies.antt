-- ===== src/Order/Examples/Replies.antt =====
-- order-service/src/reservation-results.consumer.ts and credit-terminal-results.consumer.ts: replies to
-- one errand.
use foc_app.Common.{Bool, true, false, some, [], ◌∷◌, ◌≡◌, refl, arith}
use foc_app.Order.Types.{
  ReleaseReason, pending_credit, open_, release_pending_credit, completion_pending_credit,
}
use foc_app.Order.Lifecycle.Store.{Store, Result, ok, err}
use foc_app.Order.Lifecycle.Valid.{StoreValid}
use foc_app.Order.Results.{
  Envelope, CreditsReleasedPayload, ResultPayload, credits_reserved, handle_release, handle_result,
}
use foc_app.Order.Results.Handled.{
  ReleaseHandled, ResultHandled, handle_release-ReleaseHandled, handle_result-ResultHandled,
}
use foc_app.Order.Receipts.{insert_receipt}
use foc_app.Order.StateMachine.Decide.{decide_transition}
use foc_app.Order.StateMachine.Table.{order_transitions}
use foc_app.Order.Lifecycle.Patch.{timestamp_patch, row_checks}
use foc_app.Order.Lifecycle.Transition.{
  transition_using, apply_decision, next_row, record_move, emit_all, emitted_event, resolve_actor,
  context_of,
}
use foc_app.Order.Results.Transfer.{transfer_command, CreditsTransferredPayload, handle_transfer}
use foc_app.Order.Results.Transfer.Completed.{TransferHandled, handle_transfer-TransferHandled}
use foc_app.Order.Examples.{errand, entry, periods, store, store-StoreValid}

-- The errand, cancelled and waiting for its credits.
abbrev waiting : Store
waiting = record store {
  orders =
      record errand {
        status = release_pending_credit;
        release_reason = some ReleaseReason.cancelled;
        version = 3;
      }
      ∷ [];
  history = entry pending_credit 1 ∷ entry open_ 2 ∷ entry release_pending_credit 3 ∷ [];
}

waiting-StoreValid : StoreValid waiting
waiting-StoreValid = record {
  rows = (ground arith, tt);
  unique = (refl, tt);
  counted = λ k o found. ground arith;
}

abbrev confirms : Envelope CreditsReleasedPayload
confirms = record {
  event_id = 50;
  aggregate_id = 1;
  correlation_id = 900;
  payload = record { order_id = 1; requester_id = 10; amount = 3; transaction_id = 77 };
}

abbrev replies : Envelope ResultPayload
replies = record {
  event_id = 51;
  aggregate_id = 1;
  correlation_id = 900;
  payload = record { order_id = 1; requester_id = 10; amount = 3; reply = credits_reserved };
}

handle_release-ReleaseHandled_example :
    ReleaseHandled 5 4000 confirms waiting (handle_release 5 periods 4000 confirms waiting)
handle_release-ReleaseHandled_example =
    handle_release-ReleaseHandled 5 4000 confirms waiting periods waiting-StoreValid

-- The reply to an errand that is open already repeats the recorded one.
handle_result-ResultHandled_example :
    ResultHandled 5 []
      (λ k. ok false)
      4000
      replies
      store
      (handle_result 5 [] (λ k. ok false) periods 4000 replies store)
handle_result-ResultHandled_example =
    handle_result-ResultHandled 5 [] (λ k. ok false) 4000 replies store periods store-StoreValid

-- The errand, delivered and waiting for its transfer.
abbrev settling : Store
settling = record store {
  orders =
      record errand {
        status = completion_pending_credit;
        version = 3;
        courier_id = some 20;
        accepted_at = some 2000;
        picked_up_at = some 2500;
        delivered_at = some 3000;
        completion_requested_at = some 3500;
      }
      ∷ [];
  history = entry pending_credit 1 ∷ entry open_ 2 ∷ entry completion_pending_credit 3 ∷ [];
}

settling-StoreValid : StoreValid settling
settling-StoreValid = record {
  rows = (ground arith, tt);
  unique = (refl, tt);
  counted = λ k o found. ground arith;
}

abbrev transfers : Envelope CreditsTransferredPayload
transfers = record {
  event_id = 52;
  aggregate_id = 1;
  correlation_id = 900;
  payload = record {
    order_id = 1;
    requester_id = 10;
    courier_id = 20;
    amount = 3;
    transaction_id = 78;
  };
}

abbrev changed : Result (Bool × Store) → Bool
changed (ok (b, s)) = b
changed (err e) = false

-- The confirmation applies.
transfer_applies : changed (handle_transfer 5 periods 4000 transfers settling) ≡ true
unfolding handle_transfer transfer_command insert_receipt transition_using apply_decision next_row
    record_move emit_all emitted_event resolve_actor context_of timestamp_patch row_checks
    decide_transition order_transitions
transfer_applies = refl

handle_transfer-TransferHandled_example :
    TransferHandled 5 4000 transfers settling (handle_transfer 5 periods 4000 transfers settling)
handle_transfer-TransferHandled_example =
    handle_transfer-TransferHandled 5 4000 transfers settling periods settling-StoreValid
