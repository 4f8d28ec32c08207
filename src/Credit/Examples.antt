-- ===== src/Credit/Examples.antt =====
-- credit-service/src: messages to two wallets about one errand.
mod Calls
mod Pages
use foc_app.Common.{ℕ, ◌+◌, ◌≡◌, ◌≢◌, refl, none, some, List, [], ◌∷◌}
use foc_app.Credit.Types.{
  TransactionType, ReservationInput, ReservationOutcome, ReleaseInput, TransferInput, released,
  transferred,
}
use foc_app.Credit.Db.{
  Wallet, Db, Result, ok, err, not_backed, insert_wallet, succeeded, find_wallet,
}
use foc_app.Credit.Invariants.{
  ledger_audit, unbacked, ledger_differs, credit_economy_violations,
  unbalanced_transaction_violations, conservation_violations, order_outcome_violations,
  reserved_backing_violations, wallet_ledger_violations,
}
use foc_app.Credit.Repository.Issue.{issue_initial, issue_new}
use foc_app.Credit.Repository.Reserve.{reserve}
use foc_app.Credit.Repository.Release.{release}
use foc_app.Credit.Repository.Transfer.{transfer}
use foc_app.Credit.Repository.Effects.Reserve.{ReserveEffect, reserve-ReserveEffect, reservation}
use foc_app.Credit.Repository.Effects.Checks.{Reserved}
use foc_app.Credit.Repository.Effects.Release.{ReleaseEffect, release-ReleaseEffect, release_result}
use foc_app.Credit.Repository.Effects.Transfer.{
  TransferEffect, transfer-TransferEffect, transfer_result,
}
use foc_app.Credit.Repository.Replay.Reserve
use foc_app.Credit.Repository.Replay.Release
use foc_app.Credit.Repository.Replay.Transfer
use foc_app.Credit.Repository.Replay.Reserve.{reserve_again}
use foc_app.Credit.Repository.Replay.Release.{release_again}
use foc_app.Credit.Repository.Replay.Transfer.{transfer_again}
use foc_app.Credit.Consumers.{
  Service, Delivery, Envelope, activation, completion, release_request, handle_delivery,
  deliver_all, deliver, empty_service, process_once, process_replayable, handle_activation,
  handle_reservation, handle_completion, handle_release,
}
use foc_app.Credit.Consumers
use foc_app.Credit.Economy.Invariant.{Economy}
use foc_app.Credit.Economy.Deliveries.{
  audit_always_clean, deliver_all-Economy, deliver-Economy, empty-Economy,
}
use foc_app.Credit.Economy.Reachable.{always_backed}
use foc_app.Credit.Economy.Settles.{answer, IsFresh, release_settles}
use foc_app.Credit.Repository.Checks.{find_terminal}

abbrev pub activates : ℕ → ℕ → Delivery
activates event user = activation (100 + event) (record {
  event_id = event;
  aggregate_id = user;
  correlation_id = 900;
  payload = record { user_id = user };
})

abbrev pub reserves : ℕ → ℕ → Delivery
reserves event amount = Consumers.reservation (100 + event) (record {
  event_id = event;
  aggregate_id = 7;
  correlation_id = 900;
  payload = record { order_id = 7; requester_id = 1; amount = amount };
})

abbrev pub completes : ℕ → Delivery
completes event = completion (100 + event) (record {
  event_id = event;
  aggregate_id = 7;
  correlation_id = 900;
  payload = record { order_id = 7; requester_id = 1; courier_id = 2; amount = 3 };
})

abbrev cancels : ℕ → Delivery
cancels event = release_request (100 + event) (record {
  event_id = event;
  aggregate_id = 7;
  correlation_id = 900;
  payload = record { order_id = 7; requester_id = 1; amount = 3 };
})

-- Both activations, the reservation twice, and both settlements in a race.
abbrev day : List Delivery
day =
    activates 1 1
    ∷ activates 2 2
    ∷ activates 1 1
    ∷ reserves 3 3
    ∷ reserves 3 3
    ∷ completes 4
    ∷ cancels 5
    ∷ completes 4
    ∷ []

wallets_day :
    (deliver_all 10 day empty_service).books.wallets
    ≡ record { user_id = 2; available = 13; reserved = 0 }
      ∷ record { user_id = 1; available = 7; reserved = 0 }
      ∷ []
unfolding deliver_all handle_delivery process_once process_replayable handle_activation
    handle_reservation handle_completion handle_release transfer release reserve issue_initial
    insert_wallet issue_new
wallets_day = refl

audit_always_clean_example : ledger_audit (deliver_all 10 day empty_service).books ≡ []
audit_always_clean_example = audit_always_clean 10 day

always_backed_example :
    handle_delivery 10 (cancels 6) (deliver_all 10 day empty_service) ≢ err (not_backed 7)
always_backed_example = always_backed 10 day (cancels 6) 7

-- The books once both wallets are funded, once the errand is reserved, and once it is settled.
abbrev pub funded : Db
funded = (deliver_all 10 (activates 1 1 ∷ activates 2 2 ∷ []) empty_service).books

abbrev pub reserved : Db
reserved = (deliver_all 10 (activates 1 1 ∷ activates 2 2 ∷ reserves 3 3 ∷ []) empty_service).books

pub reserved-Economy : Economy reserved
reserved-Economy =
    deliver_all-Economy 10 (activates 1 1 ∷ activates 2 2 ∷ reserves 3 3 ∷ []) empty_service
      empty-Economy

-- A credit moved to `reserved` with no reservation keeps the total and is still found.
unbacked_is_found :
    ledger_audit (record empty_service.books {
      wallets = record { user_id = 1; available = 0; reserved = 1 } ∷ [];
      transactions =
          record {
            transaction_id = 5;
            order_id = none;
            transaction_type = TransactionType.issue;
            wallet_user_id = 1;
            amount = 1;
          }
          ∷ [];
    })
    ≡ unbacked 1 1 0 ∷ ledger_differs 1 ∷ []
unfolding ledger_audit credit_economy_violations unbalanced_transaction_violations
    conservation_violations order_outcome_violations reserved_backing_violations
    wallet_ledger_violations
unbacked_is_found = refl
