-- ===== src/Credit/Examples/Calls.antt =====
-- credit-service/src/credits/credit.repository.ts: calls on one errand.
use foc_app.Common.{◌≡◌, refl, none, some}
use foc_app.Credit.Types.{
  ReservationInput, ReservationOutcome, ReleaseInput, TransferInput, released, transferred,
}
use foc_app.Credit.Db.{Wallet, Db, Result, ok, err, insert_wallet, succeeded, find_wallet}
use foc_app.Credit.Repository.Issue.{issue_initial, issue_new}
use foc_app.Credit.Repository.Reserve.{reserve}
use foc_app.Credit.Repository.Release.{release}
use foc_app.Credit.Repository.Transfer.{transfer}
use foc_app.Credit.Repository.Effects.Reserve.{reservation}
use foc_app.Credit.Repository.Effects.Checks.{Reserved}
use foc_app.Credit.Repository.Effects.Release.{release_result}
use foc_app.Credit.Repository.Effects.Transfer.{
  TransferEffect, transfer-TransferEffect, transfer_result,
}
use foc_app.Credit.Repository.Replay.Transfer
use foc_app.Credit.Repository.Replay.Transfer.{transfer_again}
use foc_app.Credit.Consumers.{
  handle_delivery, deliver_all, empty_service, process_once, process_replayable, handle_activation,
  handle_reservation, handle_completion, handle_release,
}
use foc_app.Credit.Economy.Settles.{answer, IsFresh, release_settles}
use foc_app.Credit.Repository.Checks.{find_terminal}
use foc_app.Credit.Examples.{funded, reserved, reserved-Economy}

-- The tables of a call that returned.
abbrev db_of : {A : Type 0} → Result (A × Db) → Db
db_of (ok (out, db)) = db
db_of (err e) = empty_service.books

abbrev asks : ReservationInput
asks = record { order_id = 7; requester_id = 1; amount = 3; correlation_id = 900; causation_id = 3 }

abbrev gives_back : ReleaseInput
gives_back = record {
  order_id = 7;
  requester_id = 1;
  amount = 3;
  correlation_id = 900;
  causation_id = 5;
}

abbrev pays : TransferInput
pays = record {
  order_id = 7;
  requester_id = 1;
  courier_id = 2;
  amount = 3;
  correlation_id = 900;
  causation_id = 4;
}

abbrev requester_wallet : Wallet
requester_wallet = record { user_id = 1; available = 7; reserved = 3 }

abbrev courier_wallet : Wallet
courier_wallet = record { user_id = 2; available = 10; reserved = 0 }

reserve_returns :
    reserve asks 103 funded ≡ ok (ReservationOutcome.reserved 103, db_of (reserve asks 103 funded))
unfolding deliver_all handle_delivery process_once process_replayable handle_activation
    handle_reservation handle_completion handle_release transfer release reserve issue_initial
    insert_wallet issue_new
reserve_returns = refl

release_returns :
    release gives_back 105 reserved
    ≡ ok (
      released (release_result gives_back 105 requester_wallet),
      db_of (release gives_back 105 reserved),
    )
unfolding deliver_all handle_delivery process_once process_replayable handle_activation
    handle_reservation handle_completion handle_release transfer release reserve issue_initial
    insert_wallet issue_new
release_returns = refl

transfer_returns :
    transfer pays 104 reserved
    ≡ ok (
      transferred (transfer_result pays 104 requester_wallet courier_wallet),
      db_of (transfer pays 104 reserved),
    )
unfolding deliver_all handle_delivery process_once process_replayable handle_activation
    handle_reservation handle_completion handle_release transfer release reserve issue_initial
    insert_wallet issue_new
transfer_returns = refl

transfer-TransferEffect_example :
    TransferEffect pays 104 reserved (db_of (transfer pays 104 reserved))
transfer-TransferEffect_example = transfer-TransferEffect pays 104 reserved transfer_returns

transfer_again_example :
    transfer pays 204 (db_of (transfer pays 104 reserved))
    ≡ ok (
      transferred (transfer_result pays 104 requester_wallet courier_wallet),
      Transfer.replied pays
          (transfer_result pays 104 requester_wallet courier_wallet)
          (db_of (transfer pays 104 reserved)),
    )
transfer_again_example = transfer_again pays 104 204 reserved transfer_returns

granted_reservation : Reserved gives_back reserved
unfolding deliver_all handle_delivery process_once process_replayable handle_activation
    handle_reservation handle_completion handle_release transfer release reserve issue_initial
    insert_wallet issue_new
granted_reservation = record {
  row = reservation asks (succeeded 103) none;
  found = refl;
  active = refl;
  requester = refl;
  amount = refl;
}

no_settlement : find_terminal 7 reserved.operations ≡ none
unfolding deliver_all handle_delivery process_once process_replayable handle_activation
    handle_reservation handle_completion handle_release transfer release reserve issue_initial
    insert_wallet issue_new
no_settlement = refl

new_identifier : IsFresh 105 reserved
unfolding deliver_all handle_delivery process_once process_replayable handle_activation
    handle_reservation handle_completion handle_release transfer release reserve issue_initial
    insert_wallet issue_new
new_identifier = (refl, refl)

requester_found : find_wallet 1 reserved.wallets ≡ some requester_wallet
unfolding deliver_all handle_delivery process_once process_replayable handle_activation
    handle_reservation handle_completion handle_release transfer release reserve issue_initial
    insert_wallet issue_new
requester_found = refl

release_settles_example :
    answer (release gives_back 105 reserved)
    ≡ some (released (release_result gives_back 105 requester_wallet))
release_settles_example =
    release_settles gives_back 105 reserved requester_wallet reserved-Economy granted_reservation
      no_settlement new_identifier refl requester_found refl
