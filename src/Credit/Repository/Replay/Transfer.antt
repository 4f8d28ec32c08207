-- ===== src/Credit/Repository/Replay/Transfer.antt =====
-- credit-service/src/credits/credit.repository.ts: `transfer`, delivered again.
use foc_app.Common.{
  ℕ, ◌≡◌, ◌∷◌, true, Option, some, none, find, arith, refl, subst, Option-cases, inl, inr, ◌≢◌,
  ◌==◌, Bool-cases,
}
use foc_app.Credit.Types.{TransferInput, TransferResult, TerminalRejection, transferred}
use foc_app.Credit.Db.{
  Wallet, Operation, OperationType, Db, ok, succeeded, of_transfer, credits_transferred,
  find_wallet, put_wallet, is_terminal_of,
}
use foc_app.Credit.Measures.{granted}
use foc_app.Credit.Repository.Checks.{
  terminal_of, find_terminal, lock_reservation, validate_reservation,
}
use foc_app.Credit.Repository.Transfer.{
  transfer, settle_transfer, settle_locked, replay_transfer, reject_transfer, when_valid,
  when_prior,
}
use foc_app.Credit.Repository.Effects.Checks.{
  Reserved, bind-Ran, lock_reservation-same, validate_reservation-same,
  validate_reservation-Reserved,
}
use foc_app.Credit.Repository.Effects.Transfer.{payment, charged}

-- The order's transfer is this input's, and recorded `result`.
record Recorded (input : TransferInput) (result : TransferResult) (db : Db) : Type 0 where
  reservation : Reserved (terminal_of input) db
  participants : input.requester_id ≢ input.courier_id
  row : Operation
  found : find (is_terminal_of input.order_id) db.operations ≡ some row
  kind : row.operation_type ≡ OperationType.transfer
  requester : row.requester_id ≡ input.requester_id
  courier : row.courier_id ≡ some input.courier_id
  amount : row.amount ≡ input.amount
  outcome : granted (some row) ≡ true
  payload : row.result_payload ≡ some (of_transfer result)

-- The tables once the answer is sent again.
abbrev pub replied : TransferInput → TransferResult → Db → Db
replied input result db = record db {
  outbox =
      record {
        event = credits_transferred result;
        aggregate_id = input.order_id;
        correlation_id = input.correlation_id;
        causation_id = input.causation_id;
      }
      ∷ db.outbox;
}

module _ (input : TransferInput) (uuid : ℕ) (db : Db) {result : TransferResult} {db' : Db} where
  settle_locked-Recorded :
      (w v : Wallet)
      → find_wallet input.requester_id db.wallets ≡ some w
      → find_wallet input.courier_id (put_wallet (charged input w) db.wallets) ≡ some v
      → Reserved (terminal_of input) db
      → input.requester_id ≢ input.courier_id
      → settle_locked input uuid db ≡ ok (transferred result, db')
      → Recorded input result db'
  unfolding settle_locked
  settle_locked-Recorded w v found payee r distinct h = record {
    reservation = record {
      row = r.row;
      found = ground (arith, r.found);
      active = r.active;
      requester = r.requester;
      amount = r.amount;
    };
    participants = distinct;
    row = payment input (succeeded uuid) (some (of_transfer result));
    found = ground arith;
    kind = refl;
    requester = refl;
    courier = refl;
    amount = refl;
    outcome = refl;
    payload = refl;
  }

  replay_transfer-Recorded :
      (prior : Operation)
      → find (is_terminal_of input.order_id) db.operations ≡ some prior
      → Reserved (terminal_of input) db
      → input.requester_id ≢ input.courier_id
      → replay_transfer prior input db ≡ ok (transferred result, db')
      → Recorded input result db'
  unfolding replay_transfer
  replay_transfer-Recorded prior found r distinct h = record {
    reservation = record {
      row = r.row;
      found = ground (arith, r.found);
      active = r.active;
      requester = r.requester;
      amount = r.amount;
    };
    participants = distinct;
    row = prior;
    found = ground arith;
    kind = ground arith;
    requester = ground arith;
    courier = ground arith;
    amount = ground arith;
    outcome = ground arith;
    payload = ground arith;
  }

  settle_locked-Found :
      (w : Wallet)
      → find_wallet input.requester_id db.wallets ≡ some w
      → Reserved (terminal_of input) db
      → input.requester_id ≢ input.courier_id
      → settle_locked input uuid db ≡ ok (transferred result, db')
      → Recorded input result db'
  settle_locked-Found w found r distinct h =
      elim (Option-cases (find_wallet input.courier_id (put_wallet (charged input w) db.wallets))) [
        | inl missing ↦ absurd (unfold settle_locked in ground (arith, h, found, missing))
        | inr (v, payee) ↦ settle_locked-Recorded w v found payee r distinct h
      ]

  settle_transfer-Recorded :
      Reserved (terminal_of input) db
      → input.requester_id ≢ input.courier_id
      → settle_transfer input uuid db ≡ ok (transferred result, db')
      → Recorded input result db'
  settle_transfer-Recorded r distinct h =
      elim (Option-cases (find_wallet input.requester_id db.wallets)) [
        | inl missing ↦ absurd (unfold settle_transfer in ground (arith, h, missing))
        | inr (w, found) ↦
            settle_locked-Found w found r distinct
              (unfold settle_transfer in ground (arith, h, found))
      ]

  when_prior-Recorded :
      (prior : Option Operation)
      → find_terminal input.order_id db.operations ≡ prior
      → Reserved (terminal_of input) db
      → input.requester_id ≢ input.courier_id
      → when_prior input uuid prior db ≡ ok (transferred result, db')
      → Recorded input result db'
  when_prior-Recorded none e r distinct h = settle_transfer-Recorded r distinct h
  when_prior-Recorded (some prior) e r distinct h = replay_transfer-Recorded prior e r distinct h

  when_unmarked-Recorded :
      Reserved (terminal_of input) db
      → when_valid input uuid none db ≡ ok (transferred result, db')
      → Recorded input result db'
  when_unmarked-Recorded r h = elim (Bool-cases (input.requester_id == input.courier_id)) [
    | inl same ↦ absurd (unfold reject_transfer in ground (arith, h, same))
    | inr distinct ↦
        when_prior-Recorded (find_terminal input.order_id db.operations) refl r (ground arith)
          (ground (arith, h, distinct))
  ]

  when_valid-Recorded :
      (o : Operation) (invalid : Option TerminalRejection) (between : Db)
      → lock_reservation input.order_id db ≡ ok (o, db)
      → validate_reservation o (terminal_of input) OperationType.transfer db ≡ ok (invalid, between)
      → when_valid input uuid invalid between ≡ ok (transferred result, db')
      → Recorded input result db'
  when_valid-Recorded o (some reason) between locked validated h = absurd (ground (arith, h))
  when_valid-Recorded o none between locked validated h =
      when_unmarked-Recorded
        (validate_reservation-Reserved (terminal_of input) OperationType.transfer o db locked
          validated)
        (subst (λ x. when_valid input uuid none x ≡ ok (transferred result, db'))
          (validate_reservation-same (terminal_of input) OperationType.transfer o db validated) h)

  transfer-Recorded :
      transfer input uuid db ≡ ok (transferred result, db') → Recorded input result db'
  unfolding transfer
  transfer-Recorded h =
      let locked = bind-Ran (lock_reservation input.order_id) _ db h in
      let validated =
        bind-Ran (validate_reservation locked.value (terminal_of input) OperationType.transfer) _
          locked.between locked.then in
      let same = lock_reservation-same input.order_id db locked.first in
      when_valid-Recorded locked.value validated.value validated.between
        (subst (λ x. lock_reservation input.order_id db ≡ ok (locked.value, x)) same locked.first)
        (subst
          (λ x.
            validate_reservation locked.value (terminal_of input) OperationType.transfer x
            ≡ ok (validated.value, validated.between))
          same validated.first)
        validated.then

-- An order whose transfer is recorded gets the recorded answer.
Recorded-transfer :
    (input : TransferInput) (again : ℕ) (db : Db) {result : TransferResult}
    → Recorded input result db
    → transfer input again db ≡ ok (transferred result, replied input result db)
unfolding transfer
Recorded-transfer input again db a = ground (
  arith, a.reservation.found, a.reservation.active, a.reservation.requester, a.reservation.amount,
  a.participants, a.found, a.kind, a.requester, a.courier, a.amount, a.outcome, a.payload,
)

-- A transfer that was made is answered the same when it is delivered again, and nothing but the reply is
-- written.
pub transfer_again :
    (input : TransferInput) (uuid again : ℕ) (db : Db) {result : TransferResult} {db' : Db}
    → transfer input uuid db ≡ ok (transferred result, db')
    → transfer input again db' ≡ ok (transferred result, replied input result db')
transfer_again input uuid again db {result} {db'} h =
    Recorded-transfer input again db' (transfer-Recorded input uuid db h)
