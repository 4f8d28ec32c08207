-- ===== src/Credit/Repository/Replay/Release.antt =====
-- credit-service/src/credits/credit.repository.ts: `release`, delivered again.
use foc_app.Common.{
  ℕ, ◌≡◌, ◌∷◌, true, Option, some, none, find, arith, refl, subst, Option-cases, inl, inr,
}
use foc_app.Credit.Types.{ReleaseInput, ReleaseResult, TerminalRejection, released}
use foc_app.Credit.Db.{
  Wallet, Operation, OperationType, Db, ok, succeeded, of_release, credits_released, find_wallet,
  is_terminal_of,
}
use foc_app.Credit.Measures.{granted}
use foc_app.Credit.Repository.Checks.{find_terminal, lock_reservation, validate_reservation}
use foc_app.Credit.Repository.Release.{
  release, settle_release, replay_release, when_valid, when_prior,
}
use foc_app.Credit.Repository.Effects.Checks.{
  Reserved, bind-Ran, lock_reservation-same, validate_reservation-same,
  validate_reservation-Reserved,
}
use foc_app.Credit.Repository.Effects.Release.{settlement}

-- The order's release is this input's, and recorded `result`.
record Recorded (input : ReleaseInput) (result : ReleaseResult) (db : Db) : Type 0 where
  reservation : Reserved input db
  row : Operation
  found : find (is_terminal_of input.order_id) db.operations ≡ some row
  kind : row.operation_type ≡ OperationType.release
  requester : row.requester_id ≡ input.requester_id
  amount : row.amount ≡ input.amount
  outcome : granted (some row) ≡ true
  payload : row.result_payload ≡ some (of_release result)

-- The tables once the answer is sent again.
abbrev pub replied : ReleaseInput → ReleaseResult → Db → Db
replied input result db = record db {
  outbox =
      record {
        event = credits_released result;
        aggregate_id = input.order_id;
        correlation_id = input.correlation_id;
        causation_id = input.causation_id;
      }
      ∷ db.outbox;
}

module _ (input : ReleaseInput) (uuid : ℕ) (db : Db) {result : ReleaseResult} {db' : Db} where
  settle_release-Recorded :
      (w : Wallet)
      → find_wallet input.requester_id db.wallets ≡ some w
      → Reserved input db
      → settle_release input uuid db ≡ ok (released result, db')
      → Recorded input result db'
  unfolding settle_release
  settle_release-Recorded w found r h = record {
    reservation = record {
      row = r.row;
      found = ground (arith, r.found);
      active = r.active;
      requester = r.requester;
      amount = r.amount;
    };
    row = settlement input (succeeded uuid) (some (of_release result));
    found = ground arith;
    kind = refl;
    requester = refl;
    amount = refl;
    outcome = refl;
    payload = refl;
  }

  replay_release-Recorded :
      (prior : Operation)
      → find (is_terminal_of input.order_id) db.operations ≡ some prior
      → Reserved input db
      → replay_release prior input db ≡ ok (released result, db')
      → Recorded input result db'
  unfolding replay_release
  replay_release-Recorded prior found r h = record {
    reservation = record {
      row = r.row;
      found = ground (arith, r.found);
      active = r.active;
      requester = r.requester;
      amount = r.amount;
    };
    row = prior;
    found = ground arith;
    kind = ground arith;
    requester = ground arith;
    amount = ground arith;
    outcome = ground arith;
    payload = ground arith;
  }

  settle_release-Found :
      Reserved input db
      → settle_release input uuid db ≡ ok (released result, db')
      → Recorded input result db'
  settle_release-Found r h = elim (Option-cases (find_wallet input.requester_id db.wallets)) [
    | inl missing ↦ absurd (unfold settle_release in ground (arith, h, missing))
    | inr (w, found) ↦ settle_release-Recorded w found r h
  ]

  when_prior-Recorded :
      (prior : Option Operation)
      → find_terminal input.order_id db.operations ≡ prior
      → Reserved input db
      → when_prior input uuid prior db ≡ ok (released result, db')
      → Recorded input result db'
  when_prior-Recorded none e r h = settle_release-Found r h
  when_prior-Recorded (some prior) e r h = replay_release-Recorded prior e r h

  when_valid-Recorded :
      (o : Operation) (invalid : Option TerminalRejection) (between : Db)
      → lock_reservation input.order_id db ≡ ok (o, db)
      → validate_reservation o input OperationType.release db ≡ ok (invalid, between)
      → when_valid input uuid invalid between ≡ ok (released result, db')
      → Recorded input result db'
  when_valid-Recorded o (some reason) between locked validated h = absurd (ground (arith, h))
  when_valid-Recorded o none between locked validated h =
      when_prior-Recorded (find_terminal input.order_id db.operations) refl
        (validate_reservation-Reserved input OperationType.release o db locked validated)
        (subst
          (λ x.
            when_prior input uuid (find_terminal input.order_id x.operations) x
            ≡ ok (released result, db'))
          (validate_reservation-same input OperationType.release o db validated) h)

  release-Recorded : release input uuid db ≡ ok (released result, db') → Recorded input result db'
  unfolding release
  release-Recorded h =
      let locked = bind-Ran (lock_reservation input.order_id) _ db h in
      let validated =
        bind-Ran (validate_reservation locked.value input OperationType.release) _ locked.between
          locked.then in
      let same = lock_reservation-same input.order_id db locked.first in
      when_valid-Recorded locked.value validated.value validated.between
        (subst (λ x. lock_reservation input.order_id db ≡ ok (locked.value, x)) same locked.first)
        (subst
          (λ x.
            validate_reservation locked.value input OperationType.release x
            ≡ ok (validated.value, validated.between))
          same validated.first)
        validated.then

-- An order whose release is recorded gets the recorded answer.
Recorded-release :
    (input : ReleaseInput) (again : ℕ) (db : Db) {result : ReleaseResult}
    → Recorded input result db
    → release input again db ≡ ok (released result, replied input result db)
unfolding release
Recorded-release input again db a = ground (
  arith, a.reservation.found, a.reservation.active, a.reservation.requester, a.reservation.amount,
  a.found, a.kind, a.requester, a.amount, a.outcome, a.payload,
)

-- A release that was made is answered the same when it is delivered again, and nothing but the reply is
-- written.
pub release_again :
    (input : ReleaseInput) (uuid again : ℕ) (db : Db) {result : ReleaseResult} {db' : Db}
    → release input uuid db ≡ ok (released result, db')
    → release input again db' ≡ ok (released result, replied input result db')
release_again input uuid again db {result} {db'} h =
    Recorded-release input again db' (release-Recorded input uuid db h)
