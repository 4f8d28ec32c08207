-- ===== src/Credit/Repository/Effects/Release.antt =====
-- credit-service/src/credits/credit.repository.ts: what `release`, when it returns, has changed.
use foc_app.Common.{
  ℕ, ◌+◌, ◌-◌, ◌≤◌, ◌≡◌, ◌⊎◌, false, Option, none, some, ◌∷◌, any, arith, subst, Option-cases, inl,
  inr,
}
use foc_app.Credit.Types.{
  TransactionType, TerminalRejection, ReleaseInput, ReleaseResult, ReleaseOutcome,
}
use foc_app.Credit.Db.{
  Wallet, Transaction, Operation, OperationType, OperationOutcome, Payload, Account, Direction, Db,
  ok, pending, succeeded, of_release, operation_clash, find_wallet, put_wallet,
}
use foc_app.Credit.Repository.Checks.{
  balance, find_terminal, lock_reservation, validate_reservation,
}
use foc_app.Credit.Repository.Release.{
  release, settle_release, replay_release, when_valid, when_prior,
}
use foc_app.Credit.Repository.Effects.Reserve.{SameBooks, wallet_entry}
use foc_app.Credit.Repository.Effects.Checks.{
  Reserved, bind-Ran, lock_reservation-same, validate_reservation-same,
  validate_reservation-Reserved, validate_reservation-SameBooks,
}

-- The operation row of a release.
abbrev pub settlement : ReleaseInput → OperationOutcome → Option Payload → Operation
settlement input outcome payload = record {
  order_id = input.order_id;
  operation_type = OperationType.release;
  requester_id = input.requester_id;
  courier_id = none;
  amount = input.amount;
  outcome = outcome;
  available_at_decision = none;
  result_payload = payload;
}

abbrev pub release_transaction : ReleaseInput → ℕ → Transaction
release_transaction input uuid = record {
  transaction_id = uuid;
  order_id = some input.order_id;
  transaction_type = TransactionType.release;
  wallet_user_id = input.requester_id;
  amount = input.amount;
}

-- The requester's wallet once the credits are back.
abbrev pub returned : ReleaseInput → Wallet → Wallet
returned input w = record w {
  available = w.available + input.amount;
  reserved = w.reserved - input.amount;
}

abbrev pub release_result : ReleaseInput → ℕ → Wallet → ReleaseResult
release_result input uuid w = record {
  order_id = input.order_id;
  requester_id = input.requester_id;
  amount = input.amount;
  transaction_id = uuid;
  requester_balance = balance (returned input w);
}

-- A first settlement: credits moved from reserved to available, with the transaction, its entries and
-- the recorded result.
pub record Returned (input : ReleaseInput) (uuid : ℕ) (db db' : Db) : Type 0 where
  pub wallet : Wallet
  pub found : find_wallet input.requester_id db.wallets ≡ some wallet
  pub covered : input.amount ≤ wallet.reserved
  pub new_settlement : any (operation_clash (settlement input pending none)) db.operations ≡ false
  pub wallets : db'.wallets ≡ put_wallet (returned input wallet) db.wallets
  pub transactions : db'.transactions ≡ release_transaction input uuid ∷ db.transactions
  pub entries :
      db'.entries
      ≡ wallet_entry uuid 2 input.requester_id Account.available Direction.credit input.amount
          (returned input wallet)
        ∷ wallet_entry uuid 1 input.requester_id Account.reserved Direction.debit input.amount
            (returned input wallet)
        ∷ db.entries
  pub operations :
      db'.operations
      ≡ settlement input (succeeded uuid) (some (of_release (release_result input uuid wallet)))
        ∷ db.operations

-- Only the order's granted reservation is ever released.
pub record Released (input : ReleaseInput) (uuid : ℕ) (db db' : Db) : Type 0 where
  pub reservation : Reserved input db
  pub change : Returned input uuid db db'

abbrev pub ReleaseEffect : ReleaseInput → ℕ → Db → Db → Type 0
ReleaseEffect input uuid db db' = Released input uuid db db' ⊎ SameBooks db db'

module _ (input : ReleaseInput) (uuid : ℕ) (db : Db) {out : ReleaseOutcome} {db' : Db} where
  replay_release-SameBooks :
      (prior : Operation) → replay_release prior input db ≡ ok (out, db') → SameBooks db db'
  unfolding replay_release
  replay_release-SameBooks prior h = record {
    wallets = ground arith;
    transactions = ground arith;
    entries = ground arith;
    operations = ground arith;
  }

  settle_release-Returned :
      (w : Wallet)
      → find_wallet input.requester_id db.wallets ≡ some w
      → settle_release input uuid db ≡ ok (out, db')
      → Returned input uuid db db'
  unfolding settle_release
  settle_release-Returned w found h = record {
    wallet = w;
    found = found;
    covered = ground arith;
    new_settlement = ground arith;
    wallets = ground arith;
    transactions = ground arith;
    entries = ground arith;
    operations = ground arith;
  }

  settle_release-Found : settle_release input uuid db ≡ ok (out, db') → Returned input uuid db db'
  settle_release-Found h = elim (Option-cases (find_wallet input.requester_id db.wallets)) [
    | inl missing ↦ absurd (unfold settle_release in ground (arith, h, missing))
    | inr (w, found) ↦ settle_release-Returned w found h
  ]

  when_prior-ReleaseEffect :
      (prior : Option Operation)
      → Reserved input db
      → when_prior input uuid prior db ≡ ok (out, db')
      → ReleaseEffect input uuid db db'
  when_prior-ReleaseEffect none r h =
      inl (record { reservation = r; change = settle_release-Found h })
  when_prior-ReleaseEffect (some prior) r h = inr (replay_release-SameBooks prior h)

  when_valid-ReleaseEffect :
      (o : Operation) (invalid : Option TerminalRejection) (between : Db)
      → lock_reservation input.order_id db ≡ ok (o, db)
      → validate_reservation o input OperationType.release db ≡ ok (invalid, between)
      → when_valid input uuid invalid between ≡ ok (out, db')
      → ReleaseEffect input uuid db db'
  when_valid-ReleaseEffect o (some reason) between locked validated h = inr (
      subst (SameBooks db) (ground (arith, h))
        (validate_reservation-SameBooks input OperationType.release o db validated))
  when_valid-ReleaseEffect o none between locked validated h =
      when_prior-ReleaseEffect (find_terminal input.order_id db.operations)
        (validate_reservation-Reserved input OperationType.release o db locked validated)
        (subst
          (λ x. when_prior input uuid (find_terminal input.order_id x.operations) x ≡ ok (out, db'))
          (validate_reservation-same input OperationType.release o db validated) h)

  -- Whatever `release` answers, it returned the credits of a granted reservation or changed nothing.
  pub release-ReleaseEffect :
      release input uuid db ≡ ok (out, db') → ReleaseEffect input uuid db db'
  unfolding release
  release-ReleaseEffect h =
      let locked = bind-Ran (lock_reservation input.order_id) _ db h in
      let validated =
        bind-Ran (validate_reservation locked.value input OperationType.release) _ locked.between
          locked.then in
      let same = lock_reservation-same input.order_id db locked.first in
      when_valid-ReleaseEffect locked.value validated.value validated.between
        (subst (λ x. lock_reservation input.order_id db ≡ ok (locked.value, x)) same locked.first)
        (subst
          (λ x.
            validate_reservation locked.value input OperationType.release x
            ≡ ok (validated.value, validated.between))
          same validated.first)
        validated.then
