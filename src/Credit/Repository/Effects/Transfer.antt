-- ===== src/Credit/Repository/Effects/Transfer.antt =====
-- credit-service/src/credits/credit.repository.ts: what `transfer`, when it returns, has changed.
use foc_app.Common.{
  ℕ, ◌+◌, ◌-◌, ◌≤◌, ◌≡◌, ◌≢◌, ◌⊎◌, false, Option, none, some, ◌∷◌, any, ◌==◌, arith, subst,
  Bool-cases, Option-cases, inl, inr,
}
use foc_app.Credit.Types.{
  TransactionType, TerminalRejection, TransferInput, TransferResult, TransferOutcome,
  invalid_participants,
}
use foc_app.Credit.Db.{
  Wallet, Transaction, Operation, OperationType, OperationOutcome, Payload, Account, Direction, Db,
  ok, pending, succeeded, of_transfer, operation_clash, find_wallet, put_wallet,
}
use foc_app.Credit.Repository.Checks.{
  balance, terminal_of, find_terminal, lock_reservation, validate_reservation,
}
use foc_app.Credit.Repository.Transfer.{
  transfer, settle_transfer, settle_locked, replay_transfer, reject_transfer, when_valid,
  when_prior,
}
use foc_app.Credit.Repository.Effects.Reserve.{SameBooks, wallet_entry}
use foc_app.Credit.Repository.Effects.Checks.{
  Reserved, bind-Ran, lock_reservation-same, validate_reservation-same,
  validate_reservation-Reserved, validate_reservation-SameBooks,
}

-- The operation row of a transfer.
abbrev pub payment : TransferInput → OperationOutcome → Option Payload → Operation
payment input outcome payload = record {
  order_id = input.order_id;
  operation_type = OperationType.transfer;
  requester_id = input.requester_id;
  courier_id = some input.courier_id;
  amount = input.amount;
  outcome = outcome;
  available_at_decision = none;
  result_payload = payload;
}

abbrev pub transfer_transaction : TransferInput → ℕ → Transaction
transfer_transaction input uuid = record {
  transaction_id = uuid;
  order_id = some input.order_id;
  transaction_type = TransactionType.transfer;
  wallet_user_id = input.requester_id;
  amount = input.amount;
}

-- The two wallets after the payment.
abbrev pub charged : TransferInput → Wallet → Wallet
charged input w = record w { reserved = w.reserved - input.amount }

abbrev pub credited : TransferInput → Wallet → Wallet
credited input v = record v { available = v.available + input.amount }

abbrev pub transfer_result : TransferInput → ℕ → (requester courier : Wallet) → TransferResult
transfer_result input uuid w v = record {
  order_id = input.order_id;
  requester_id = input.requester_id;
  courier_id = input.courier_id;
  amount = input.amount;
  transaction_id = uuid;
  requester_balance = balance (charged input w);
  courier_balance = balance (credited input v);
}

-- A first settlement: the requester's reserved credits became the courier's available ones, with the
-- transaction, its entries and the recorded result.
pub record Paid (input : TransferInput) (uuid : ℕ) (db db' : Db) : Type 0 where
  pub requester : Wallet
  pub courier : Wallet
  pub found : find_wallet input.requester_id db.wallets ≡ some requester
  pub payee :
      find_wallet input.courier_id (put_wallet (charged input requester) db.wallets) ≡ some courier
  pub covered : input.amount ≤ requester.reserved
  pub new_settlement : any (operation_clash (payment input pending none)) db.operations ≡ false
  pub wallets :
      db'.wallets
      ≡ put_wallet (credited input courier) (put_wallet (charged input requester) db.wallets)
  pub transactions : db'.transactions ≡ transfer_transaction input uuid ∷ db.transactions
  pub entries :
      db'.entries
      ≡ wallet_entry uuid 2 input.courier_id Account.available Direction.credit input.amount
          (credited input courier)
        ∷ wallet_entry uuid 1 input.requester_id Account.reserved Direction.debit input.amount
            (charged input requester)
        ∷ db.entries
  pub operations :
      db'.operations
      ≡ payment input
          (succeeded uuid)
          (some (of_transfer (transfer_result input uuid requester courier)))
        ∷ db.operations

-- Only the order's granted reservation is ever paid out, and to another user.
pub record Transferred (input : TransferInput) (uuid : ℕ) (db db' : Db) : Type 0 where
  pub reservation : Reserved (terminal_of input) db
  pub participants : input.requester_id ≢ input.courier_id
  pub change : Paid input uuid db db'

abbrev pub TransferEffect : TransferInput → ℕ → Db → Db → Type 0
TransferEffect input uuid db db' = Transferred input uuid db db' ⊎ SameBooks db db'

module _ (input : TransferInput) (uuid : ℕ) (db : Db) {out : TransferOutcome} {db' : Db} where
  replay_transfer-SameBooks :
      (prior : Operation) → replay_transfer prior input db ≡ ok (out, db') → SameBooks db db'
  unfolding replay_transfer
  replay_transfer-SameBooks prior h = record {
    wallets = ground arith;
    transactions = ground arith;
    entries = ground arith;
    operations = ground arith;
  }

  reject_transfer-SameBooks :
      (reason : TerminalRejection)
      → reject_transfer input reason db ≡ ok (out, db')
      → SameBooks db db'
  unfolding reject_transfer
  reject_transfer-SameBooks reason h = record {
    wallets = ground arith;
    transactions = ground arith;
    entries = ground arith;
    operations = ground arith;
  }

  settle_locked-Paid :
      (w v : Wallet)
      → find_wallet input.requester_id db.wallets ≡ some w
      → find_wallet input.courier_id (put_wallet (charged input w) db.wallets) ≡ some v
      → settle_locked input uuid db ≡ ok (out, db')
      → Paid input uuid db db'
  unfolding settle_locked
  settle_locked-Paid w v found payee h = record {
    requester = w;
    courier = v;
    found = found;
    payee = payee;
    covered = ground arith;
    new_settlement = ground arith;
    wallets = ground arith;
    transactions = ground arith;
    entries = ground arith;
    operations = ground arith;
  }

  settle_locked-Payee :
      (w : Wallet)
      → find_wallet input.requester_id db.wallets ≡ some w
      → settle_locked input uuid db ≡ ok (out, db')
      → Paid input uuid db db'
  settle_locked-Payee w found h =
      elim (Option-cases (find_wallet input.courier_id (put_wallet (charged input w) db.wallets))) [
        | inl missing ↦ absurd (unfold settle_locked in ground (arith, h, found, missing))
        | inr (v, payee) ↦ settle_locked-Paid w v found payee h
      ]

  settle_transfer-Paid : settle_transfer input uuid db ≡ ok (out, db') → Paid input uuid db db'
  settle_transfer-Paid h = elim (Option-cases (find_wallet input.requester_id db.wallets)) [
    | inl missing ↦ absurd (unfold settle_transfer in ground (arith, h, missing))
    | inr (w, found) ↦
        settle_locked-Payee w found (unfold settle_transfer in ground (arith, h, found))
  ]

  when_prior-TransferEffect :
      (prior : Option Operation)
      → Reserved (terminal_of input) db
      → input.requester_id ≢ input.courier_id
      → when_prior input uuid prior db ≡ ok (out, db')
      → TransferEffect input uuid db db'
  when_prior-TransferEffect none r distinct h =
      inl (record { reservation = r; participants = distinct; change = settle_transfer-Paid h })
  when_prior-TransferEffect (some prior) r distinct h = inr (replay_transfer-SameBooks prior h)

  when_unmarked-TransferEffect :
      Reserved (terminal_of input) db
      → when_valid input uuid none db ≡ ok (out, db')
      → TransferEffect input uuid db db'
  when_unmarked-TransferEffect r h = elim (Bool-cases (input.requester_id == input.courier_id)) [
    | inl same ↦ inr (reject_transfer-SameBooks invalid_participants (ground (arith, h, same)))
    | inr distinct ↦
        when_prior-TransferEffect (find_terminal input.order_id db.operations) r (ground arith)
          (ground (arith, h, distinct))
  ]

  when_valid-TransferEffect :
      (o : Operation) (invalid : Option TerminalRejection) (between : Db)
      → lock_reservation input.order_id db ≡ ok (o, db)
      → validate_reservation o (terminal_of input) OperationType.transfer db ≡ ok (invalid, between)
      → when_valid input uuid invalid between ≡ ok (out, db')
      → TransferEffect input uuid db db'
  when_valid-TransferEffect o (some reason) between locked validated h = inr (
      subst (SameBooks db) (ground (arith, h))
        (validate_reservation-SameBooks (terminal_of input) OperationType.transfer o db validated))
  when_valid-TransferEffect o none between locked validated h =
      when_unmarked-TransferEffect
        (validate_reservation-Reserved (terminal_of input) OperationType.transfer o db locked
          validated)
        (subst (λ x. when_valid input uuid none x ≡ ok (out, db'))
          (validate_reservation-same (terminal_of input) OperationType.transfer o db validated) h)

  -- Whatever `transfer` answers, it paid the credits of a granted reservation or changed nothing.
  pub transfer-TransferEffect :
      transfer input uuid db ≡ ok (out, db') → TransferEffect input uuid db db'
  unfolding transfer
  transfer-TransferEffect h =
      let locked = bind-Ran (lock_reservation input.order_id) _ db h in
      let validated =
        bind-Ran (validate_reservation locked.value (terminal_of input) OperationType.transfer) _
          locked.between locked.then in
      let same = lock_reservation-same input.order_id db locked.first in
      when_valid-TransferEffect locked.value validated.value validated.between
        (subst (λ x. lock_reservation input.order_id db ≡ ok (locked.value, x)) same locked.first)
        (subst
          (λ x.
            validate_reservation locked.value (terminal_of input) OperationType.transfer x
            ≡ ok (validated.value, validated.between))
          same validated.first)
        validated.then
