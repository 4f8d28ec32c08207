-- ===== src/Credit/Repository/Effects/Reserve.antt =====
-- credit-service/src/credits/credit.repository.ts: what `reserve`, when it returns, has changed.
use foc_app.Common.{
  ℕ, ◌+◌, ◌-◌, ◌≤◌, ◌<◌, ◌≡◌, ◌⊎◌, true, false, Option, none, some, ◌∷◌, any, arith, leb, ltb,
  Bool-cases, Option-cases, inl, inr,
}
use foc_app.Credit.Types.{
  TransactionType, ReservationRejection, ReservationInput, ReservationOutcome,
  max_reservation_amount, insufficient_credits, amount_out_of_range,
}
use foc_app.Credit.Db.{
  Wallet, Transaction, LedgerEntry, Operation, OperationType, OperationOutcome, Account, Direction,
  Db, ok, pending, succeeded, operation_clash, find_wallet, put_wallet, clashes,
}
use foc_app.Credit.Repository.Reserve.{
  reserve, decide_claimed, when_claimed, refuse, replay_or_reject,
}

-- The operation row of a reservation.
abbrev pub reservation : ReservationInput → OperationOutcome → Option ℕ → Operation
reservation input outcome available = record {
  order_id = input.order_id;
  operation_type = OperationType.reserve;
  requester_id = input.requester_id;
  courier_id = none;
  amount = input.amount;
  outcome = outcome;
  available_at_decision = available;
  result_payload = none;
}

abbrev pub reserve_transaction : ReservationInput → ℕ → Transaction
reserve_transaction input uuid = record {
  transaction_id = uuid;
  order_id = some input.order_id;
  transaction_type = TransactionType.reserve;
  wallet_user_id = input.requester_id;
  amount = input.amount;
}

abbrev pub wallet_entry : ℕ → ℕ → ℕ → Account → Direction → ℕ → Wallet → LedgerEntry
wallet_entry uuid n user account direction amount w = record {
  transaction_id = uuid;
  entry_no = n;
  wallet_user_id = some user;
  account = account;
  direction = direction;
  amount = amount;
  resulting_available = some w.available;
  resulting_reserved = some w.reserved;
}

-- A fresh reservation: credits moved from available to reserved, with the transaction, its entries
-- and the recorded outcome.
pub record Booked (input : ReservationInput) (uuid : ℕ) (db db' : Db) : Type 0 where
  pub wallet : Wallet
  pub found : find_wallet input.requester_id db.wallets ≡ some wallet
  pub covered : input.amount ≤ wallet.available
  pub positive : 0 < input.amount
  pub bounded : input.amount ≤ max_reservation_amount
  pub new_order : any (operation_clash (reservation input pending none)) db.operations ≡ false
  pub new_row : any (clashes (reserve_transaction input uuid)) db.transactions ≡ false
  pub wallets :
      db'.wallets
      ≡ put_wallet
          (record wallet {
            available = wallet.available - input.amount;
            reserved = wallet.reserved + input.amount;
          })
          db.wallets
  pub transactions : db'.transactions ≡ reserve_transaction input uuid ∷ db.transactions
  pub after : Wallet
  pub entries :
      db'.entries
      ≡ wallet_entry uuid 2 input.requester_id Account.reserved Direction.credit input.amount after
        ∷ wallet_entry uuid 1 input.requester_id Account.available Direction.debit input.amount
            after
        ∷ db.entries
  pub operations : db'.operations ≡ reservation input (succeeded uuid) none ∷ db.operations

-- A fresh reservation that was refused: only its outcome is recorded.
pub record Refused (input : ReservationInput) (db db' : Db) : Type 0 where
  pub new_order : any (operation_clash (reservation input pending none)) db.operations ≡ false
  pub reason : ReservationRejection
  pub available : Option ℕ
  pub wallets : db'.wallets ≡ db.wallets
  pub transactions : db'.transactions ≡ db.transactions
  pub entries : db'.entries ≡ db.entries
  pub operations :
      db'.operations
      ≡ reservation input (OperationOutcome.rejected reason) available ∷ db.operations

-- Nothing but alerts and replies was written.
pub record SameBooks (db db' : Db) : Type 0 where
  pub wallets : db'.wallets ≡ db.wallets
  pub transactions : db'.transactions ≡ db.transactions
  pub entries : db'.entries ≡ db.entries
  pub operations : db'.operations ≡ db.operations

abbrev pub ReserveEffect : ReservationInput → ℕ → Db → Db → Type 0
ReserveEffect input uuid db db' =
    Booked input uuid db db' ⊎ (Refused input db db' ⊎ SameBooks db db')

-- The tables once the order is claimed.
abbrev pub claimed : ReservationInput → Db → Db
claimed input db = record db { operations = reservation input pending none ∷ db.operations }

module _ (input : ReservationInput) (uuid : ℕ) (db : Db) {out : ReservationOutcome} {db' : Db} where
  replay_or_reject-SameBooks : replay_or_reject input db ≡ ok (out, db') → SameBooks db db'
  unfolding replay_or_reject
  replay_or_reject-SameBooks h = ground arith

  module _ (new : any (operation_clash (reservation input pending none)) db.operations ≡ false)
      (positive : 0 < input.amount) where
    refuse-Refused :
        (reason : ReservationRejection) (available : Option ℕ)
        → refuse input reason available (claimed input db) ≡ ok (out, db')
        → Refused input db db'
    unfolding refuse
    refuse-Refused reason available h = record {
      new_order = new;
      reason = reason;
      available = available;
      wallets = ground arith;
      transactions = ground arith;
      entries = ground arith;
      operations = ground arith;
    }

    module _ (w : Wallet) (found : find_wallet input.requester_id db.wallets ≡ some w)
        (h : decide_claimed input uuid (claimed input db) ≡ ok (out, db')) where
      decide_claimed-Refused : leb input.amount w.available ≡ false → Refused input db db'
      unfolding decide_claimed
      decide_claimed-Refused short =
          refuse-Refused insufficient_credits (some w.available) (unfold refuse in ground arith)

      decide_claimed-Booked :
          leb input.amount w.available ≡ true
          → input.amount ≤ max_reservation_amount
          → Booked input uuid db db'
      unfolding decide_claimed
      decide_claimed-Booked enough small = record {
        wallet = w;
        found = found;
        covered = ground arith;
        positive = positive;
        bounded = small;
        new_order = new;
        new_row = ground arith;
        wallets = ground arith;
        transactions = ground arith;
        after = record w {
          available = w.available - input.amount;
          reserved = w.reserved + input.amount;
        };
        entries = ground arith;
        operations = ground arith;
      }

    decide_claimed-ReserveEffect :
        decide_claimed input uuid (claimed input db) ≡ ok (out, db')
        → input.amount ≤ max_reservation_amount
        → ReserveEffect input uuid db db'
    decide_claimed-ReserveEffect h small =
        elim (Option-cases (find_wallet input.requester_id db.wallets)) [
          | inl missing ↦ absurd (unfold decide_claimed in ground arith)
          | inr (w, found) ↦ elim (Bool-cases (leb input.amount w.available)) [
            | inl enough ↦ inl (decide_claimed-Booked w found h enough small)
            | inr short ↦ inr (inl (decide_claimed-Refused w found h short))
          ]
        ]

    when_claimed-ReserveEffect :
        when_claimed input uuid true (claimed input db) ≡ ok (out, db')
        → ReserveEffect input uuid db db'
    when_claimed-ReserveEffect h = elim (Bool-cases (ltb max_reservation_amount input.amount)) [
      | inl large ↦ inr (inl (refuse-Refused amount_out_of_range none (ground (arith, h, large))))
      | inr small ↦ decide_claimed-ReserveEffect (ground (arith, h, small)) (ground arith)
    ]

  -- Whatever `reserve` answers, it booked, refused or repeated.
  pub reserve-ReserveEffect :
      reserve input uuid db ≡ ok (out, db') → ReserveEffect input uuid db db'
  unfolding reserve
  reserve-ReserveEffect h =
      elim (Bool-cases (any (operation_clash (reservation input pending none)) db.operations)) [
        | inl old ↦ inr (inr (replay_or_reject-SameBooks (ground arith)))
        | inr new ↦ when_claimed-ReserveEffect new (ground arith) (ground arith)
      ]
