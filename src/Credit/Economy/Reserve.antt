-- ===== src/Credit/Economy/Reserve.antt =====
-- credit-service/src/credits/credit.repository.ts: `reserve` keeps the economy closed.
use foc_app.Common.{ℕ, ◌+◌, ◌-◌, ◌≡◌, ◌==◌, if◌then◌else◌, refl, false, none, some, arith, inl, inr}
use foc_app.Credit.Types.{ReservationInput, ReservationOutcome}
use foc_app.Credit.Db.{Wallet, Db, ok, pending, find_wallet}
use foc_app.Credit.Repository.Reserve.{reserve}
use foc_app.Credit.Repository.Effects.Reserve.{
  Booked, Refused, SameBooks, reservation, reserve_transaction, reserve-ReserveEffect,
}
use foc_app.Credit.Economy.Invariant.{Economy}
use foc_app.Credit.Economy.Lists.{
  find_wallet-id, find_wallet-put_wallet, held-put_wallet, put_wallet-IsUnique, open_reserved-keep,
  reservation_of_clash, unsettled_of_count,
}
use foc_app.Credit.Measures.{reservation_of, settled}

-- Equal books are as closed.
pub SameBooks-Economy : (db db' : Db) → SameBooks db db' → Economy db → Economy db'
SameBooks-Economy db db' same inv = record {
  unique = rw same.wallets inv.unique;
  conserved = ground (arith, same.wallets, same.transactions, inv.conserved);
  backed = λ u. ground (arith, same.wallets, same.transactions, inv.backed u);
  available_ledger = λ u. ground (arith, same.wallets, same.entries, inv.available_ledger u);
  reserved_ledger = λ u. ground (arith, same.wallets, same.entries, inv.reserved_ledger u);
  balanced = λ id. ground (arith, same.entries, inv.balanced id);
  reserves = λ k. ground (arith, same.transactions, same.operations, inv.reserves k);
  terminals = λ k. ground (arith, same.transactions, same.operations, inv.terminals k);
  amounts = λ u k. ground (arith, same.transactions, same.operations, inv.amounts u k);
  after = λ k. ground (arith, same.operations, inv.after k);
}

module _ (input : ReservationInput) (db db' : Db) where
  Refused-Economy : Refused input db db' → Economy db → Economy db'
  Refused-Economy eff inv = record {
    unique = rw eff.wallets inv.unique;
    conserved = ground (arith, eff.wallets, eff.transactions, inv.conserved);
    backed = λ u. ground (arith, eff.wallets, eff.transactions, inv.backed u);
    available_ledger = λ u. ground (arith, eff.wallets, eff.entries, inv.available_ledger u);
    reserved_ledger = λ u. ground (arith, eff.wallets, eff.entries, inv.reserved_ledger u);
    balanced = λ id. ground (arith, eff.entries, inv.balanced id);
    reserves = λ k. ground (
      arith,
      eff.transactions,
      eff.operations,
      inv.reserves k,
      reservation_of_clash (reservation input pending none) db.operations eff.new_order refl,
    );
    terminals = λ k. ground (arith, eff.transactions, eff.operations, inv.terminals k);
    amounts = λ u k. ground (
      arith,
      eff.transactions,
      eff.operations,
      inv.amounts u k,
      reservation_of_clash (reservation input pending none) db.operations eff.new_order refl,
    );
    after = λ k. ground (
      arith,
      eff.operations,
      inv.after k,
      reservation_of_clash (reservation input pending none) db.operations eff.new_order refl,
    );
  }

  module _ (uuid : ℕ) (eff : Booked input uuid db db') (inv : Economy db) where
    -- The row that the update writes.
    abbrev next : Wallet
    next = record eff.wallet {
      available = eff.wallet.available - input.amount;
      reserved = eff.wallet.reserved + input.amount;
    }

    user_id-wallet : eff.wallet.user_id ≡ input.requester_id
    user_id-wallet = find_wallet-id input.requester_id db.wallets eff.found

    find_wallet-booked :
        (u : ℕ)
        → find_wallet u db'.wallets
          ≡ (if u == input.requester_id then some next else find_wallet u db.wallets)
    find_wallet-booked u =
        rw eff.wallets
          (find_wallet-put_wallet input.requester_id eff.wallet next db.wallets u eff.found refl)

    no_reservation : reservation_of input.order_id db.operations ≡ none
    no_reservation =
        reservation_of_clash (reservation input pending none) db.operations eff.new_order refl

    unsettled : settled (some input.order_id) db.transactions ≡ false
    unsettled =
        unsettled_of_count input.order_id db.transactions
          (ground (arith, no_reservation, inv.after input.order_id, inv.terminals input.order_id))

    Booked-Economy : Economy db'
    Booked-Economy = record {
      unique = rw eff.wallets (
          put_wallet-IsUnique input.requester_id eff.wallet next db.wallets eff.found refl
            inv.unique);
      conserved = ground (
        arith,
        eff.wallets,
        eff.transactions,
        eff.covered,
        inv.conserved,
        held-put_wallet input.requester_id eff.wallet next db.wallets eff.found refl,
      );
      backed = λ u. ground (
        arith,
        eff.transactions,
        eff.found,
        unsettled,
        inv.backed u,
        find_wallet-booked u,
        open_reserved-keep u (reserve_transaction input uuid) db.transactions db.transactions refl,
      );
      available_ledger = λ u. ground (
        arith,
        eff.entries,
        eff.found,
        eff.covered,
        inv.available_ledger u,
        find_wallet-booked u,
      );
      reserved_ledger =
          λ u. ground (arith, eff.entries, eff.found, inv.reserved_ledger u, find_wallet-booked u);
      balanced = λ id. ground (arith, eff.entries, inv.balanced id);
      reserves =
          λ k. ground (arith, eff.transactions, eff.operations, inv.reserves k, no_reservation);
      terminals = λ k. ground (arith, eff.transactions, eff.operations, inv.terminals k);
      amounts =
          λ u k. ground (arith, eff.transactions, eff.operations, inv.amounts u k, no_reservation);
      after = λ k. ground (arith, eff.operations, inv.after k, no_reservation);
    }

  -- `reserve` keeps the economy closed, whatever it answers.
  pub reserve-Economy :
      (uuid : ℕ) {out : ReservationOutcome}
      → reserve input uuid db ≡ ok (out, db')
      → Economy db
      → Economy db'
  reserve-Economy uuid h inv = elim (reserve-ReserveEffect input uuid db h) [
    | inl eff ↦ Booked-Economy uuid eff inv
    | inr (inl eff) ↦ Refused-Economy eff inv
    | inr (inr same) ↦ SameBooks-Economy db db' same inv
  ]
