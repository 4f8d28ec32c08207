-- ===== src/Credit/Economy/Transfer.antt =====
-- credit-service/src/credits/credit.repository.ts: `transfer` keeps the economy closed.
use foc_app.Common.{ℕ, ◌≡◌, ◌==◌, if◌then◌else◌, refl, false, none, some, List, arith, inl, inr}
use foc_app.Credit.Types.{TransferInput, TransferOutcome}
use foc_app.Credit.Db.{Wallet, Db, ok, pending, find_wallet, put_wallet}
use foc_app.Credit.Measures.{reserved_for, settlement_of, settled}
use foc_app.Credit.Repository.Transfer.{transfer}
use foc_app.Credit.Repository.Effects.Transfer.{
  Transferred, payment, charged, credited, transfer_transaction, transfer-TransferEffect,
}
use foc_app.Credit.Economy.Invariant.{IsUnique, Economy}
use foc_app.Credit.Economy.Lists.{
  find_wallet-put_wallet, held-put_wallet, put_wallet-IsUnique, open_reserved-settle,
  settlement_of_clash, unsettled_of_count,
}
use foc_app.Credit.Economy.Reserve.{SameBooks-Economy}

module _ (input : TransferInput) (uuid : ℕ) (db db' : Db) where
  module _ (eff : Transferred input uuid db db') (inv : Economy db) where
    abbrev after_charge : List Wallet
    after_charge = put_wallet (charged input eff.change.requester) db.wallets

    find_wallet-charged :
        (u : ℕ)
        → find_wallet u after_charge ≡ (
            if u == input.requester_id
            then some (charged input eff.change.requester)
            else find_wallet u db.wallets)
    find_wallet-charged u =
        find_wallet-put_wallet input.requester_id eff.change.requester
          (charged input eff.change.requester) db.wallets u eff.change.found refl

    find_wallet-payee : find_wallet input.courier_id db.wallets ≡ some eff.change.courier
    find_wallet-payee =
        ground (arith, eff.change.payee, eff.participants, find_wallet-charged input.courier_id)

    find_wallet-paid :
        (u : ℕ)
        → find_wallet u db'.wallets ≡ (
            if u == input.courier_id
            then some (credited input eff.change.courier)
            else find_wallet u after_charge)
    find_wallet-paid u = rw eff.change.wallets (
        find_wallet-put_wallet input.courier_id eff.change.courier
          (credited input eff.change.courier) after_charge u eff.change.payee refl)

    charged-IsUnique : IsUnique after_charge
    charged-IsUnique =
        put_wallet-IsUnique input.requester_id eff.change.requester
          (charged input eff.change.requester) db.wallets eff.change.found refl inv.unique

    no_settlement : settlement_of input.order_id db.operations ≡ none
    no_settlement =
        settlement_of_clash (payment input pending none) db.operations eff.change.new_settlement
          refl

    unsettled : settled (some input.order_id) db.transactions ≡ false
    unsettled =
        unsettled_of_count input.order_id db.transactions
          (ground (arith, no_settlement, inv.terminals input.order_id))

    reserved_for-transfer :
        (u : ℕ)
        → reserved_for u input.order_id db.transactions
          ≡ (if u == input.requester_id then input.amount else 0)
    reserved_for-transfer u = ground (
      arith,
      inv.amounts u input.order_id,
      eff.reservation.found,
      eff.reservation.active,
      eff.reservation.requester,
      eff.reservation.amount,
    )

    Transferred-Economy : Economy db'
    Transferred-Economy = record {
      unique = rw eff.change.wallets (
          put_wallet-IsUnique input.courier_id eff.change.courier
            (credited input eff.change.courier) after_charge eff.change.payee refl
            charged-IsUnique);
      conserved = ground (
        arith,
        eff.change.wallets,
        eff.change.transactions,
        eff.change.covered,
        inv.conserved,
        held-put_wallet input.requester_id eff.change.requester (charged input eff.change.requester)
            db.wallets eff.change.found refl,
        held-put_wallet input.courier_id eff.change.courier (credited input eff.change.courier)
            after_charge eff.change.payee refl,
      );
      backed = λ u. ground (
        arith,
        eff.change.transactions,
        eff.change.found,
        find_wallet-payee,
        eff.change.covered,
        eff.participants,
        inv.backed u,
        find_wallet-paid u,
        find_wallet-charged u,
        reserved_for-transfer u,
        open_reserved-settle u input.order_id (transfer_transaction input uuid) db.transactions
            db.transactions refl refl unsettled,
      );
      available_ledger = λ u. ground (
        arith,
        eff.change.entries,
        eff.change.found,
        find_wallet-payee,
        eff.participants,
        inv.available_ledger u,
        find_wallet-paid u,
        find_wallet-charged u,
      );
      reserved_ledger = λ u. ground (
        arith,
        eff.change.entries,
        eff.change.found,
        find_wallet-payee,
        eff.participants,
        eff.change.covered,
        inv.reserved_ledger u,
        find_wallet-paid u,
        find_wallet-charged u,
      );
      balanced = λ id. ground (arith, eff.change.entries, inv.balanced id);
      reserves =
          λ k. ground (arith, eff.change.transactions, eff.change.operations, inv.reserves k);
      terminals = λ k.
          ground
            (arith, eff.change.transactions, eff.change.operations, inv.terminals k, no_settlement);
      amounts =
          λ u k. ground (arith, eff.change.transactions, eff.change.operations, inv.amounts u k);
      after = λ k. ground (
        arith,
        eff.change.operations,
        inv.after k,
        eff.reservation.found,
        eff.reservation.active,
      );
    }

  -- `transfer` keeps the economy closed, whatever it answers.
  pub transfer-Economy :
      {out : TransferOutcome} → transfer input uuid db ≡ ok (out, db') → Economy db → Economy db'
  transfer-Economy h inv = elim (transfer-TransferEffect input uuid db h) [
    | inl eff ↦ Transferred-Economy eff inv
    | inr same ↦ SameBooks-Economy db db' same inv
  ]
