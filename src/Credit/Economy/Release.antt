-- ===== src/Credit/Economy/Release.antt =====
-- credit-service/src/credits/credit.repository.ts: `release` keeps the economy closed.
use foc_app.Common.{ℕ, ◌≡◌, ◌==◌, if◌then◌else◌, refl, false, none, some, arith, inl, inr}
use foc_app.Credit.Types.{ReleaseInput, ReleaseOutcome}
use foc_app.Credit.Db.{Db, ok, pending, find_wallet}
use foc_app.Credit.Measures.{reserved_for, settlement_of, settled}
use foc_app.Credit.Repository.Release.{release}
use foc_app.Credit.Repository.Effects.Release.{
  Released, settlement, returned, release_transaction, release-ReleaseEffect,
}
use foc_app.Credit.Economy.Invariant.{Economy}
use foc_app.Credit.Economy.Lists.{
  find_wallet-put_wallet, held-put_wallet, put_wallet-IsUnique, open_reserved-settle,
  settlement_of_clash, unsettled_of_count,
}
use foc_app.Credit.Economy.Reserve.{SameBooks-Economy}

module _ (input : ReleaseInput) (uuid : ℕ) (db db' : Db) where
  module _ (eff : Released input uuid db db') (inv : Economy db) where
    find_wallet-returned :
        (u : ℕ)
        → find_wallet u db'.wallets ≡ (
            if u == input.requester_id
            then some (returned input eff.change.wallet)
            else find_wallet u db.wallets)
    find_wallet-returned u = rw eff.change.wallets (
        find_wallet-put_wallet input.requester_id eff.change.wallet
          (returned input eff.change.wallet) db.wallets u eff.change.found refl)

    no_settlement : settlement_of input.order_id db.operations ≡ none
    no_settlement =
        settlement_of_clash (settlement input pending none) db.operations eff.change.new_settlement
          refl

    unsettled : settled (some input.order_id) db.transactions ≡ false
    unsettled =
        unsettled_of_count input.order_id db.transactions
          (ground (arith, no_settlement, inv.terminals input.order_id))

    reserved_for-release :
        (u : ℕ)
        → reserved_for u input.order_id db.transactions
          ≡ (if u == input.requester_id then input.amount else 0)
    reserved_for-release u = ground (
      arith,
      inv.amounts u input.order_id,
      eff.reservation.found,
      eff.reservation.active,
      eff.reservation.requester,
      eff.reservation.amount,
    )

    Released-Economy : Economy db'
    Released-Economy = record {
      unique = rw eff.change.wallets (
          put_wallet-IsUnique input.requester_id eff.change.wallet
            (returned input eff.change.wallet) db.wallets eff.change.found refl inv.unique);
      conserved = ground (
        arith,
        eff.change.wallets,
        eff.change.transactions,
        eff.change.covered,
        inv.conserved,
        held-put_wallet input.requester_id eff.change.wallet (returned input eff.change.wallet)
            db.wallets eff.change.found refl,
      );
      backed = λ u. ground (
        arith,
        eff.change.transactions,
        eff.change.found,
        eff.change.covered,
        unsettled,
        inv.backed u,
        find_wallet-returned u,
        reserved_for-release u,
        open_reserved-settle u input.order_id (release_transaction input uuid) db.transactions
            db.transactions refl refl unsettled,
      );
      available_ledger = λ u. ground (
        arith,
        eff.change.entries,
        eff.change.found,
        inv.available_ledger u,
        find_wallet-returned u,
      );
      reserved_ledger = λ u. ground (
        arith,
        eff.change.entries,
        eff.change.found,
        eff.change.covered,
        inv.reserved_ledger u,
        find_wallet-returned u,
      );
      balanced = λ id. ground (arith, eff.change.entries, inv.balanced id);
      reserves =
          λ k. ground (arith, eff.change.transactions, eff.change.operations, inv.reserves k);
      terminals = λ k.
          ground
            (arith, eff.change.transactions, eff.change.operations, inv.terminals k, no_settlement);
      amounts =
          λ u k. ground (arith, eff.change.transactions, eff.change.operations, inv.amounts u k);
      after = λ k. ground (
        arith,
        eff.change.operations,
        inv.after k,
        eff.reservation.found,
        eff.reservation.active,
      );
    }

  -- `release` keeps the economy closed, whatever it answers.
  pub release-Economy :
      {out : ReleaseOutcome} → release input uuid db ≡ ok (out, db') → Economy db → Economy db'
  release-Economy h inv = elim (release-ReleaseEffect input uuid db h) [
    | inl eff ↦ Released-Economy eff inv
    | inr same ↦ SameBooks-Economy db db' same inv
  ]
