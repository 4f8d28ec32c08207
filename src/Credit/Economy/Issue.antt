-- ===== src/Credit/Economy/Issue.antt =====
-- credit-service/src/credits/credit.repository.ts: `issueInitial` keeps the economy closed.
use foc_app.Common.{ℕ, Bool, ◌≡◌, ◌==◌, if◌then◌else◌, refl, some, arith, inl, inr}
use foc_app.Credit.Db.{Db, ok, find_wallet}
use foc_app.Credit.Repository.Issue.{issue_initial}
use foc_app.Credit.Repository.Effects.Issue.{
  Funded, opened, issue_transaction, issue_initial-IssueEffect,
}
use foc_app.Credit.Economy.Invariant.{Economy}
use foc_app.Credit.Economy.Lists.{open_reserved-keep}

module _ (allocation uuid user : ℕ) (db : Db) where
  module _ (db' : Db) (eff : Funded allocation uuid user db db') (inv : Economy db) where
    find_wallet-opened :
        (u : ℕ)
        → find_wallet u db'.wallets
          ≡ (if user == u then some (opened allocation user) else find_wallet u db.wallets)
    find_wallet-opened u = rw eff.wallets refl

    Funded-Economy : Economy db'
    Funded-Economy = record {
      unique = rw eff.wallets (eff.unknown, inv.unique);
      conserved = ground (arith, eff.wallets, eff.transactions, inv.conserved);
      backed = λ u. ground (
        arith,
        eff.transactions,
        eff.unknown,
        inv.backed u,
        find_wallet-opened u,
        open_reserved-keep u (issue_transaction allocation uuid user) db.transactions
            db.transactions refl,
      );
      available_ledger = λ u.
          ground (arith, eff.entries, eff.unknown, inv.available_ledger u, find_wallet-opened u);
      reserved_ledger = λ u.
          ground (arith, eff.entries, eff.unknown, inv.reserved_ledger u, find_wallet-opened u);
      balanced = λ id. ground (arith, eff.entries, inv.balanced id);
      reserves = λ k. ground (arith, eff.transactions, eff.operations, inv.reserves k);
      terminals = λ k. ground (arith, eff.transactions, eff.operations, inv.terminals k);
      amounts = λ u k. ground (arith, eff.transactions, eff.operations, inv.amounts u k);
      after = λ k. ground (arith, eff.operations, inv.after k);
    }

  -- `issueInitial` keeps the economy closed, whatever it answers.
  pub issue_initial-Economy :
      {first : Bool} {db' : Db}
      → issue_initial allocation uuid user db ≡ ok (first, db')
      → Economy db
      → Economy db'
  issue_initial-Economy h inv = elim (issue_initial-IssueEffect allocation uuid user db h) [
    | inl eff ↦ Funded-Economy _ eff inv
    | inr same ↦ rw same inv
  ]
