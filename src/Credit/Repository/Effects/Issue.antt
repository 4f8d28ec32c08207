-- ===== src/Credit/Repository/Effects/Issue.antt =====
-- credit-service/src/credits/credit.repository.ts: what `issueInitial`, when it returns, has changed.
use foc_app.Common.{
  ℕ, ◌≡◌, ◌⊎◌, Bool, true, none, ◌∷◌, leb, arith, Bool-cases, Option-cases, inl, inr,
}
use foc_app.Credit.Types.{TransactionType}
use foc_app.Credit.Db.{
  Wallet, Transaction, LedgerEntry, Account, Direction, Db, ok, find_wallet, max_integer,
}
use foc_app.Credit.Db.{insert_wallet}
use foc_app.Credit.Repository.Issue.{issue_initial, issue_new}
use foc_app.Credit.Repository.Effects.Reserve.{wallet_entry}

-- The wallet that an activation opens.
abbrev pub opened : (allocation user : ℕ) → Wallet
opened allocation user = record { user_id = user; available = allocation; reserved = 0 }

abbrev pub issue_transaction : (allocation uuid user : ℕ) → Transaction
issue_transaction allocation uuid user = record {
  transaction_id = uuid;
  order_id = none;
  transaction_type = TransactionType.issue;
  wallet_user_id = user;
  amount = allocation;
}

abbrev pub issuance_entry : (allocation uuid : ℕ) → LedgerEntry
issuance_entry allocation uuid = record {
  transaction_id = uuid;
  entry_no = 1;
  wallet_user_id = none;
  account = Account.platform_issuance;
  direction = Direction.debit;
  amount = allocation;
  resulting_available = none;
  resulting_reserved = none;
}

-- A first activation: a funded wallet, with the transaction and its entries.
pub record Funded (allocation uuid user : ℕ) (db db' : Db) : Type 0 where
  pub unknown : find_wallet user db.wallets ≡ none
  pub wallets : db'.wallets ≡ opened allocation user ∷ db.wallets
  pub transactions : db'.transactions ≡ issue_transaction allocation uuid user ∷ db.transactions
  pub entries :
      db'.entries
      ≡ wallet_entry uuid 2 user Account.available Direction.credit allocation
          (opened allocation user)
        ∷ issuance_entry allocation uuid
        ∷ db.entries
  pub operations : db'.operations ≡ db.operations

-- The tables once the wallet is inserted.
abbrev with_wallet : (allocation user : ℕ) → Db → Db
with_wallet allocation user db = record db { wallets = opened allocation user ∷ db.wallets }

module _ (allocation uuid user : ℕ) (db : Db) {first : Bool} {db' : Db} where
  issue_new-Funded :
      find_wallet user db.wallets ≡ none
      → issue_new allocation uuid user true (with_wallet allocation user db) ≡ ok (first, db')
      → Funded allocation uuid user db db'
  unfolding issue_new
  issue_new-Funded unknown h = record {
    unknown = unknown;
    wallets = ground arith;
    transactions = ground arith;
    entries = ground arith;
    operations = ground arith;
  }

  -- An activation funds a new wallet, or changes nothing.
  pub issue_initial-IssueEffect :
      issue_initial allocation uuid user db ≡ ok (first, db')
      → Funded allocation uuid user db db' ⊎ (db' ≡ db)
  unfolding issue_initial insert_wallet
  issue_initial-IssueEffect h = elim (Bool-cases (leb allocation max_integer)) [
    | inr large ↦ absurd (ground (arith, h, large))
    | inl small ↦ elim (Option-cases (find_wallet user db.wallets)) [
      | inl unknown ↦ inl (issue_new-Funded unknown (ground (arith, h, small, unknown)))
      | inr (w, known) ↦ inr (unfold issue_new in ground (arith, h, small, known))
    ]
  ]
