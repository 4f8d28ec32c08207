-- ===== src/Credit/Repository/Issue.antt =====
-- credit-service/src/credits/credit.repository.ts: `issueInitial`.
use foc_app.Common.{ℕ, Bool, true, false, some, none}
use foc_app.Credit.Types.{TransactionType}
use foc_app.Credit.Db.{
  Account, Direction, Tx, ◌>>=◌, ◌>>◌, pure, insert_wallet, insert_transaction, insert_entry,
}

-- Funds a wallet that was just inserted.
unfoldable pub issue_new : (allocation uuid user : ℕ) → Bool → Tx Bool
unfolding insert_transaction insert_entry
issue_new allocation uuid user false = pure false
issue_new allocation uuid user true = do
  insert_transaction (record {
    transaction_id = uuid;
    order_id = none;
    transaction_type = TransactionType.issue;
    wallet_user_id = user;
    amount = allocation;
  })
  insert_entry (record {
    transaction_id = uuid;
    entry_no = 1;
    wallet_user_id = none;
    account = Account.platform_issuance;
    direction = Direction.debit;
    amount = allocation;
    resulting_available = none;
    resulting_reserved = none;
  })
  insert_entry (record {
    transaction_id = uuid;
    entry_no = 2;
    wallet_user_id = some user;
    account = Account.available;
    direction = Direction.credit;
    amount = allocation;
    resulting_available = some allocation;
    resulting_reserved = some 0;
  })
  pure true

-- `issueInitial`: true only for the activation that created and funded the wallet.
unfoldable pub issue_initial : (allocation uuid user : ℕ) → Tx Bool
issue_initial allocation uuid user = do
  inserted ← insert_wallet user allocation
  issue_new allocation uuid user inserted
