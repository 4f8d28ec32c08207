-- ===== src/Credit/Examples/Pages.antt =====
-- credit-service/src/credits/wallets.service.ts: a ledger of three rows in pages of one.
use foc_app.Common.{ℕ, ◌+◌, ◌*◌, ◌≡◌, Option, none, some, List, [], ◌∷◌, refl, arith}
use foc_app.Credit.Types.{issue}
use foc_app.Credit.Db.{Db, Transaction, LedgerEntry, Account, credit}
use foc_app.Credit.Wallets.{ActivityRow, Cursor, CursorCode, activity, newest_first, ledger, follow}
use foc_app.Credit.Wallets.Pages.{follow-newest_first}

abbrev read_cursor : List ℕ → Option Cursor
read_cursor [] = none
read_cursor (a ∷ []) = none
read_cursor (a ∷ b ∷ []) = some (record { occurred_at_ms = a; transaction_id = b })
read_cursor (a ∷ b ∷ c ∷ rest) = none

abbrev code : CursorCode
code = record { encode = λ c. c.occurred_at_ms ∷ c.transaction_id ∷ []; parse = read_cursor }

abbrev transaction : ℕ → Transaction
transaction id = record {
  transaction_id = id;
  order_id = none;
  transaction_type = issue;
  wallet_user_id = 1;
  amount = 10;
}

abbrev entry : ℕ → LedgerEntry
entry id = record {
  transaction_id = id;
  entry_no = 1;
  wallet_user_id = some 1;
  account = Account.available;
  direction = credit;
  amount = 10;
  resulting_available = some 10;
  resulting_reserved = some 0;
}

abbrev db : Db
db = record {
  wallets = record { user_id = 1; available = 30; reserved = 0 } ∷ [];
  transactions = transaction 4 ∷ transaction 5 ∷ transaction 6 ∷ [];
  entries = entry 4 ∷ entry 5 ∷ entry 6 ∷ [];
  operations = [];
  alerts = [];
  outbox = [];
}

abbrev row : (id time : ℕ) → ActivityRow
row id time = record {
  transaction_id = id;
  transaction_type = issue;
  amount = 10;
  order_id = none;
  occurred_at = time;
  resulting_available = some 10;
  resulting_reserved = some 0;
  credited = 10;
  debited = 0;
}

follow-newest_first_example :
    follow code (λ id. id * 1000) 1 1 4 none db
    ≡ some (newest_first (activity (λ id. id * 1000) 1 db.entries db.transactions))
follow-newest_first_example =
    follow-newest_first code (λ c. refl) (λ id. id * 1000) 1 1 db 4 (omega arith) (omega arith) refl
      (ground arith) (refl, (refl, (refl, tt))) (omega arith)

-- Three transactions within one millisecond: the second page is empty, and two rows are never shown.
rows_lost : follow code (λ id. 7000 + id) 1 1 4 none db ≡ some (row 6 7006 ∷ [])
unfolding follow ledger
rows_lost = refl
