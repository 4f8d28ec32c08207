-- ===== src/Credit/Db/Statements.antt =====
-- credit-service/src/credits/credit.repository.ts: its SQL statements, on the tables of
-- credit-service/src/db/schema.ts.
use foc_app.Common.{
  ℕ, Bool, true, false, ◌&&◌, ◌||◌, Option, none, some, List, [], ◌∷◌, any, leb, ltb, is_some, ◌==◌,
  if◌then◌else◌,
}
use foc_app.Credit.Types.{TransactionType}
use foc_app.Credit.Db.Tables.{
  Wallet, Transaction, LedgerEntry, OperationType, Operation, Alert, OutboxEvent, ok, err, Tx,
  unique_violation, check_violation, foreign_key_violation, out_of_range,
}

-- The largest value of a PostgreSQL `integer`.
abbrev pub max_integer : ℕ
max_integer = 2147483647

-- The CHECK `amount > 0` on an `integer` column.
abbrev pub valid_amount : ℕ → Bool
valid_amount n = ltb 0 n && leb n max_integer

abbrev pub find_wallet : ℕ → List Wallet → Option Wallet
find_wallet u [] = none
find_wallet u (w ∷ ws) = if w.user_id == u then some w else find_wallet u ws

abbrev pub has_wallet : ℕ → List Wallet → Bool
has_wallet u ws = is_some (find_wallet u ws)

abbrev insert_absent : Wallet → (stored : Option Wallet) → (fits : Bool) → Tx Bool
insert_absent w stored false db = err out_of_range
insert_absent w (some v) true db = ok (false, db)
insert_absent w none true db = ok (true, record db { wallets = w ∷ db.wallets })

-- `INSERT INTO wallets … ON CONFLICT DO NOTHING RETURNING`: whether a row was inserted.
unfoldable pub insert_wallet : (user allocation : ℕ) → Tx Bool
insert_wallet u n db =
    insert_absent (record { user_id = u; available = n; reserved = 0 }) (find_wallet u db.wallets)
      (leb n max_integer) db

abbrev pub put_wallet : Wallet → List Wallet → List Wallet
put_wallet new [] = []
put_wallet new (w ∷ ws) = if w.user_id == new.user_id then new ∷ ws else w ∷ put_wallet new ws

abbrev pub in_range : Wallet → Bool
in_range w = leb w.available max_integer && leb w.reserved max_integer

-- `UPDATE wallets SET … WHERE user_id = $1 AND … RETURNING`. The key is unique, so at most one row
-- changes; a column past the range of `integer` raises.
abbrev pub update_found : (Wallet → Bool) → (Wallet → Wallet) → Option Wallet → Tx (Option Wallet)
update_found test f none db = ok (none, db)
update_found test f (some w) db =
    if test w
    then (if in_range (f w)
        then ok (some (f w), record db { wallets = put_wallet (f w) db.wallets })
        else err out_of_range)
    else ok (none, db)

unfoldable pub update_wallet : ℕ → (Wallet → Bool) → (Wallet → Wallet) → Tx (Option Wallet)
update_wallet u test f db = update_found test f (find_wallet u db.wallets) db

abbrev pub type_index : TransactionType → ℕ
type_index TransactionType.issue = 0
type_index TransactionType.reserve = 1
type_index TransactionType.release = 2
type_index TransactionType.transfer = 3

abbrev pub is_terminal_type : TransactionType → Bool
is_terminal_type TransactionType.release = true
is_terminal_type TransactionType.transfer = true
is_terminal_type _ = false

abbrev pub is_of : ℕ → Option ℕ → Bool
is_of k none = false
is_of k (some j) = j == k

abbrev same_order : Option ℕ → Option ℕ → Bool
same_order none o = false
same_order (some k) o = is_of k o

-- The primary key and the three partial unique indexes of `credit_transactions`.
unfoldable pub clashes : Transaction → Transaction → Bool
clashes t r =
    (r.transaction_id == t.transaction_id)
    || ((same_order t.order_id r.order_id
          && ((type_index t.transaction_type == type_index r.transaction_type)
              || (is_terminal_type t.transaction_type && is_terminal_type r.transaction_type)))
        || ((type_index t.transaction_type == 0)
            && ((type_index r.transaction_type == 0) && (r.wallet_user_id == t.wallet_user_id))))

unfoldable pub insert_transaction : Transaction → Tx (Unit {0})
unfolding clashes
insert_transaction t db =
    if valid_amount t.amount
    then (if any (clashes t) db.transactions
        then err unique_violation
        else if has_wallet t.wallet_user_id db.wallets
        then ok (tt, record db { transactions = t ∷ db.transactions })
        else err foreign_key_violation)
    else err check_violation

abbrev wallet_known : Option ℕ → List Wallet → Bool
wallet_known none ws = true
wallet_known (some u) ws = has_wallet u ws

-- One row of `INSERT INTO ledger_entries`.
unfoldable pub insert_entry : LedgerEntry → Tx (Unit {0})
insert_entry e db =
    if valid_amount e.amount
    then (if any (λ r. (r.transaction_id == e.transaction_id) && (r.entry_no == e.entry_no))
          db.entries
        then err unique_violation
        else if any (λ t. t.transaction_id == e.transaction_id) db.transactions
            && wallet_known e.wallet_user_id db.wallets
        then ok (tt, record db { entries = e ∷ db.entries })
        else err foreign_key_violation)
    else err check_violation

abbrev pub operation_index : OperationType → ℕ
operation_index OperationType.reserve = 0
operation_index OperationType.release = 1
operation_index OperationType.transfer = 2

abbrev pub is_terminal_operation : OperationType → Bool
is_terminal_operation OperationType.reserve = false
is_terminal_operation _ = true

-- `WHERE order_id = $1 AND operation_type = $2`
abbrev pub is_operation : ℕ → OperationType → Operation → Bool
is_operation k t o = (o.order_id == k) && (operation_index o.operation_type == operation_index t)

-- `WHERE order_id = $1 AND operation_type IN ('RELEASE', 'TRANSFER')`
abbrev pub is_terminal_of : ℕ → Operation → Bool
is_terminal_of k o = (o.order_id == k) && is_terminal_operation o.operation_type

-- The primary key of `credit_operations` and its index on terminal operations.
abbrev pub operation_clash : Operation → Operation → Bool
operation_clash o r =
    is_operation o.order_id o.operation_type r
    || (is_terminal_operation o.operation_type && is_terminal_of o.order_id r)

-- `INSERT INTO credit_operations … ON CONFLICT DO NOTHING RETURNING`
unfoldable pub claim_operation : Operation → Tx Bool
claim_operation o db =
    if valid_amount o.amount
    then (if any (operation_clash o) db.operations
        then ok (false, db)
        else if wallet_known o.courier_id db.wallets
        then ok (true, record db { operations = o ∷ db.operations })
        else err foreign_key_violation)
    else err check_violation

-- The same without the clause: a conflict raises.
abbrev must_insert : Bool → Tx (Unit {0})
must_insert true db = ok (tt, db)
must_insert false db = err unique_violation

unfoldable pub insert_operation : Operation → Tx (Unit {0})
unfolding claim_operation
insert_operation o db = elim (claim_operation o db) [
  | ok (fresh, db') ↦ must_insert fresh db'
  | err e ↦ err e
]

abbrev pub put_operation :
    (Operation → Bool) → (Operation → Operation) → List Operation → List Operation
put_operation p f [] = []
put_operation p f (o ∷ os) = if p o then f o ∷ os else o ∷ put_operation p f os

-- `UPDATE credit_operations SET … WHERE …` on a key, which at most one row has.
unfoldable pub update_operation : (Operation → Bool) → (Operation → Operation) → Tx (Unit {0})
update_operation p f db = ok (tt, record db { operations = put_operation p f db.operations })

unfoldable pub insert_alert : Alert → Tx (Unit {0})
insert_alert a db = ok (tt, record db { alerts = a ∷ db.alerts })

-- `insertOutboxEvent`
unfoldable pub insert_event : OutboxEvent → Tx (Unit {0})
insert_event e db = ok (tt, record db { outbox = e ∷ db.outbox })
