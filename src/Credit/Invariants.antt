-- ===== src/Credit/Invariants.antt =====
-- credit-service/src/credits/invariants.ts and ledger-audit.service.ts: the checks of the closed economy
-- that the ledger audit runs, as lists of violations. Rows come in the tables' order, and a violation
-- is the data of the message.
use foc_app.Common.{
  ℕ, ◌+◌, Bool, ◌&&◌, Option, none, some, List, [], ◌∷◌, ◌++◌, any, ltb, ◌==◌, if◌then◌else◌,
}
use foc_app.Credit.Db.{Wallet, Transaction, LedgerEntry, Account, Direction, Db}
use foc_app.Credit.Measures.{
  held, issued, open_reserved, count_reserves, count_terminals, moved, posted,
}

pub data Violation : Type 0 where
  ledger_differs : (user_id : ℕ) → Violation
  unbalanced : (transaction_id : ℕ) → Violation
  not_conserved : (held issued : ℕ) → Violation
  reserved_often : (order_id reserves : ℕ) → Violation
  settled_often : (order_id terminals : ℕ) → Violation
  settled_unreserved : (order_id : ℕ) → Violation
  unbacked : (user_id reserved open_reservations : ℕ) → Violation

abbrev pub flag_wallets : (Wallet → Bool) → (Wallet → Violation) → List Wallet → List Violation
flag_wallets ok v [] = []
flag_wallets ok v (w ∷ ws) = if ok w then flag_wallets ok v ws else v w ∷ flag_wallets ok v ws

-- Whether both stored balances are the sums of the wallet's ledger movements.
abbrev pub agrees : List LedgerEntry → Wallet → Bool
agrees es w =
    (w.available + moved w.user_id Account.available Direction.debit es
      == moved w.user_id Account.available Direction.credit es)
    && (w.reserved + moved w.user_id Account.reserved Direction.debit es
        == moved w.user_id Account.reserved Direction.credit es)

-- `walletLedgerViolations`
unfoldable pub wallet_ledger_violations : Db → List Violation
wallet_ledger_violations db =
    flag_wallets (agrees db.entries) (λ w. ledger_differs w.user_id) db.wallets

-- `GROUP BY`: each value once.
abbrev pub distinct : List ℕ → List ℕ
distinct [] = []
distinct (n ∷ ns) = if any (λ m. m == n) ns then distinct ns else n ∷ distinct ns

abbrev pub transaction_ids : List LedgerEntry → List ℕ
transaction_ids [] = []
transaction_ids (e ∷ es) = e.transaction_id ∷ transaction_ids es

abbrev pub flag_unbalanced : List LedgerEntry → List ℕ → List Violation
flag_unbalanced es [] = []
flag_unbalanced es (id ∷ ids) =
    if posted id Direction.debit es == posted id Direction.credit es
    then flag_unbalanced es ids
    else unbalanced id ∷ flag_unbalanced es ids

-- `unbalancedTransactionViolations`
unfoldable pub unbalanced_transaction_violations : Db → List Violation
unbalanced_transaction_violations db =
    flag_unbalanced db.entries (distinct (transaction_ids db.entries))

-- `conservationViolations`
unfoldable pub conservation_violations : Db → List Violation
conservation_violations db =
    if held db.wallets == issued db.transactions
    then []
    else not_conserved (held db.wallets) (issued db.transactions) ∷ []

abbrev with_order : Option ℕ → List ℕ → List ℕ
with_order none ks = ks
with_order (some k) ks = k ∷ ks

abbrev pub order_ids : List Transaction → List ℕ
order_ids [] = []
order_ids (t ∷ ts) = with_order t.order_id (order_ids ts)

-- The body of the loop over the orders.
abbrev pub outcome_violations : ℕ → (reserves terminals : ℕ) → List Violation
outcome_violations k reserves terminals =
    (if ltb 1 reserves then reserved_often k reserves ∷ [] else [])
    ++ ((if ltb 1 terminals then settled_often k terminals ∷ [] else [])
        ++ (if ltb 0 terminals && (reserves == 0) then settled_unreserved k ∷ [] else []))

abbrev pub flag_orders : List Transaction → List ℕ → List Violation
flag_orders ts [] = []
flag_orders ts (k ∷ ks) =
    outcome_violations k (count_reserves k ts) (count_terminals k ts) ++ flag_orders ts ks

-- `orderOutcomeViolations`
unfoldable pub order_outcome_violations : Db → List Violation
order_outcome_violations db = flag_orders db.transactions (distinct (order_ids db.transactions))

-- `reservedBackingViolations`
unfoldable pub reserved_backing_violations : Db → List Violation
reserved_backing_violations db =
    flag_wallets (λ w. w.reserved == open_reserved w.user_id db.transactions db.transactions)
      (λ w. unbacked w.user_id w.reserved (open_reserved w.user_id db.transactions db.transactions))
      db.wallets

-- `creditEconomyViolations`. The check for negative or fractional balances finds nothing here: balances
-- are natural numbers.
unfoldable pub credit_economy_violations : Db → List Violation
credit_economy_violations db =
    unbalanced_transaction_violations db
    ++ (conservation_violations db
        ++ (order_outcome_violations db ++ reserved_backing_violations db))

-- The checks of `LedgerAuditService.run`: those and the wallets' ledgers.
unfoldable pub ledger_audit : Db → List Violation
ledger_audit db = credit_economy_violations db ++ wallet_ledger_violations db
