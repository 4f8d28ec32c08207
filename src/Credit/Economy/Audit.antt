-- ===== src/Credit/Economy/Audit.antt =====
-- credit-service/src/credits/invariants.ts: the ledger audit finds nothing in a closed economy.
use foc_app.Common.{ℕ, ◌≤◌, ◌≡◌, Bool, true, some, List, [], ◌∷◌, refl, arith}
use foc_app.Credit.Db.{Wallet, Transaction, LedgerEntry, Direction, Db, find_wallet}
use foc_app.Credit.Measures.{count_reserves, count_terminals, posted}
use foc_app.Credit.Invariants.{
  Violation, ledger_differs, flag_wallets, flag_unbalanced, flag_orders, agrees, distinct,
  order_ids, transaction_ids, wallet_ledger_violations, unbalanced_transaction_violations,
  conservation_violations, order_outcome_violations, reserved_backing_violations,
  credit_economy_violations, ledger_audit,
}
use foc_app.Credit.Economy.Invariant.{IsUnique, Economy}
use foc_app.Credit.Economy.Lists.{find_wallet-id}

flag_wallets-none :
    (good : Wallet → Bool) (v : Wallet → Violation) (ws : List Wallet)
    → IsUnique ws
    → ((u : ℕ) (w : Wallet) → find_wallet u ws ≡ some w → good w ≡ true)
    → flag_wallets good v ws ≡ []
flag_wallets-none good v [] unique h = refl
flag_wallets-none good v (x ∷ ws) unique h =
    let first : good x ≡ true = h x.user_id x (ground arith) in
    let rest : flag_wallets good v ws ≡ [] =
      flag_wallets-none good v ws unique.1 (λ u w found. h u w (ground (arith, found, unique.0))) in
    ground (arith, first, rest)

flag_unbalanced-none :
    (es : List LedgerEntry) (ids : List ℕ)
    → ((id : ℕ) → posted id Direction.debit es ≡ posted id Direction.credit es)
    → flag_unbalanced es ids ≡ []
flag_unbalanced-none es [] h = refl
flag_unbalanced-none es (id ∷ ids) h = ground (arith, h id, flag_unbalanced-none es ids h)

flag_orders-none :
    (ts : List Transaction) (ks : List ℕ)
    → ((k : ℕ) → (count_terminals k ts ≤ count_reserves k ts) × (count_reserves k ts ≤ 1))
    → flag_orders ts ks ≡ []
flag_orders-none ts [] h = refl
flag_orders-none ts (k ∷ ks) h = ground (arith, (h k).0, (h k).1, flag_orders-none ts ks h)

module _ (db : Db) (inv : Economy db) where
  wallet_ledger_violations-none : wallet_ledger_violations db ≡ []
  unfolding wallet_ledger_violations
  wallet_ledger_violations-none =
      flag_wallets-none (agrees db.entries) (λ w. ledger_differs w.user_id) db.wallets inv.unique
        (λ u w found. ground (
          arith,
          found,
          find_wallet-id u db.wallets {w = w} found,
          inv.available_ledger u,
          inv.reserved_ledger u,
        ))

  unbalanced_transaction_violations-none : unbalanced_transaction_violations db ≡ []
  unfolding unbalanced_transaction_violations
  unbalanced_transaction_violations-none =
      flag_unbalanced-none db.entries (distinct (transaction_ids db.entries)) inv.balanced

  conservation_violations-none : conservation_violations db ≡ []
  unfolding conservation_violations
  conservation_violations-none = ground (arith, inv.conserved)

  order_outcome_violations-none : order_outcome_violations db ≡ []
  unfolding order_outcome_violations
  order_outcome_violations-none =
      flag_orders-none db.transactions (distinct (order_ids db.transactions)) (λ k. (
        ground (arith, inv.terminals k, inv.reserves k, inv.after k),
        ground (arith, inv.reserves k),
      ))

  reserved_backing_violations-none : reserved_backing_violations db ≡ []
  unfolding reserved_backing_violations
  reserved_backing_violations-none =
      flag_wallets-none _ _ db.wallets inv.unique (λ u w found.
        ground (arith, found, find_wallet-id u db.wallets {w = w} found, inv.backed u))

  pub credit_economy_violations-none : credit_economy_violations db ≡ []
  unfolding credit_economy_violations
  credit_economy_violations-none =
      rw
        (
          unbalanced_transaction_violations-none, conservation_violations-none,
          order_outcome_violations-none, reserved_backing_violations-none,
        )
        refl

  -- No check of the audit reports a violation.
  pub ledger_audit-none : ledger_audit db ≡ []
  unfolding ledger_audit
  ledger_audit-none = rw (credit_economy_violations-none, wallet_ledger_violations-none) refl
