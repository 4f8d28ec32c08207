-- ===== src/Credit/Economy/Invariant.antt =====
-- credit-service/src/credits/invariants.ts: the closed economy (ADR 0007), as what holds of the tables
-- between two transactions.
use foc_app.Common.{ℕ, ◌+◌, ◌≤◌, ◌≡◌, none, List, [], ◌∷◌, is_some}
use foc_app.Credit.Db.{Wallet, Account, Direction, Db, find_wallet}
use foc_app.Credit.Measures.{
  available_in, reserved_in, held, issued, open_reserved, reserved_for, count_reserves,
  count_terminals, moved, posted, granted, granted_amount, reservation_of, settlement_of, bit,
}

-- `user_id` is the primary key of `wallets`.
abbrev pub IsUnique : List Wallet → Type 0
IsUnique [] = Unit {0}
IsUnique (w ∷ ws) = (find_wallet w.user_id ws ≡ none) × IsUnique ws

pub record Economy (db : Db) : Type 0 where
  pub unique : IsUnique db.wallets
  -- All wallets together hold what was issued.
  pub conserved : held db.wallets ≡ issued db.transactions
  -- A wallet's reserved credits are its open reservations.
  pub backed :
      (u : ℕ)
      → reserved_in (find_wallet u db.wallets) ≡ open_reserved u db.transactions db.transactions
  -- Both balances follow from the ledger.
  pub available_ledger :
      (u : ℕ)
      → available_in (find_wallet u db.wallets)
          + moved u Account.available Direction.debit db.entries
        ≡ moved u Account.available Direction.credit db.entries
  pub reserved_ledger :
      (u : ℕ)
      → reserved_in (find_wallet u db.wallets) + moved u Account.reserved Direction.debit db.entries
        ≡ moved u Account.reserved Direction.credit db.entries
  -- Every transaction's debits equal its credits.
  pub balanced :
      (id : ℕ) → posted id Direction.debit db.entries ≡ posted id Direction.credit db.entries
  -- An order's transactions are those its operations record: a reservation that was granted, and one
  -- settlement at most, never without the reservation.
  pub reserves :
      (k : ℕ) → count_reserves k db.transactions ≡ bit (granted (reservation_of k db.operations))
  pub terminals :
      (k : ℕ) → count_terminals k db.transactions ≡ bit (is_some (settlement_of k db.operations))
  pub amounts :
      (u k : ℕ)
      → reserved_for u k db.transactions ≡ granted_amount u (reservation_of k db.operations)
  pub after :
      (k : ℕ)
      → bit (is_some (settlement_of k db.operations))
        ≤ bit (granted (reservation_of k db.operations))
