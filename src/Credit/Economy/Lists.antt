-- ===== src/Credit/Economy/Lists.antt =====
-- credit-service/src/credits: how the sums over the tables change with one row.
use foc_app.Common.{
  ℕ, ◌+◌, ◌≡◌, refl, true, false, none, some, List, [], ◌∷◌, any, find, arith, ◌==◌, if◌then◌else◌,
}
use foc_app.Credit.Db.{
  Wallet, Transaction, Operation, OperationType, find_wallet, put_wallet, is_terminal_type,
  is_operation, is_terminal_of, is_terminal_operation, operation_clash,
}
use foc_app.Credit.Measures.{held, settled, open_reserved, reserved_for, count_terminals}
use foc_app.Credit.Economy.Invariant.{IsUnique}

pub find_wallet-id :
    (u : ℕ) (ws : List Wallet) {w : Wallet} → find_wallet u ws ≡ some w → w.user_id ≡ u
find_wallet-id u [] h = cc
find_wallet-id u (x ∷ ws) {w} h = ground (arith, find_wallet-id u ws {w = w})

pub find_wallet-put_wallet :
    (u : ℕ) (w new : Wallet) (ws : List Wallet) (v : ℕ)
    → find_wallet u ws ≡ some w
    → new.user_id ≡ w.user_id
    → find_wallet v (put_wallet new ws) ≡ (if v == u then some new else find_wallet v ws)
find_wallet-put_wallet u w new [] v h e = cc
find_wallet-put_wallet u w new (x ∷ ws) v h e =
    ground (arith, find_wallet-put_wallet u w new ws v, find_wallet-id u ws {w = w})

pub held-put_wallet :
    (u : ℕ) (w new : Wallet) (ws : List Wallet)
    → find_wallet u ws ≡ some w
    → new.user_id ≡ w.user_id
    → held (put_wallet new ws) + (w.available + w.reserved)
      ≡ held ws + (new.available + new.reserved)
held-put_wallet u w new [] h e = cc
held-put_wallet u w new (x ∷ ws) h e =
    ground (arith, held-put_wallet u w new ws, find_wallet-id u ws {w = w})

pub put_wallet-IsUnique :
    (u : ℕ) (w new : Wallet) (ws : List Wallet)
    → find_wallet u ws ≡ some w
    → new.user_id ≡ w.user_id
    → IsUnique ws
    → IsUnique (put_wallet new ws)
put_wallet-IsUnique u w new [] h e q = cc
put_wallet-IsUnique u w new (x ∷ ws) h e q = ground (
  arith,
  put_wallet-IsUnique u w new ws,
  find_wallet-id u ws {w = w},
  find_wallet-put_wallet u w new ws x.user_id,
)

-- A transaction that settles nothing leaves every reservation open.
pub open_reserved-keep :
    (u : ℕ) (t : Transaction) (ts all : List Transaction)
    → is_terminal_type t.transaction_type ≡ false
    → open_reserved u ts (t ∷ all) ≡ open_reserved u ts all
open_reserved-keep u t [] all h = refl
open_reserved-keep u t (x ∷ ts) all h = ground (arith, open_reserved-keep u t ts all)

-- A first settlement of an order closes what was reserved for it.
pub open_reserved-settle :
    (u k : ℕ) (t : Transaction) (ts all : List Transaction)
    → t.order_id ≡ some k
    → is_terminal_type t.transaction_type ≡ true
    → settled (some k) all ≡ false
    → open_reserved u ts (t ∷ all) + reserved_for u k ts ≡ open_reserved u ts all
open_reserved-settle u k t [] all o h s = refl
open_reserved-settle u k t (x ∷ ts) all o h s = ground (arith, open_reserved-settle u k t ts all)

pub unsettled_of_count :
    (k : ℕ) (ts : List Transaction) → count_terminals k ts ≡ 0 → settled (some k) ts ≡ false
unsettled_of_count k [] h = refl
unsettled_of_count k (t ∷ ts) h = ground (arith, unsettled_of_count k ts)

-- An operation that clashes with no row is the first of its kind for its order.
pub reservation_of_clash :
    (o : Operation) (os : List Operation)
    → any (operation_clash o) os ≡ false
    → o.operation_type ≡ OperationType.reserve
    → find (is_operation o.order_id OperationType.reserve) os ≡ none
reservation_of_clash o [] h e = refl
reservation_of_clash o (x ∷ os) h e = ground (arith, reservation_of_clash o os)

pub settlement_of_clash :
    (o : Operation) (os : List Operation)
    → any (operation_clash o) os ≡ false
    → is_terminal_operation o.operation_type ≡ true
    → find (is_terminal_of o.order_id) os ≡ none
settlement_of_clash o [] h e = refl
settlement_of_clash o (x ∷ os) h e = ground (arith, settlement_of_clash o os)
