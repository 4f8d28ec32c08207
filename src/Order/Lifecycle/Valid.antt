-- ===== src/Order/Lifecycle/Valid.antt =====
-- order-service/src/orders/orders.repository.ts: what holds of the errands and their history between
-- two commands.
use foc_app.Common.{ℕ, ◌+◌, ◌≡◌, some, [], ◌∷◌, ◌++◌, All, arith}
use foc_app.Order.Types.{OrderRow}
use foc_app.Order.Lifecycle.Store.{Store, HistoryRow, find_order, put_order}
use foc_app.Order.Lifecycle.Rows.{
  IsUnique, count_history, count_history-append, find_order-id, put_order-All, find_order-put_order,
  put_order-IsUnique,
}
use foc_app.Order.Lifecycle.Shape.{RowShape}

-- The rows keep the shape of their status, their identifiers differ, and every change of an errand
-- left one history row.
pub record StoreValid (s : Store) : Type 0 where
  pub rows : All RowShape s.orders
  pub unique : IsUnique s.orders
  pub counted :
      (k : ℕ) (o : OrderRow)
      → find_order k s.orders ≡ some o
      → count_history k s.history ≡ o.version

-- One version-checked update with its history row keeps the store valid.
pub put-StoreValid :
    (k : ℕ) (o next : OrderRow) (entry : HistoryRow) (s s' : Store)
    → StoreValid s
    → find_order k s.orders ≡ some o
    → RowShape next
    → next.order_id ≡ o.order_id
    → next.version ≡ o.version + 1
    → entry.order_id ≡ o.order_id
    → s'.orders ≡ put_order o.order_id o.version next s.orders
    → s'.history ≡ s.history ++ (entry ∷ [])
    → StoreValid s'
put-StoreValid k o next entry s s' valid was shape id_kept version_is of_order orders_eq
      history_eq =
    record {
      rows =
          rw orders_eq (put_order-All RowShape o.order_id o.version next s.orders valid.rows shape);
      unique = rw orders_eq (put_order-IsUnique k o next s.orders was id_kept valid.unique);
      counted = λ j r found. ground (
        arith,
        orders_eq,
        history_eq,
        found,
        find_order-put_order k o next s.orders j was id_kept,
        find_order-id k s.orders {o = o} was,
        count_history-append j s.history (entry ∷ []),
        valid.counted j r,
        valid.counted k o was,
      );
    }
