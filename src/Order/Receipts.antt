-- ===== src/Order/Receipts.antt =====
-- order-service/src/orders/orders.repository.ts and order-service/src/db/schema.ts: the receipt that is
-- written with the transfer confirmation of an errand.
use foc_app.Common.{
  ℕ, Bool, false, not, ◌&&◌, ◌||◌, Option, none, some, List, [], ◌∷◌, ◌++◌, any, leb, is_some, ◌==◌,
  if◌then◌else◌,
}
use foc_app.Order.Types.{OrderRow}
use foc_app.Order.Lifecycle.Store.{
  Store, Result, ok, err, Receipt, check_violation, not_null_violation, unique_violation,
}

-- The columns that the statement takes from the errand.
abbrev pub receipt_of : OrderRow → Receipt
receipt_of o = record {
  order_id = o.order_id;
  requester_id = o.requester_id;
  courier_id = o.courier_id;
  supplier_snapshot = o.supplier_snapshot;
  items = o.items;
  reward = o.reward;
  credit_transaction_id = o.credit_transaction_id;
  created_at = o.created_at;
  accepted_at = o.accepted_at;
  picked_up_at = o.picked_up_at;
  delivered_at = o.delivered_at;
  completion_requested_at = o.completion_requested_at;
  completed_at = o.completed_at;
}

-- The columns that are NOT NULL in `order_receipts` and not in `orders`.
abbrev pub is_filled : Receipt → Bool
is_filled r =
    is_some r.courier_id
    && (is_some r.credit_transaction_id
        && (is_some r.accepted_at
            && (is_some r.picked_up_at
                && (is_some r.completion_requested_at && is_some r.completed_at))))

-- `order_receipts_reward_range`
abbrev pub in_range : Receipt → Bool
in_range r = leb 1 r.reward && leb r.reward 5

abbrev same_transaction : Option ℕ → Option ℕ → Bool
same_transaction (some m) (some n) = m == n
same_transaction _ _ = false

-- Two receipts that the primary key and the unique transaction keep apart.
abbrev pub conflicts : Receipt → Receipt → Bool
conflicts r q =
    (q.order_id == r.order_id) || same_transaction q.credit_transaction_id r.credit_transaction_id

abbrev insert_row : Receipt → Store → Result Store
insert_row r s =
    if not (is_filled r)
    then err not_null_violation
    else if not (in_range r)
    then err check_violation
    else if any (conflicts r) s.receipts
    then err unique_violation
    else ok (record s { receipts = s.receipts ++ (r ∷ []) })

-- `insertReceipt`. The errand's row stands in the same transaction, so the foreign key holds.
unfoldable pub insert_receipt : Store → OrderRow → Result Store
insert_receipt s o = insert_row (receipt_of o) s

-- `findReceipt`, by the primary key.
abbrev pub find_receipt : ℕ → List Receipt → Option Receipt
find_receipt k [] = none
find_receipt k (r ∷ rs) = if r.order_id == k then some r else find_receipt k rs
