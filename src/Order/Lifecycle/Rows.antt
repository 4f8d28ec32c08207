-- ===== src/Order/Lifecycle/Rows.antt =====
-- order-service/src/orders/orders.repository.ts: reading and rewriting one row of `orders`.
use foc_app.Common.{
  ℕ, ◌≡◌, subst, true, ◌&&◌, none, some, List, [], ◌∷◌, ◌++◌, All, arith, ◌+◌, Bool-cases, inl, inr,
  ◌==◌, if◌then◌else◌,
}
use foc_app.Order.Types.{OrderRow}
use foc_app.Order.Lifecycle.Store.{HistoryRow, find_order, put_order, has_version}

pub find_order-id :
    (k : ℕ) (os : List OrderRow) {o : OrderRow} → find_order k os ≡ some o → o.order_id ≡ k
find_order-id k [] h = cc
find_order-id k (x ∷ os) {o} h = ground (arith, find_order-id k os {o = o})

pub find_order-has_version :
    (k : ℕ) (os : List OrderRow) {o : OrderRow}
    → find_order k os ≡ some o
    → has_version o.order_id o.version os ≡ true
find_order-has_version k [] h = cc
find_order-has_version k (x ∷ os) {o} h =
    ground (arith, find_order-has_version k os {o = o}, find_order-id k os {o = o})

pub find_order-All {ℓ} :
    (P : OrderRow → Type ℓ) (k : ℕ) (os : List OrderRow) {o : OrderRow}
    → All P os
    → find_order k os ≡ some o
    → P o
find_order-All P k [] a h = cc
find_order-All P k (x ∷ os) {o} a h = elim (Bool-cases (x.order_id == k)) [
  | inl t ↦ let found : some x ≡ some o = rw t at h in let same : x ≡ o = cc in subst P same a.0
  | inr f ↦ find_order-All P k os a.1 (rw f at h)
]

pub put_order-All {ℓ} :
    (P : OrderRow → Type ℓ) (k v : ℕ) (new : OrderRow) (os : List OrderRow)
    → All P os
    → P new
    → All P (put_order k v new os)
put_order-All P k v new [] a p = tt
put_order-All P k v new (x ∷ os) a p = elim (Bool-cases ((x.order_id == k) && (x.version == v))) [
  | inl t ↦ rw t (p, a.1)
  | inr f ↦ rw f (a.0, put_order-All P k v new os a.1 p)
]

-- The row that a version-checked update wrote is the one read back, and the others stay.
pub find_order-put_order :
    (k : ℕ) (o new : OrderRow) (os : List OrderRow) (j : ℕ)
    → find_order k os ≡ some o
    → new.order_id ≡ o.order_id
    → find_order j (put_order o.order_id o.version new os)
      ≡ (if j == k then some new else find_order j os)
find_order-put_order k o new [] j h e = cc
find_order-put_order k o new (x ∷ os) j h e =
    ground (arith, find_order-put_order k o new os j, find_order-id k os {o = o})

abbrev pub IsUnique : List OrderRow → Type 0
IsUnique [] = Unit {0}
IsUnique (o ∷ os) = (find_order o.order_id os ≡ none) × IsUnique os

pub put_order-IsUnique :
    (k : ℕ) (o new : OrderRow) (os : List OrderRow)
    → find_order k os ≡ some o
    → new.order_id ≡ o.order_id
    → IsUnique os
    → IsUnique (put_order o.order_id o.version new os)
put_order-IsUnique k o new [] h e u = cc
put_order-IsUnique k o new (x ∷ os) h e u = ground (
  arith,
  put_order-IsUnique k o new os,
  find_order-id k os {o = o},
  find_order-put_order k o new os x.order_id,
)

-- How many history rows an errand has.
abbrev pub count_history : ℕ → List HistoryRow → ℕ
count_history k [] = 0
count_history k (h ∷ hs) = (if h.order_id == k then 1 else 0) + count_history k hs

pub count_history-append :
    (k : ℕ) (hs js : List HistoryRow)
    → count_history k (hs ++ js) ≡ count_history k hs + count_history k js
count_history-append k [] js = omega arith
count_history-append k (h ∷ hs) js = omega (arith, count_history-append k hs js)
