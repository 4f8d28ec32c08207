-- ===== src/Order/Views/Private.antt =====
-- order-service/src/orders/orders.service.ts: what a caller who takes no part in an errand learns of it.
use foc_app.Common.{ℕ, ◌≡◌, false, none, some, map, refl, arith, if◌then◌else◌}
use foc_app.Order.Types.{OrderRow}
use foc_app.Order.Views.{
  Caller, can_read_private, is_hidden, public_order_view, project_order, without_note,
}

-- Two errands that differ at most in what is private: who takes part, the instructions, the notes on the
-- items, the private deadlines, and the reasons of a release or a rejection.
pub record SamePublic (o o' : OrderRow) : Type 0 where
  pub order_id : o.order_id ≡ o'.order_id
  pub supplier : o.supplier_snapshot ≡ o'.supplier_snapshot
  pub items : map without_note o.items ≡ map without_note o'.items
  pub delivery_zone : o.delivery_zone ≡ o'.delivery_zone
  pub reward : o.reward ≡ o'.reward
  pub status : o.status ≡ o'.status
  pub version : o.version ≡ o'.version
  pub acceptance_deadline_at : o.acceptance_deadline_at ≡ o'.acceptance_deadline_at
  pub created_at : o.created_at ≡ o'.created_at
  pub updated_at : o.updated_at ≡ o'.updated_at

-- A caller who is neither requester, nor courier, nor the referred administrator sees the public
-- view, and of a pending or rejected request nothing.
pub project_order-public :
    (now : ℕ) (o : OrderRow) (c : Caller)
    → can_read_private o c ≡ false
    → project_order now o c ≡ (if is_hidden o.status then none else some (public_order_view now o))
unfolding project_order public_order_view
project_order-public now o c h = ground (arith, h)

-- A caller who takes no part in either of two errands, and is the referred administrator of neither,
-- cannot tell them apart when they differ at most in what is private.
pub project_order-same :
    (now : ℕ) (o o' : OrderRow) (c : Caller)
    → SamePublic o o'
    → can_read_private o c ≡ false
    → can_read_private o' c ≡ false
    → project_order now o c ≡ project_order now o' c
unfolding public_order_view
project_order-same now o o' c same h h' =
    rw
      (
        project_order-public now o c h,
        project_order-public now o' c h',
        same.order_id,
        same.supplier,
        same.items,
        same.delivery_zone,
        same.reward,
        same.status,
        same.version,
        same.acceptance_deadline_at,
        same.created_at,
        same.updated_at,
      )
      refl
