-- ===== src/Order/Creation/Created.antt =====
-- order-service/src/orders/orders.service.ts and orders.repository.ts: what posting an errand leaves
-- behind.
use foc_app.Common.{
  ℕ, ◌≡◌, Bool, true, false, none, some, List, [], ◌∷◌, ◌++◌, All-append, refl, arith, is_some, not,
  if◌then◌else◌, Bool-cases, Option-cases, inl, inr,
}
use foc_app.Order.Types.{OrderRow, SupplierSnapshot, pending_credit}
use foc_app.Order.Lifecycle.Store.{
  Store, Result, ok, err, Error, find_order, check_violation, unique_violation, HistoryActor,
  HistoryAction, status_changed, reservation_requested,
}
use foc_app.Order.Lifecycle.Patch.{row_checks}
use foc_app.Order.Lifecycle.Rows.{IsUnique, count_history, count_history-append}
use foc_app.Order.Lifecycle.Shape.{RowShape}
use foc_app.Order.Lifecycle.Valid.{StoreValid}
use foc_app.Order.Views.{Caller, OrderView, project_order}
use foc_app.Order.Service.{Service, find_key}
use foc_app.Order.Creation.{
  CreateOrderInput, pending_order, insert_checks, creation_entry, creation_events, creation_key,
  insert_order, create_pending, create, created_view,
}

find_order-append :
    (k : ℕ) (os : List OrderRow) (o : OrderRow)
    → find_order k (os ++ (o ∷ []))
      ≡ elim (find_order k os) [ none ↦ find_order k (o ∷ []) | some r ↦ some r ]
find_order-append k [] o = refl
find_order-append k (x ∷ os) o = ground (arith, find_order-append k os o)

IsUnique-append :
    (os : List OrderRow) (o : OrderRow)
    → IsUnique os
    → find_order o.order_id os ≡ none
    → IsUnique (os ++ (o ∷ []))
IsUnique-append [] o u h = (refl, tt)
IsUnique-append (x ∷ os) o u h = (
  ground (arith, u, h, find_order-append x.order_id os o),
  IsUnique-append os o u.1 (ground (arith, h)),
)

pending_order-RowShape :
    (id now : ℕ) (c : Caller) (input : CreateOrderInput) (supplier : SupplierSnapshot)
    → insert_checks (pending_order id now c input supplier) ≡ true
    → RowShape (pending_order id now c input supplier)
unfolding pending_order insert_checks row_checks
pending_order-RowShape id now c input supplier h = ground (arith, h)

insert_order-StoreValid :
    (o : OrderRow) (t t' : Store)
    → StoreValid t
    → RowShape o
    → o.version ≡ 1
    → find_order o.order_id t.orders ≡ none
    → count_history o.order_id t.history ≡ 0
    → t'.orders ≡ t.orders ++ (o ∷ [])
    → t'.history ≡ t.history ++ (creation_entry o ∷ [])
    → StoreValid t'
insert_order-StoreValid o t t' valid shape first free unused orders_eq history_eq = record {
  rows = rw orders_eq (All-append _ t.orders o valid.rows shape);
  unique = rw orders_eq (IsUnique-append t.orders o valid.unique free);
  counted = λ k r found. ground (
    arith,
    orders_eq,
    history_eq,
    found,
    first,
    unused,
    find_order-append k t.orders o,
    count_history-append k t.history (creation_entry o ∷ []),
    valid.counted k r,
  );
}

-- What posting an errand needed, and what it wrote.
pub record Created (hash : CreateOrderInput → ℕ) (id now correlation : ℕ)
    (supplier : Result SupplierSnapshot) (c : Caller) (key : ℕ) (input : CreateOrderInput)
    (s s' : Service) (v : OrderView) : Type 0 where
  pub snapshot : SupplierSnapshot
  pub answered : supplier ≡ ok snapshot
  pub posted : OrderRow
  pub id_is : posted.order_id ≡ id
  pub requester_is : posted.requester_id ≡ c.user_id
  pub items_are : posted.items ≡ input.items
  pub zone_is : posted.delivery_zone ≡ input.delivery_zone
  pub instructions_are : posted.delivery_instructions ≡ input.delivery_instructions
  pub reward_is : posted.reward ≡ input.reward
  pub supplier_is : posted.supplier_snapshot ≡ snapshot
  pub status_is : posted.status ≡ pending_credit
  pub version_is : posted.version ≡ 1
  pub created_is : posted.created_at ≡ now
  pub no_courier : posted.courier_id ≡ none
  pub no_deadline : posted.acceptance_deadline_at ≡ none
  pub fits : insert_checks posted ≡ true
  pub free : find_order id s.tables.orders ≡ none
  pub seen : project_order now posted c ≡ some v
  pub orders : s'.tables.orders ≡ s.tables.orders ++ (posted ∷ [])
  pub history :
      s'.tables.history
      ≡ s.tables.history
        ++ (record {
          order_id = id;
          previous_status = none;
          new_status = pending_credit;
          action = HistoryAction.create;
          actor_type = HistoryActor.requester;
          actor_id = some c.user_id;
          reason = none;
          order_version = 1;
          occurred_at = now;
        }
            ∷ [])
  pub outbox :
      s'.tables.outbox
      ≡ s.tables.outbox
        ++ (record {
          event = status_changed id none pending_credit now 1;
          aggregate_id = id;
          correlation_id = correlation;
          causation_id = none;
        }
            ∷ record {
              event = reservation_requested id c.user_id input.reward;
              aggregate_id = id;
              correlation_id = correlation;
              causation_id = none;
            }
            ∷ [])
  pub keys :
      s'.creation_keys
      ≡ s.creation_keys
        ++ (record {
          caller_id = c.user_id;
          idempotency_key = key;
          order_id = id;
          request_hash = hash input;
        }
            ∷ [])
  pub command_keys : s'.command_keys ≡ s.command_keys
  pub valid : StoreValid s'.tables

abbrev pub CreateOutcome :
    (hash : CreateOrderInput → ℕ) (id now correlation : ℕ)
    → Result SupplierSnapshot
    → Caller
    → (key : ℕ) → CreateOrderInput
    → Service
    → Result (OrderView × Bool) × Service
    → Type 0
CreateOutcome hash id now correlation supplier c key input s (ok (v, replayed), s') =
    (replayed ≡ false) × Created hash id now correlation supplier c key input s s' v
CreateOutcome hash id now correlation supplier c key input s (err e, s') = s' ≡ s

module _ (hash : CreateOrderInput → ℕ) (id now correlation : ℕ) (c : Caller) (key : ℕ)
    (input : CreateOrderInput) (s : Service) where
  own_view :
      (snapshot : SupplierSnapshot)
      → (v : OrderView) × (project_order now (pending_order id now c input snapshot) c ≡ some v)
  unfolding project_order pending_order
  own_view snapshot =
      elim (Option-cases (project_order now (pending_order id now c input snapshot) c)) [
        | inl unseen ↦ absurd (ground (arith, unseen))
        | inr seen ↦ seen
      ]

  abbrev with_order : OrderRow → Service
  with_order o = record s {
    tables = record s.tables {
      orders = s.tables.orders ++ (o ∷ []);
      history = s.tables.history ++ (creation_entry o ∷ []);
      outbox = s.tables.outbox ++ creation_events correlation o;
    };
    creation_keys = s.creation_keys ++ (creation_key hash id c key input ∷ []);
  }

  create-eq :
      (supplier : SupplierSnapshot)
      → find_key c.user_id key s.creation_keys ≡ none
      → create hash id now correlation (ok supplier) c key input s ≡ (
          let o = pending_order id now c input supplier in
          if not (insert_checks o)
          then (err check_violation, s)
          else if is_some (find_order id s.tables.orders)
          then (err unique_violation, s)
          else (created_view now c o false, with_order o))
  unfolding create create_pending insert_order pending_order
  create-eq supplier fresh = ground (arith, fresh)

  create-failed :
      (e : Error)
      → find_key c.user_id key s.creation_keys ≡ none
      → create hash id now correlation (err e) c key input s ≡ (err e, s)
  unfolding create
  create-failed e fresh = ground (arith, fresh)

  -- Over valid tables, under a new key and an identifier without history: posting an errand either
  -- adds exactly one pending row that passed the constraints, with the history row of its creation, the
  -- two events that announce it and ask for its reward to be reserved, and its key, keeps the tables valid and answers with the requester's view of it; or changes nothing.
  pub create-CreateOutcome :
      (supplier : Result SupplierSnapshot)
      → StoreValid s.tables
      → find_key c.user_id key s.creation_keys ≡ none
      → count_history id s.tables.history ≡ 0
      → CreateOutcome hash id now correlation supplier c key input s
          (create hash id now correlation supplier c key input s)
  create-CreateOutcome (err e) valid fresh unused = rw (create-failed e fresh) refl
  create-CreateOutcome (ok snapshot) valid fresh unused =
      elim (Bool-cases (insert_checks (pending_order id now c input snapshot))) [
        | inr bad ↦ rw (create-eq snapshot fresh, bad) refl
        | inl fits ↦ elim (Option-cases (find_order id s.tables.orders)) [
          | inr (o, taken) ↦ rw (create-eq snapshot fresh, fits, taken) refl
          | inl free ↦
              let (v, seen) = own_view snapshot in
              rw (create-eq snapshot fresh, fits, free, seen)
                (
                  refl,
                  record {
                    snapshot = snapshot;
                    answered = refl;
                    posted = pending_order id now c input snapshot;
                    id_is = unfold pending_order in refl;
                    requester_is = unfold pending_order in refl;
                    items_are = unfold pending_order in refl;
                    zone_is = unfold pending_order in refl;
                    instructions_are = unfold pending_order in refl;
                    reward_is = unfold pending_order in refl;
                    supplier_is = unfold pending_order in refl;
                    status_is = unfold pending_order in refl;
                    version_is = unfold pending_order in refl;
                    created_is = unfold pending_order in refl;
                    no_courier = unfold pending_order in refl;
                    no_deadline = unfold pending_order in refl;
                    fits = fits;
                    free = free;
                    seen = seen;
                    orders = refl;
                    history = unfold pending_order in refl;
                    outbox = unfold pending_order in refl;
                    keys = refl;
                    command_keys = refl;
                    valid =
                        insert_order-StoreValid (pending_order id now c input snapshot) s.tables _
                          valid (pending_order-RowShape id now c input snapshot fits)
                          (unfold pending_order in refl) (unfold pending_order in free)
                          (unfold pending_order in unused) refl refl;
                  },
                )
        ]
      ]
