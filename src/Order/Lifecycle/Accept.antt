-- ===== src/Order/Lifecycle/Accept.antt =====
-- order-service/src/orders/orders.repository.ts: `acceptUsing`, the conditional update that takes an
-- open errand.
use foc_app.Common.{
  ℕ, ◌+◌, Bool, false, not, ◌&&◌, Option, none, some, List, [], ◌∷◌, ◌++◌, ltb, ◌==◌, if◌then◌else◌,
}
use foc_app.Order.Types.{OrderRow, open_, accepted}
use foc_app.Order.StateMachine.Vocabulary.{accept, status_index}
use foc_app.Order.Lifecycle.Store.{
  Store, Result, ok, err, HistoryActor, HistoryAction, status_changed, check_violation, find_order,
}
use foc_app.Order.Lifecycle.Patch.{row_checks}

pub data Acceptance : Type 0 where
  taken : OrderRow → Acceptance
  not_taken : Option OrderRow → Acceptance

abbrev is_after : Option ℕ → ℕ → Bool
is_after none now = false
is_after (some t) now = ltb now t

-- The WHERE clause; `now` is the database's clock.
unfoldable pub acceptable : ℕ → ℕ → ℕ → OrderRow → Bool
acceptable courier expected_version now o =
    (status_index o.status == status_index open_)
    && ((o.version == expected_version)
        && (not (o.requester_id == courier) && is_after o.acceptance_deadline_at now))

-- The SET clause.
unfoldable pub accepted_row : ℕ → ℕ → OrderRow → OrderRow
accepted_row courier now o = record o {
  courier_id = some courier;
  status = accepted;
  version = o.version + 1;
  accepted_at = some now;
  updated_at = now;
}

-- The first row with this id that the WHERE clause lets through, rewritten.
abbrev pub update_if :
    ℕ
    → (OrderRow → Bool)
    → (OrderRow → OrderRow)
    → List OrderRow
    → Option (OrderRow × List OrderRow)
update_if k p f [] = none
update_if k p f (o ∷ os) =
    let rest = update_if k p f os in
    if (o.order_id == k) && p o
    then some (f o, f o ∷ os)
    else elim rest [ none ↦ none | some (o', os') ↦ some (o', o ∷ os') ]

-- The history row and the event of an acceptance.
unfoldable pub record_acceptance : ℕ → ℕ → OrderRow → List OrderRow → Store → Store
record_acceptance courier correlation next rows s = record s {
  orders = rows;
  history =
      s.history
      ++ (record {
        order_id = next.order_id;
        previous_status = some open_;
        new_status = accepted;
        action = HistoryAction.transition accept;
        actor_type = HistoryActor.student;
        actor_id = some courier;
        reason = none;
        order_version = next.version;
        occurred_at = next.updated_at;
      }
          ∷ []);
  outbox =
      s.outbox
      ++ (record {
        event = status_changed next.order_id (some open_) accepted next.updated_at next.version;
        aggregate_id = next.order_id;
        correlation_id = correlation;
        causation_id = none;
      }
          ∷ []);
}

-- `updated.rows[0]`: no row, or the row as written, which must pass the table's constraints.
abbrev pub when_updated :
    (order_id courier correlation : ℕ)
    → Store
    → Option (OrderRow × List OrderRow)
    → Result (Acceptance × Store)
when_updated k courier correlation s none = ok (not_taken (find_order k s.orders), s)
when_updated k courier correlation s (some (next, rows)) =
    if row_checks next
    then ok (taken next, record_acceptance courier correlation next rows s)
    else err check_violation

-- `acceptUsing`
unfoldable pub accept_using :
    (order_id courier expected_version correlation now : ℕ) → Store → Result (Acceptance × Store)
accept_using k courier v correlation now s =
    when_updated k courier correlation s
      (update_if k (acceptable courier v now) (accepted_row courier now) s.orders)
