-- ===== src/Order/Lifecycle/Transition.antt =====
-- order-service/src/orders/orders.repository.ts: `transitionUsing`, the one path of every lifecycle
-- command after acceptance.
mod Command
unfoldable pub use Command.*
use foc_app.Common.{
  ℕ, ◌+◌, Bool, true, false, not, ◌&&◌, Option, none, some, List, [], ◌∷◌, ◌++◌, any, leb, ◌==◌,
  if◌then◌else◌,
}
use foc_app.Common.Text.{trim}
use foc_app.Order.Types.{OrderRow}
use foc_app.Order.StateMachine.Vocabulary.{
  OrderAction, OrderActor, EventType, action_index, order_status_changed,
  order_completion_requested, order_release_requested,
}
use foc_app.Order.StateMachine.Table.{TransitionContext, TransitionDecision, order_transitions}
use foc_app.Order.StateMachine.Decide.{decide_transition, includes}
use foc_app.Order.Lifecycle.Store.{
  Store, Result, ok, err, Error, ◌>>=◌, HistoryActor, HistoryAction, HistoryRow, OrderEvent,
  OutboxRow, status_changed, completion_requested, release_requested, check_violation, no_courier,
  find_order, put_order, has_version,
}
use foc_app.Order.Lifecycle.Patch.{
  Column, Periods, write_all, timestamp_patch, row_checks, version, updated_at, release_reason,
}

abbrev pub reason_column : TransitionDecision → List Column
reason_column d = elim d.release_reason [ none ↦ [] | some r ↦ release_reason r ∷ [] ]

-- The row with the patch of the update, in the order in which its parts are spread.
unfoldable pub next_row :
    Periods → TransitionCommand → TransitionDecision → ℕ → OrderRow → Result OrderRow
unfolding timestamp_patch
next_row p command d now o = timestamp_patch p command.action d.to now o >>= λ stamps. ok (
    write_all
      (Column.status d.to
        ∷ version (o.version + 1)
        ∷ updated_at now
        ∷ (reason_column d ++ (stamps ++ command.patch)))
      o)

-- `emittedEvent`
unfoldable pub emitted_event : EventType → OrderRow → OrderRow → ℕ → Result OrderEvent
emitted_event order_status_changed before after at_ =
    ok (status_changed after.order_id (some before.status) after.status at_ after.version)
emitted_event order_completion_requested before after at_ = elim after.courier_id [
  | none ↦ err no_courier
  | some courier ↦ ok (completion_requested after.order_id after.requester_id courier after.reward)
]
emitted_event order_release_requested before after at_ =
    ok (release_requested after.order_id after.requester_id after.reward)

-- `insertOutboxEvent`: the row of one event.
abbrev pub outbox_row : TransitionCommand → OrderRow → OrderEvent → OutboxRow
outbox_row command before event = record {
  event = event;
  aggregate_id = before.order_id;
  correlation_id = command.correlation_id;
  causation_id = command.causation_id;
}

-- The loop over `decision.emitted`: one outbox row for each event.
unfoldable pub emit_all :
    TransitionCommand → List EventType → OrderRow → OrderRow → ℕ → Store → Result Store
emit_all command [] before after at_ s = ok s
emit_all command (e ∷ es) before after at_ s = emitted_event e before after at_ >>= λ event.
    emit_all command es before after at_
      (record s { outbox = s.outbox ++ (outbox_row command before event ∷ []) })

-- The history row of an applied command.
abbrev pub history_row : TransitionCommand → OrderActor → ℕ → OrderRow → OrderRow → HistoryRow
history_row command actor now o next = record {
  order_id = o.order_id;
  previous_status = some o.status;
  new_status = next.status;
  action = HistoryAction.transition command.action;
  actor_type = history_actor actor;
  actor_id = actor_id command.actor;
  reason = trimmed command.reason;
  order_version = next.version;
  occurred_at = now;
}

-- What follows the update: the history row, the extra writes and the events.
unfoldable pub record_move :
    TransitionCommand
    → OrderActor
    → TransitionDecision
    → ℕ
    → OrderRow
    → OrderRow
    → Store
    → Result (TransitionResult × Store)
record_move command actor d now o next s =
    command.after_apply
      (record s {
        orders = put_order o.order_id o.version next s.orders;
        history = s.history ++ (history_row command actor now o next ∷ []);
      })
      next
    >>= λ s'. emit_all command d.emitted o next now s' >>= λ s''. ok (applied next d, s'')

-- The update of an allowed command: it matches a row of this version, and the row it writes must
-- pass the table's constraints.
unfoldable pub apply_decision :
    Periods
    → TransitionCommand
    → OrderActor
    → TransitionDecision
    → ℕ
    → OrderRow
    → Store
    → Result (TransitionResult × Store)
apply_decision p command actor d now o s = next_row p command d now o >>= λ next.
    if has_version o.order_id o.version s.orders
    then (if row_checks next then record_move command actor d now o next s else err check_violation)
    else ok (refused version_conflict (some o), s)

abbrev pub version_differs : Option ℕ → ℕ → Bool
version_differs none v = false
version_differs (some w) v = not (w == v)

abbrev pub or_clock : Option ℕ → ℕ → ℕ
or_clock none clock = clock
or_clock (some now) clock = now

-- `command.verify?.(order)`, and then the writes.
abbrev pub when_verified :
    Periods
    → TransitionCommand
    → TransitionDecision
    → ℕ
    → OrderRow
    → Store
    → Option Error
    → Result (TransitionResult × Store)
when_verified p command d now o s (some e) = err e
when_verified p command d now o s none =
    apply_decision p command (resolve_actor o command.actor) d now o s

abbrev pub when_decided :
    Periods
    → TransitionCommand
    → ℕ
    → OrderRow
    → Store
    → Option TransitionDecision
    → Result (TransitionResult × Store)
when_decided p command now o s none =
    ok (refused (refusal command.action (resolve_actor o command.actor)) (some o), s)
when_decided p command now o s (some d) =
    if version_differs command.expected_version o.version
    then ok (refused version_conflict (some o), s)
    else when_verified p command d now o s (command.verify o)

abbrev pub when_found :
    Periods → ℕ → TransitionCommand → Store → Option OrderRow → Result (TransitionResult × Store)
when_found p clock command s none = ok (refused not_found none, s)
when_found p clock command s (some o) =
    let now = or_clock command.now clock in
    when_decided p command now o s (
      decide_transition o.status command.action (resolve_actor o command.actor)
        (context_of o command now))

-- `transitionUsing`; `clock` is what the database says the time is.
unfoldable pub transition_using :
    Periods → ℕ → TransitionCommand → Store → Result (TransitionResult × Store)
transition_using p clock command s =
    when_found p clock command s (find_order command.order_id s.orders)
