-- ===== src/Order/Lifecycle/Announce.antt =====
-- order-service/src/orders/orders.repository.ts: the events that an applied command announces.
use mathlib.Core.Bool.{false≢true}
use mathlib.Core.List.{append-nil, append_assoc}
use foc_app.Common.{
  ℕ, ◌≡◌, refl, Bool, true, List, [], ◌∷◌, ◌++◌, arith, any, is_some, Option-cases, inl, inr, ◌==◌,
}
use foc_app.Order.Types.{OrderRow}
use foc_app.Order.StateMachine.Vocabulary.{
  EventType, event_index, order_status_changed, order_completion_requested, order_release_requested,
}
use foc_app.Order.Lifecycle.Store.{Store, ok, OutboxRow, OrderEvent}
use foc_app.Order.Lifecycle.Transition.{TransitionCommand, emitted_event, emit_all, outbox_row}

-- One outbox row for each event of the decision, in order.
abbrev pub Announces :
    TransitionCommand → OrderRow → OrderRow → ℕ → List EventType → List OutboxRow → Type 0
Announces command before after at_ [] [] = Unit {0}
Announces command before after at_ (e ∷ es) (r ∷ rs) =
    (emitted_event e before after at_ ≡ ok r.event)
    × (r.aggregate_id ≡ before.order_id)
    × (r.correlation_id ≡ command.correlation_id)
    × (r.causation_id ≡ command.causation_id)
    × Announces command before after at_ es rs
Announces command before after at_ [] (r ∷ rs) = ⊥
Announces command before after at_ (e ∷ es) [] = ⊥

abbrev pub asks_completion : List EventType → Bool
asks_completion es = any (λ e. event_index e == event_index order_completion_requested) es

emitted_event-ok :
    (e : EventType) (before after : OrderRow) (at_ : ℕ)
    → (asks_completion (e ∷ []) ≡ true → is_some after.courier_id ≡ true)
    → (event : OrderEvent) × (emitted_event e before after at_ ≡ ok event)
unfolding emitted_event
emitted_event-ok order_status_changed before after at_ h = (_, refl)
emitted_event-ok order_release_requested before after at_ h = (_, refl)
emitted_event-ok order_completion_requested before after at_ h =
    elim (Option-cases after.courier_id) [
      | inl missing ↦ absurd (false≢true (ground (arith, h refl)))
      | inr (courier, e) ↦ (
        OrderEvent.completion_requested after.order_id after.requester_id courier after.reward,
        rw e,
      )
    ]

asks_head :
    (e : EventType) (es : List EventType)
    → asks_completion (e ∷ []) ≡ true
    → asks_completion (e ∷ es) ≡ true
asks_head e es h = ground arith

asks_tail :
    (e : EventType) (es : List EventType)
    → asks_completion es ≡ true
    → asks_completion (e ∷ es) ≡ true
asks_tail e es h = ground arith

-- The events of a decision are announced: a completion names the courier.
pub emit_all-Announces :
    (command : TransitionCommand) (es : List EventType) (before after : OrderRow) (at_ : ℕ)
    (s : Store)
    → (asks_completion es ≡ true → is_some after.courier_id ≡ true)
    → (rows : List OutboxRow) × (emit_all command es before after at_ s
        ≡ ok (record s { outbox = s.outbox ++ rows }))
      × Announces command before after at_ es rows
unfolding emit_all
emit_all-Announces command [] before after at_ s h = ([], simp append-nil, tt)
emit_all-Announces command (e ∷ es) before after at_ s h =
    let (event, sent) = emitted_event-ok e before after at_ (λ q. h (asks_head e es q)) in
    let row = outbox_row command before event in
    let (rows, run, all) =
      emit_all-Announces command es before after at_ (record s { outbox = s.outbox ++ (row ∷ []) })
        (λ q. h (asks_tail e es q)) in
    (row ∷ rows, rw (sent, run) (simp append_assoc), (sent, refl, refl, refl, all))
