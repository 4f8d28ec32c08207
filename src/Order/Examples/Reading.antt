-- ===== src/Order/Examples/Reading.antt =====
-- order-service/src/orders/orders.service.ts: reads of one errand.
use foc_app.Common.{ℕ, true, none, some, Option, List, [], ◌∷◌, ◌≡◌, refl, inl, inr}
use foc_app.Order.Types.{
  OrderRow, ReleaseReason, private_order_forbidden, pending_credit, open_, release_pending_credit,
}
use foc_app.Order.StateMachine.Vocabulary.{
  OrderAction, acceptance_deadline_passed, requester_suspended,
}
use foc_app.Order.Lifecycle.Store.{Store, HistoryActor, HistoryAction}
use foc_app.Order.Views.{project_order}
use foc_app.Order.Views.Private.{project_order-same}
use foc_app.Order.Service.{raise}
use foc_app.Order.Reads.{find_history, get_by_id, codes, history, receipt}
use foc_app.Order.Reads.Masked.{history-same, strangers_refused}
use foc_app.Order.Examples.{errand, entry, store}
use foc_app.Order.Examples.Commands.{stranger, requester}

abbrev elsewhere : OrderRow
elsewhere = record errand { delivery_instructions = "Block 7"; requester_id = 11 }

project_order-same_example :
    project_order 2500 errand stranger ≡ project_order 2500 elsewhere stranger
project_order-same_example =
    project_order-same 2500 errand elsewhere stranger
      (record {
        order_id = refl;
        supplier = refl;
        items = refl;
        delivery_zone = refl;
        reward = refl;
        status = refl;
        version = refl;
        acceptance_deadline_at = refl;
        created_at = refl;
        updated_at = refl;
      })
      refl refl

-- Histories that end with a timer's move and with a suspension.
abbrev released : ReleaseReason → OrderRow
released reason = record errand {
  status = release_pending_credit;
  version = 3;
  release_reason = some reason;
  release_requested_at = some 3000;
}

abbrev moved_by : ReleaseReason → HistoryActor → OrderAction → Option (List ℕ) → Store
moved_by why actor action reason = record store {
  orders = released why ∷ [];
  history =
      entry pending_credit 1
      ∷ entry open_ 2
      ∷ (record (entry release_pending_credit 3) {
        action = HistoryAction.transition action;
        actor_type = actor;
        actor_id = none;
        reason = reason;
      }
          ∷ []);
}

abbrev by_timer : Store
by_timer = moved_by ReleaseReason.expired HistoryActor.system acceptance_deadline_passed none

abbrev by_suspension : Store
by_suspension =
    moved_by ReleaseReason.cancelled HistoryActor.system requester_suspended
      (some (codes "requester suspended"))

history-same_example : history 5000 1 requester by_timer ≡ history 5000 1 requester by_suspension
unfolding find_history
history-same_example =
    history-same 5000 1 requester by_timer by_suspension (released ReleaseReason.expired)
      (released ReleaseReason.cancelled) refl refl refl
      (record { requester = refl; courier = refl; instructions = refl; status = refl })
      (inl refl, (inl refl, (inr (inl refl, inl refl, refl, refl, refl, refl), tt)))

strangers_refused_example :
    (get_by_id 5000 1 stranger store true ≡ raise private_order_forbidden)
    × (history 5000 1 stranger store ≡ raise private_order_forbidden)
    × (receipt 5000 1 stranger store ≡ raise private_order_forbidden)
strangers_refused_example = strangers_refused 5000 1 stranger store errand refl refl
