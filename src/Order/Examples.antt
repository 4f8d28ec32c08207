-- ===== src/Order/Examples.antt =====
-- One errand followed through its life: the theorems at concrete rows.
mod Nudges
mod Commands
mod Replies
mod Reading
mod Racing
use foc_app.Common.{ℕ, ◌≡◌, refl, true, false, none, some, [], ◌∷◌, Memᴰ, arith}
use foc_app.Order.Types.{
  OrderStatus, OrderRow, SupplierSnapshot, pending_credit, open_, accepted, picked_up, delivered,
  disputed, completion_pending_credit, completed,
}
use foc_app.Order.StateMachine.Vocabulary.{
  order_status_changed, order_completion_requested, delivery_period_passed, credit_rejected, accept,
  confirm_receipt, cancel,
}
use foc_app.Order.StateMachine.Table.{TransitionContext}
use foc_app.Order.StateMachine.Decide.{suspension_action, Part}
use foc_app.Order.StateMachine.Laws.{DecisionShape, rule_decides, terminal_final, decision_shape}
use foc_app.Order.StateMachine.Authority.{
  DecisionAuthority, decision_authority, suspension_decides, next_status,
}
use foc_app.Order.StateMachine.Progress.{Ends, every_status-Ends}
use foc_app.Order.Lifecycle.Store.{Store, ok, HistoryRow, HistoryAction, HistoryActor}
use foc_app.Order.Lifecycle.Patch.{Periods, row_checks}
use foc_app.Order.Lifecycle.Valid.{StoreValid}
use foc_app.Order.Lifecycle.Outcome.{Outcome, transition_using-Outcome}
use foc_app.Order.Lifecycle.Accept.{
  not_taken, accept_using, accepted_row, record_acceptance, acceptable,
}
use foc_app.Order.Lifecycle.Acceptance.{AcceptOutcome, accept_using-AcceptOutcome, accepted_once}
use foc_app.Order.Lifecycle.Transition.{CommandActor, TransitionCommand, transition_using}

abbrev no_facts : TransitionContext
no_facts = record {
  acceptance_deadline_passed = none;
  delivery_period_passed = none;
  auto_confirmation_period_passed = none;
  requester_suspended = some true;
  reason_provided = none;
  release_reason = none;
}

abbrev late : TransitionContext
late = record no_facts { delivery_period_passed = some true }

abbrev shop : SupplierSnapshot
shop = record {
  supplier_id = 70;
  name = "Deck";
  kind = "FOOD";
  building = "AS1";
  floor = "1";
  location_description = "Canteen";
}

abbrev pub errand : OrderRow
errand = record {
  order_id = 1;
  requester_id = 10;
  courier_id = none;
  referred_admin_id = none;
  supplier_snapshot = shop;
  items = [];
  delivery_zone = "PGP";
  delivery_instructions = "Lobby";
  reward = 3;
  status = open_;
  release_reason = none;
  rejection_reason = none;
  available_at_rejection = none;
  version = 2;
  acceptance_deadline_at = some 5000;
  accepted_at = none;
  picked_up_at = none;
  delivered_at = none;
  non_delivery_report_at = none;
  auto_confirm_at = none;
  completion_requested_at = none;
  completed_at = none;
  release_requested_at = none;
  released_at = none;
  credit_transaction_id = none;
  created_at = 1000;
  updated_at = 2000;
}

abbrev pub entry : OrderStatus → ℕ → HistoryRow
entry s v = record {
  order_id = 1;
  previous_status = none;
  new_status = s;
  action = HistoryAction.create;
  actor_type = HistoryActor.requester;
  actor_id = some 10;
  reason = none;
  order_version = v;
  occurred_at = 1000;
}

abbrev pub store : Store
store = record {
  orders = errand ∷ [];
  history = entry pending_credit 1 ∷ entry open_ 2 ∷ [];
  outbox = [];
  receipts = [];
}

pub store-StoreValid : StoreValid store
store-StoreValid = record {
  rows = (ground arith, tt);
  unique = (refl, tt);
  counted = λ k o found. ground arith;
}

abbrev cancels : TransitionCommand
cancels = record {
  order_id = 1;
  action = cancel;
  actor = CommandActor.user 10 false;
  expected_version = some 2;
  correlation_id = 900;
  causation_id = none;
  now = none;
  verify = λ _. none;
  patch = [];
  reason = none;
  requester_suspended = none;
  after_apply = λ s _. ok s;
}

abbrev pub periods : Periods
periods = record { delivery_period = 3600; acceptance_window = 3600; auto_confirm = 3600 }

transition_using-Outcome_example :
    Outcome 3000 cancels store (transition_using periods 3000 cancels store)
transition_using-Outcome_example =
    transition_using-Outcome periods 3000 cancels store store-StoreValid refl
      (λ s o. (refl, refl, refl))

accept_using-AcceptOutcome_example :
    AcceptOutcome 1 20 2 3000 store (accept_using 1 20 2 900 3000 store)
accept_using-AcceptOutcome_example =
    accept_using-AcceptOutcome 1 20 2 900 3000 store store-StoreValid

-- The second courier of a race is told the row that the first one wrote.
accepted_once_example :
    accept_using 1 21 3 901 3001 (
      record_acceptance 20 900
        (accepted_row 20 3000 errand)
        (accepted_row 20 3000 errand ∷ [])
        store)
    ≡ ok (
      not_taken (some (accepted_row 20 3000 errand)),
      record_acceptance 20 900
          (accepted_row 20 3000 errand)
          (accepted_row 20 3000 errand ∷ [])
          store,
    )
unfolding accept_using row_checks accepted_row acceptable record_acceptance
accepted_once_example = accepted_once 1 20 2 900 3000 store store-StoreValid refl 21 3 901 3001
