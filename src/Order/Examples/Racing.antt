-- ===== src/Order/Examples/Racing.antt =====
-- order-service/src/orders/orders.repository.ts: a courier takes an errand and withdraws; another one, who
-- saw it before that, is late.
use foc_app.Common.{◌≡◌, refl, false, none, some, [], ◌∷◌, arith}
use foc_app.Order.StateMachine.Vocabulary.{OrderAction}
use foc_app.Order.StateMachine.Table.{order_transitions}
use foc_app.Order.StateMachine.Decide.{decide_transition}
use foc_app.Order.Lifecycle.Store.{Store, Result, ok, err, find_order}
use foc_app.Order.Lifecycle.Patch.{row_checks, timestamp_patch}
use foc_app.Order.Lifecycle.Transition.{
  CommandActor, TransitionCommand, TransitionResult, transition_using, next_row, apply_decision,
  record_move, emit_all, emitted_event, resolve_actor, context_of,
}
use foc_app.Order.Lifecycle.Accept.{
  not_taken, accept_using, accepted_row, record_acceptance, acceptable,
}
use foc_app.Order.Lifecycle.Race.{here, moves, version_taken_once}
use foc_app.Order.Examples.{errand, store, store-StoreValid, periods}

abbrev taken_store : Store
taken_store =
    record_acceptance 20 900 (accepted_row 20 3000 errand) (accepted_row 20 3000 errand ∷ []) store

abbrev withdraws : TransitionCommand
withdraws = record {
  order_id = 1;
  action = OrderAction.withdraw;
  actor = CommandActor.user 20 false;
  expected_version = some 3;
  correlation_id = 902;
  causation_id = none;
  now = none;
  verify = λ _. none;
  patch = [];
  reason = none;
  requester_suspended = none;
  after_apply = λ s _. ok s;
}

abbrev tables_of : Result (TransitionResult × Store) → Store
tables_of (ok (result, t)) = t
tables_of (err e) = store

abbrev reopened_store : Store
reopened_store = tables_of (transition_using periods 3500 withdraws taken_store)

-- The errand is open again, at version 4; the version that the second courier saw is gone.
version_taken_once_example :
    accept_using 1 21 2 901 3600 reopened_store
    ≡ ok (not_taken (find_order 1 reopened_store.orders), reopened_store)
unfolding accept_using row_checks accepted_row acceptable record_acceptance decide_transition
    order_transitions transition_using next_row apply_decision record_move emit_all emitted_event
    timestamp_patch resolve_actor context_of
version_taken_once_example =
    version_taken_once 1 20 2 900 3000 store store-StoreValid refl
      (moves here periods 3500 withdraws refl (λ s o. (refl, refl, refl)) refl) 21 2 901 3600
      (omega arith)
