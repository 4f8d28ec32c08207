-- ===== src/Order/Examples/Commands.antt =====
-- order-service/src/orders/orders.service.ts: calls on one errand.
use foc_app.Common.{
  ℕ, Bool, true, false, Option, none, some, List, [], ◌∷◌, ◌≡◌, refl, arith, ◌==◌, if◌then◌else◌,
}
use foc_app.Order.Types.{
  not_found, idempotency_key_reused, pending_credit, disputed, open_, release_pending_credit,
  ReleaseReason,
}
use foc_app.Order.StateMachine.Vocabulary.{cancel}
use foc_app.Order.StateMachine.Decide.{Part, decide_transition}
use foc_app.Order.Lifecycle.Store.{Result, ok, err, find_order, supplier_unavailable}
use foc_app.Order.StateMachine.Table.{order_transitions}
use foc_app.Order.Lifecycle.Patch.{timestamp_patch, row_checks}
use foc_app.Order.Lifecycle.Transition.{
  transition_using, apply_decision, next_row, record_move, emit_all, emitted_event, resolve_actor,
  context_of,
}
use foc_app.Order.Lifecycle.Valid.{StoreValid}
use foc_app.Order.Views.{Caller, OrderView, project_order, public_order_view}
use foc_app.Order.Service.{
  Context, Service, Request, raise, once, with_command_key, accept_order, command, resolve,
  user_command, try_command,
}
use foc_app.Order.Service.Outcomes.{CommandOutcome, command-CommandOutcome}
use foc_app.Order.Service.Unseen.{unseen_alike}
use foc_app.Order.Service.Resolved.{Resolution, resolve-Resolution}
use foc_app.Order.Creation.{
  CreateOrderInput, create, created_view, create_pending, insert_order, insert_checks,
  pending_order,
}
use foc_app.Order.Creation.Created.{CreateOutcome, create-CreateOutcome}
use foc_app.Order.Calls.{Call, background, perform_all}
use foc_app.Order.Calls.Retried.{view_now, retried, posted_once}
use foc_app.Order.Examples.{shop, errand, entry, periods, store, store-StoreValid}

abbrev pub stranger : Caller
stranger = record { user_id = 30; is_admin = false }

abbrev pub requester : Caller
requester = record { user_id = 10; is_admin = false }

abbrev admin : Caller
admin = record { user_id = 40; is_admin = true }

abbrev sent_at : (clock : ℕ) → Caller → Option ℕ → Context
sent_at clock c key = record {
  periods = periods;
  clock = clock;
  now = clock;
  correlation = 900;
  caller = c;
  key = key;
}

abbrev service : Service
service = record { tables = store; creation_keys = []; command_keys = [] }

abbrev hash : Request → ℕ
hash r = r.expected_version

abbrev cancels : Request
cancels = record { order_id = 1; action = cancel; expected_version = 2; reason = none }

command-CommandOutcome_example :
    CommandOutcome hash
      (sent_at 3000 requester (some 7))
      cancels
      (user_command (sent_at 3000 requester (some 7)) cancels (λ o. none))
      service
      (command hash (sent_at 3000 requester (some 7)) cancels (λ o. none) service)
command-CommandOutcome_example =
    command-CommandOutcome hash (sent_at 3000 requester (some 7)) cancels (λ o. none) service
      (λ o e h. absurd (ground (arith, h))) store-StoreValid refl refl

-- The errand before its credits are reserved, hidden from all but its requester.
abbrev hidden : Service
hidden = record service {
  tables = record store {
    orders = record errand { status = pending_credit; version = 1 } ∷ [];
    history = entry pending_credit 1 ∷ [];
  };
}

hidden-StoreValid : StoreValid hidden.tables
hidden-StoreValid = record {
  rows = (ground arith, tt);
  unique = (refl, tt);
  counted = λ k o found. ground arith;
}

unseen_alike_example :
    (accept_order hash (sent_at 3000 stranger none) 1 2 hidden ≡ (raise not_found, hidden))
    × (command hash (sent_at 3000 stranger none) cancels (λ o. none) hidden
        ≡ (raise not_found, hidden))
    × (resolve hash (sent_at 3000 stranger none) 1 Part.courier 2 [] hidden
        ≡ (raise not_found, hidden))
unseen_alike_example =
    unseen_alike hash (sent_at 3000 stranger none) hidden hidden-StoreValid tt 1 2 cancels
      Part.courier [] refl refl (unfold project_order in refl)

-- A dispute that is referred to administrator 40.
abbrev referred : Service
referred = record service {
  tables = record store {
    orders =
        record errand {
          status = disputed;
          version = 3;
          courier_id = some 20;
          referred_admin_id = some 40;
          accepted_at = some 2000;
          picked_up_at = some 2500;
        }
        ∷ [];
    history = entry pending_credit 1 ∷ entry open_ 2 ∷ entry disputed 3 ∷ [];
  };
}

referred-StoreValid : StoreValid referred.tables
referred-StoreValid = record {
  rows = (ground arith, tt);
  unique = (refl, tt);
  counted = λ k o found. ground arith;
}

resolve-Resolution_example :
    Resolution hash
      (sent_at 4000 admin (some 8))
      1
      Part.courier
      3
      (65 ∷ [])
      referred
      (resolve hash (sent_at 4000 admin (some 8)) 1 Part.courier 3 (65 ∷ []) referred)
resolve-Resolution_example =
    resolve-Resolution hash (sent_at 4000 admin (some 8)) 1 Part.courier 3 (65 ∷ []) referred
      referred-StoreValid refl

abbrev input : CreateOrderInput
input = record {
  supplier_id = 5;
  items = record { name = "Tea"; quantity = 2; note = none } ∷ [];
  delivery_zone = "PGP";
  delivery_instructions = "Lobby";
  reward = 3;
}

abbrev create_hash : CreateOrderInput → ℕ
create_hash i = i.reward

create-CreateOutcome_example :
    CreateOutcome create_hash 2 4000 900
      (ok shop)
      requester
      9
      input
      service
      (create create_hash 2 4000 900 (ok shop) requester 9 input service)
create-CreateOutcome_example =
    create-CreateOutcome create_hash 2 4000 900 requester 9 input service (ok shop) store-StoreValid
      refl refl

abbrev view : OrderView
view = record (public_order_view 3000 errand) {
  items = [];
  status = release_pending_credit;
  version = 3;
  updated_at = 3000;
  requester_id = some 10;
  delivery_instructions = some "Lobby";
  release_reason = some ReleaseReason.cancelled;
}

abbrev first : Result OrderView × Service
first =
    once hash 3000 requester (some 7) cancels
      (try_command (sent_at 3000 requester (some 7)) cancels (λ o. none)) service

cancelled : first ≡ (ok view, first.1)
unfolding once with_command_key project_order public_order_view transition_using apply_decision
    next_row record_move emit_all emitted_event resolve_actor context_of timestamp_patch row_checks
    decide_transition order_transitions
cancelled = refl

-- The errand changes before the requester sends the cancellation again.
abbrev later : List Call
later = background (λ t. record t { orders = errand ∷ [] }) ∷ []

retried_example :
    once hash 5000 requester
      (some 7)
      cancels
      (λ t. ok (raise not_found, t))
      (perform_all hash create_hash later first.1)
    ≡ (
      if hash cancels == hash cancels
          then view_now 5000 requester
              (find_order 1 (perform_all hash create_hash later first.1).tables.orders)
          else raise idempotency_key_reused,
      perform_all hash create_hash later first.1,
    )
retried_example =
    retried hash create_hash 3000 5000 requester 7 cancels cancels
      (try_command (sent_at 3000 requester (some 7)) cancels (λ o. none))
      (λ t. ok (raise not_found, t)) service first.1 view later refl cancelled

abbrev posted : OrderView
posted = record (public_order_view 4000 (pending_order 2 4000 requester input shop)) {
  items = input.items;
  requester_id = some 10;
  delivery_instructions = some "Lobby";
}

abbrev creation : Result (OrderView × Bool) × Service
creation = create create_hash 2 4000 900 (ok shop) requester 9 input service

created : creation ≡ (ok (posted, false), creation.1)
unfolding create create_pending insert_order insert_checks pending_order project_order
    public_order_view row_checks
created = refl

-- The supplier service is down when the requester sends the errand again.
posted_once_example :
    create create_hash 3 6000 901 (err supplier_unavailable) requester 9 input creation.1 ≡ (
      if create_hash input == create_hash input
          then created_view 6000 requester (pending_order 2 4000 requester input shop) true
          else raise idempotency_key_reused,
      creation.1,
    )
posted_once_example =
    posted_once create_hash requester 9 input hash 2 4000 900 (ok shop) service creation.1
      (posted, false) [] refl created 3 6000 901 (err supplier_unavailable) input
      (pending_order 2 4000 requester input shop)
      (unfold create create_pending insert_order insert_checks pending_order project_order
          row_checks in
        refl)
