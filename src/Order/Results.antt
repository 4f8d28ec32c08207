-- ===== src/Order/Results.antt =====
-- order-service/src/reservation-results.consumer.ts and credit-terminal-results.consumer.ts: what the
-- order service makes of the credit service's replies. The user service's answer about a suspension is
-- an argument, `directory`. A handler returns whether the errand changed.
use foc_app.Common.{
  ℕ, Bool, true, false, not, ◌&&◌, ◌||◌, Option, none, some, List, [], ◌∷◌, find, ltb, ◌==◌,
  if◌then◌else◌,
}
use foc_app.Order.Types.{
  OrderStatus, OrderRow, RejectionReason, insufficient_credits, amount_out_of_range, pending_credit,
  rejected,
}
use foc_app.Order.StateMachine.Vocabulary.{
  OrderAction, status_index, action_index, credit_reserved, credit_rejected, release_confirmed,
}
use foc_app.Order.Lifecycle.Store.{
  Store, Result, ok, err, Error, ◌>>=◌, HistoryRow, HistoryAction, find_order, unparseable,
  stale_event,
}
use foc_app.Order.Lifecycle.Patch.{
  Column, Periods, credit_transaction_id, rejection_reason, available_at_rejection, is_released,
}
use foc_app.Order.Lifecycle.Transition.{
  CommandActor, TransitionCommand, TransitionResult, applied, refused, transition_using,
}
pub mod Handled
pub mod Transfer

-- The fields of `Envelope` that the handlers read.
pub record Envelope (A : Type 0) : Type 0 where
  pub event_id : ℕ
  pub aggregate_id : ℕ
  pub correlation_id : ℕ
  pub payload : A

-- `CreditsReleasedPayload`
pub record CreditsReleasedPayload : Type 0 where
  pub order_id : ℕ
  pub requester_id : ℕ
  pub amount : ℕ
  pub transaction_id : ℕ

abbrev pub is_number : Option ℕ → ℕ → Bool
is_number none n = false
is_number (some m) n = m == n

-- `matches`
abbrev pub matches_release : CreditsReleasedPayload → OrderRow → Bool
matches_release payload o = (o.requester_id == payload.requester_id) && (o.reward == payload.amount)

-- A check that raises.
abbrev pub unless : Bool → Option Error
unless true = none
unless false = some unparseable

-- The command of a release confirmation. `actor` is the identifier of the credit service.
unfoldable pub release_command : (actor : ℕ) → Envelope CreditsReleasedPayload → TransitionCommand
release_command actor e = record {
  order_id = e.payload.order_id;
  action = release_confirmed;
  actor = CommandActor.credit_service actor;
  expected_version = none;
  correlation_id = e.correlation_id;
  causation_id = some e.event_id;
  now = none;
  verify = λ o. unless (matches_release e.payload o);
  patch = credit_transaction_id e.payload.transaction_id ∷ [];
  reason = none;
  requester_suspended = none;
  after_apply = λ s o. ok s;
}

-- Whether the errand was closed by this very release before.
abbrev pub is_duplicate : CreditsReleasedPayload → Option OrderRow → Bool
is_duplicate payload none = false
is_duplicate payload (some o) =
    is_released o.status
    && (is_number o.credit_transaction_id payload.transaction_id && matches_release payload o)

abbrev pub conclude_release :
    CreditsReleasedPayload → Result (TransitionResult × Store) → Result (Bool × Store)
conclude_release payload (err e) = err e
conclude_release payload (ok (applied o d, s)) = ok (true, s)
conclude_release payload (ok (refused reason found, s)) =
    if is_duplicate payload found then ok (false, s) else err unparseable

-- `CreditTerminalResultsConsumer.handleRelease`
unfoldable pub handle_release :
    (actor : ℕ)
    → Periods
    → (clock : ℕ) → Envelope CreditsReleasedPayload
    → Store
    → Result (Bool × Store)
handle_release actor p clock e s =
    if not (e.aggregate_id == e.payload.order_id)
    then err unparseable
    else conclude_release e.payload (transition_using p clock (release_command actor e) s)

-- The two replies to a reservation request, which share their first fields.
pub data Reply : Type 0 where
  credits_reserved : Reply
  credit_reservation_rejected : RejectionReason → (available : Option ℕ) → Reply

pub record ResultPayload : Type 0 where
  pub order_id : ℕ
  pub requester_id : ℕ
  pub amount : ℕ
  pub reply : Reply

abbrev pub has_status : OrderStatus → OrderRow → Bool
has_status s o = status_index o.status == status_index s

-- The requester is asked about only while the errand waits for its credits.
unfoldable pub ask_suspended : (ℕ → Result Bool) → OrderRow → Reply → Result (Option Bool)
ask_suspended directory o (credit_reservation_rejected reason available) = ok none
ask_suspended directory o credits_reserved =
    if has_status pending_credit o
    then (directory o.requester_id >>= λ suspended. ok (some suspended))
    else ok (some false)

-- `SUSPENSION_EFFECTS.REQUESTER.reason`, given with a suspended requester.
abbrev pub reason_for : (text : List ℕ) → Option Bool → Option (List ℕ)
reason_for text (some true) = some text
reason_for text _ = none

abbrev pub reply_action : Reply → OrderAction
reply_action credits_reserved = credit_reserved
reply_action (credit_reservation_rejected reason available) = credit_rejected

abbrev pub reply_patch : Reply → List Column
reply_patch credits_reserved = []
reply_patch (credit_reservation_rejected reason available) =
    rejection_reason reason ∷ available_at_rejection available ∷ []

unfoldable pub result_command :
    (actor : ℕ) (text : List ℕ)
    → Envelope ResultPayload
    → (suspended : Option Bool) → TransitionCommand
result_command actor text e suspended = record {
  order_id = e.payload.order_id;
  action = reply_action e.payload.reply;
  actor = CommandActor.credit_service actor;
  expected_version = none;
  correlation_id = e.correlation_id;
  causation_id = some e.event_id;
  now = none;
  verify = λ o. none;
  patch = reply_patch e.payload.reply;
  reason = reason_for text suspended;
  requester_suspended = suspended;
  after_apply = λ s o. ok s;
}

abbrev reason_index : RejectionReason → ℕ
reason_index insufficient_credits = 0
reason_index amount_out_of_range = 1
reason_index RejectionReason.conflicting_request = 2

abbrev is_reason : Option RejectionReason → RejectionReason → Bool
is_reason none r = false
is_reason (some q) r = reason_index q == reason_index r

abbrev same_number : Option ℕ → Option ℕ → Bool
same_number none none = true
same_number (some m) (some n) = m == n
same_number _ _ = false

-- `outcome.repeats`
unfoldable pub repeats : Reply → OrderRow → Bool
repeats credits_reserved o = not (has_status rejected o)
repeats (credit_reservation_rejected reason available) o =
    has_status rejected o
    && (is_reason o.rejection_reason reason && same_number o.available_at_rejection available)

abbrev is_reservation : ℕ → HistoryRow → Bool
is_reservation k h = (h.order_id == k) && elim h.action [
  | HistoryAction.create ↦ false
  | HistoryAction.transition a ↦ action_index a == action_index credit_reserved
]

-- `reservationAppliedAt`
abbrev pub reservation_applied_at : ℕ → List HistoryRow → Option HistoryRow
reservation_applied_at k rows = find (is_reservation k) rows

abbrev pub is_stale : Reply → OrderRow → Option HistoryRow → Bool
is_stale credits_reserved o (some h) = ltb h.order_version o.version
is_stale _ o _ = false

-- What a refused transition means: a stale repeat, a repeat, or a reply that fits no state.
abbrev pub conclude_result :
    Reply → OrderRow → Result (TransitionResult × Store) → Result (Bool × Store)
conclude_result reply o (err e) = err e
conclude_result reply o (ok (applied next d, s)) = ok (true, s)
conclude_result reply o (ok (refused reason found, s)) =
    if not (repeats reply o)
    then err unparseable
    else if is_stale reply o (reservation_applied_at o.order_id s.history)
    then err stale_event
    else ok (false, s)

-- `ReservationResultsConsumer.handle`, once the errand is locked.
unfoldable pub handle_locked :
    (actor : ℕ) (text : List ℕ) (directory : ℕ → Result Bool)
    → Periods
    → (clock : ℕ) → Envelope ResultPayload
    → Store
    → Option OrderRow
    → Result (Bool × Store)
handle_locked actor text directory p clock e s none = err unparseable
handle_locked actor text directory p clock e s (some o) =
    if not (o.requester_id == e.payload.requester_id) || not (o.reward == e.payload.amount)
    then err unparseable
    else (ask_suspended directory o e.payload.reply >>= λ suspended.
        conclude_result e.payload.reply o
          (transition_using p clock (result_command actor text e suspended) s))

-- `ReservationResultsConsumer.handle`
unfoldable pub handle_result :
    (actor : ℕ) (text : List ℕ) (directory : ℕ → Result Bool)
    → Periods
    → (clock : ℕ) → Envelope ResultPayload
    → Store
    → Result (Bool × Store)
handle_result actor text directory p clock e s =
    if not (e.aggregate_id == e.payload.order_id)
    then err unparseable
    else handle_locked actor text directory p clock e s (find_order e.payload.order_id s.orders)
