-- ===== src/Order/Lifecycle/Transition/Command.antt =====
-- order-service/src/orders/orders.repository.ts: a lifecycle command, who sends it and what it may find.
use foc_app.Common.{
  ℕ, Bool, true, false, not, ◌&&◌, Option, none, some, List, [], ◌∷◌, any, leb, ◌==◌, if◌then◌else◌,
}
use foc_app.Common.Text.{trim}
use foc_app.Order.Types.{OrderRow}
use foc_app.Order.StateMachine.Vocabulary.{OrderAction, OrderActor, action_index}
use foc_app.Order.StateMachine.Table.{TransitionContext, TransitionDecision, order_transitions}
use foc_app.Order.StateMachine.Decide.{includes}
use foc_app.Order.Lifecycle.Store.{Store, Result, Error, HistoryActor}
use foc_app.Order.Lifecycle.Patch.{Column}

pub data CommandActor : Type 0 where
  user : (id : ℕ) → (is_admin : Bool) → CommandActor
  system : Option ℕ → CommandActor
  credit_service : ℕ → CommandActor

abbrev pub actor_id : CommandActor → Option ℕ
actor_id (CommandActor.user i admin) = some i
actor_id (CommandActor.system i) = i
actor_id (CommandActor.credit_service i) = some i

-- `verify` raises to refuse a command that the table allows; `after_apply` makes extra writes.
pub record TransitionCommand : Type 0 where
  pub order_id : ℕ
  pub action : OrderAction
  pub actor : CommandActor
  pub expected_version : Option ℕ
  pub correlation_id : ℕ
  pub causation_id : Option ℕ
  pub now : Option ℕ
  pub verify : OrderRow → Option Error
  pub patch : List Column
  pub reason : Option (List ℕ)
  pub requester_suspended : Option Bool
  pub after_apply : Store → OrderRow → Result Store

pub data Rejection : Type 0 where
  not_found forbidden invalid_state version_conflict : Rejection

pub data TransitionResult : Type 0 where
  applied : OrderRow → TransitionDecision → TransitionResult
  refused : Rejection → Option OrderRow → TransitionResult

abbrev is_id : Option ℕ → ℕ → Bool
is_id none i = false
is_id (some j) i = j == i

unfoldable pub resolve_actor : OrderRow → CommandActor → OrderActor
resolve_actor o (CommandActor.system i) = OrderActor.system
resolve_actor o (CommandActor.credit_service i) = OrderActor.credit_service
resolve_actor o (CommandActor.user i admin) =
    if o.requester_id == i
    then OrderActor.requester
    else if is_id o.courier_id i
    then OrderActor.assigned_courier
    else if admin
    then OrderActor.admin
    else OrderActor.other_student

-- `HISTORY_ACTOR`
abbrev pub history_actor : OrderActor → HistoryActor
history_actor OrderActor.requester = HistoryActor.requester
history_actor OrderActor.assigned_courier = HistoryActor.courier
history_actor OrderActor.other_student = HistoryActor.student
history_actor OrderActor.admin = HistoryActor.admin
history_actor OrderActor.credit_service = HistoryActor.credit_service
history_actor OrderActor.system = HistoryActor.system

-- A deadline that is set and not later than `now`.
abbrev pub has_passed : Option ℕ → ℕ → Bool
has_passed none now = false
has_passed (some t) now = leb t now

abbrev is_empty : List ℕ → Bool
is_empty [] = true
is_empty (c ∷ cs) = false

abbrev pub trimmed : Option (List ℕ) → Option (List ℕ)
trimmed none = none
trimmed (some r) = some (trim r)

-- `(command.reason?.trim() ?? '') !== ''`
abbrev reason_given : Option (List ℕ) → Bool
reason_given none = false
reason_given (some r) = not (is_empty (trim r))

unfoldable pub context_of : OrderRow → TransitionCommand → ℕ → TransitionContext
context_of o command now = record {
  acceptance_deadline_passed = some (has_passed o.acceptance_deadline_at now);
  delivery_period_passed = some (has_passed o.non_delivery_report_at now);
  auto_confirmation_period_passed = some (has_passed o.auto_confirm_at now);
  requester_suspended = command.requester_suspended;
  reason_provided = some (reason_given command.reason);
  release_reason = o.release_reason;
}

-- Why the table refused: whether any rule lets this actor take this action in another status.
unfoldable pub refusal : OrderAction → OrderActor → Rejection
unfolding order_transitions
refusal action actor =
    if any (λ r. (action_index r.action == action_index action) && includes r.actors actor)
      order_transitions
    then invalid_state
    else forbidden
