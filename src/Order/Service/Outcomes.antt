-- ===== src/Order/Service/Outcomes.antt =====
-- order-service/src/orders/orders.service.ts: what a command of a user leaves behind.
use foc_app.Common.{
  ℕ, ◌≡◌, ◌≢◌, ◌⊎◌, Bool, true, false, Option, none, some, List, [], ◌∷◌, ◌++◌, refl, sym, ap,
  arith, Bool-cases, Option-cases, inl, inr,
}
use foc_app.Order.Types.{
  OrderRow, OrderStatus, ApiCode, ApiException, not_found, invalid_order_state,
  delivery_period_not_passed, auto_confirmation_passed, action_forbidden, order_changed, picked_up,
  delivered,
}
use foc_app.Order.StateMachine.Vocabulary.{
  OrderAction, OrderActor, report_non_delivery, report_non_receipt,
}
use foc_app.Order.StateMachine.Decide.{decide_transition}
use foc_app.Order.StateMachine.Laws.{decision_of_rules}
use foc_app.Order.StateMachine.Table.{TransitionContext, TransitionDecision, order_transitions}
use foc_app.Order.Lifecycle.Store.{Store, Result, ok, err, Error, find_order, api_exception}
use foc_app.Order.Lifecycle.Shape.{CallerPatch}
use foc_app.Order.Lifecycle.Valid.{StoreValid}
use foc_app.Order.Lifecycle.Transition.{
  CommandActor, TransitionCommand, TransitionResult, Rejection, forbidden, version_conflict,
  invalid_state, applied, refused, transition_using, resolve_actor,
}
use foc_app.Order.Lifecycle.Outcome.{Moved, Outcome, transition_using-Outcome}
use foc_app.Order.Views.{Caller, OrderView, is_hidden, project_order}
use foc_app.Order.Service.{
  Context, KeyRow, Service, Request, Attempt, find_key, answer, once, key_row, with_command_key,
  user_command, try_command, command, refuse_command, refuse, state_refusal, deadline_refusal,
  is_in,
}

abbrev pub is_user : OrderActor → Bool
is_user OrderActor.system = false
is_user OrderActor.credit_service = false
is_user _ = true

abbrev pub StaysSeen :
    OrderStatus → OrderAction → OrderActor → TransitionContext → TransitionDecision → Type 0
StaysSeen s action actor c d =
    is_user actor ≡ true → (is_hidden s ≡ false) × (is_hidden d.to ≡ false)

-- No user moves a pending or rejected request, nor makes one of another errand.
pub decision-StaysSeen :
    (s : OrderStatus) (action : OrderAction) (actor : OrderActor) (c : TransitionContext)
    {d : TransitionDecision}
    → decide_transition s action actor c ≡ some d
    → StaysSeen s action actor c d
unfolding order_transitions
decision-StaysSeen s action actor c = decision_of_rules StaysSeen s action actor c (ground arith)

pub resolve_actor-is_user :
    (o : OrderRow) (user : ℕ) (admin : Bool)
    → is_user (resolve_actor o (CommandActor.user user admin)) ≡ true
unfolding resolve_actor
resolve_actor-is_user o user admin = ground arith

pub project_order-hidden :
    (now : ℕ) (o : OrderRow) (c : Caller) → project_order now o c ≡ none → is_hidden o.status ≡ true
unfolding project_order
project_order-hidden now o c h = ground (arith, h)

pub project_order-seen :
    (now : ℕ) (o : OrderRow) (c : Caller)
    → is_hidden o.status ≡ false
    → (v : OrderView) × (project_order now o c ≡ some v)
project_order-seen now o c h = elim (Option-cases (project_order now o c)) [
  | inl unseen ↦ absurd (ground (arith, h, project_order-hidden now o c unseen))
  | inr seen ↦ seen
]

-- The caller did not use this key before.
abbrev pub IsFresh : Caller → Option ℕ → Service → Type 0
IsFresh c none s = Unit {0}
IsFresh c (some key) s = find_key c.user_id key s.command_keys ≡ none

-- The keys after an answered call.
abbrev pub keys_after : (Request → ℕ) → Caller → Option ℕ → Request → List KeyRow → List KeyRow
keys_after hash c none r rows = rows
keys_after hash c (some key) r rows = rows ++ (key_row hash c key r ∷ [])

module _ (hash : Request → ℕ) (now : ℕ) (c : Caller) (r : Request) (run : Attempt)
    (s : Service) where
  pub once-answered :
      (key : Option ℕ) {v : OrderView} {t : Store}
      → IsFresh c key s
      → run s.tables ≡ ok (ok v, t)
      → once hash now c key r run s
        ≡ (ok v, record s { tables = t; command_keys = keys_after hash c key r s.command_keys })
  unfolding once with_command_key
  once-answered none fresh ran = rw ran refl
  once-answered (some key) fresh ran = ground (arith, fresh, ran)

  pub once-refused :
      (key : Option ℕ) {x : ApiException}
      → IsFresh c key s
      → (run s.tables ≡ ok (err (api_exception x), s.tables))
        ⊎ (run s.tables ≡ err (api_exception x))
      → once hash now c key r run s ≡ (err (api_exception x), s)
  unfolding once with_command_key
  once-refused none fresh (inl ran) = rw ran refl
  once-refused (some key) fresh (inl ran) = ground (arith, fresh, ran)
  once-refused none fresh (inr ran) = rw ran refl
  once-refused (some key) fresh (inr ran) = ground (arith, fresh, ran)

abbrev pub missing : ApiException
missing = record { code = not_found; details = none }

-- What a refusal tells: what the command's own check raised; or that there is no errand, of one that
-- is missing or not the caller's to see; or else the current status and version, with the reason.
abbrev pub IsRefusal :
    (now : ℕ) → Caller → (OrderRow → Option Error) → Option OrderRow → Error → Type 0
IsRefusal now c verify none e = e ≡ api_exception missing
IsRefusal now c verify (some o) e =
    (verify o ≡ some e)
    ⊎ (((project_order now o c ≡ none) × (e ≡ api_exception missing))
        ⊎ ((project_order now o c ≢ none)
            × (code : ApiCode) × (code ≢ not_found)
            × (e ≡ api_exception (record { code = code; details = some (o.status, o.version) }))))

-- A check that raises nothing but `ApiException`s.
abbrev pub RaisesApi : (OrderRow → Option Error) → Type 0
RaisesApi verify =
    (o : OrderRow) (e : Error) → verify o ≡ some e → (x : ApiException) × (e ≡ api_exception x)

abbrev pub CommandOutcome :
    (Request → ℕ)
    → Context
    → Request
    → TransitionCommand
    → Service
    → Result OrderView × Service
    → Type 0
CommandOutcome hash x r cmd s (ok v, s') =
    (next : OrderRow) × (d : TransitionDecision) × Moved x.clock cmd s.tables next d s'.tables
    × (project_order x.now next x.caller ≡ some v)
    × (s'.creation_keys ≡ s.creation_keys)
    × (s'.command_keys ≡ keys_after hash x.caller x.key r s.command_keys)
CommandOutcome hash x r cmd s (err e, s') =
    (s' ≡ s) × IsRefusal x.now x.caller cmd.verify (find_order cmd.order_id s.tables.orders) e

abbrev IsTold : OrderRow → Result OrderView → Type 0
IsTold o reply = (code : ApiCode) × (code ≢ not_found) × (reply ≡ refuse code o)

state_refusal-IsTold :
    (action : OrderAction) (o : OrderRow) → IsTold o (state_refusal (deadline_refusal action) o)
state_refusal-IsTold report_non_delivery o = elim (Bool-cases (is_in picked_up o)) [
  | inl here ↦ (delivery_period_not_passed, cc, rw here refl)
  | inr other ↦ (invalid_order_state, cc, rw other refl)
]
state_refusal-IsTold report_non_receipt o = elim (Bool-cases (is_in delivered o)) [
  | inl here ↦ (auto_confirmation_passed, cc, rw here refl)
  | inr other ↦ (invalid_order_state, cc, rw other refl)
]
state_refusal-IsTold _ o = (invalid_order_state, cc, refl)

refuse_command-IsTold :
    (reason : Rejection) (action : OrderAction) (o : OrderRow)
    → IsTold o (refuse_command reason action o)
refuse_command-IsTold forbidden action o = (action_forbidden, cc, refl)
refuse_command-IsTold version_conflict action o = (order_changed, cc, refl)
refuse_command-IsTold invalid_state action o = state_refusal-IsTold action o
refuse_command-IsTold Rejection.not_found action o = state_refusal-IsTold action o

module _ (hash : Request → ℕ) (x : Context) (r : Request) (verify : OrderRow → Option Error)
    (s : Service) where
  abbrev cmd : TransitionCommand
  cmd = user_command x r verify

  run : Attempt
  run = try_command x r verify

  refused-CommandOutcome :
      (e : ApiException)
      → IsFresh x.caller x.key s
      → (run s.tables ≡ ok (err (api_exception e), s.tables))
        ⊎ (run s.tables ≡ err (api_exception e))
      → IsRefusal x.now x.caller verify (find_order r.order_id s.tables.orders) (api_exception e)
      → CommandOutcome hash x r cmd s (once hash x.now x.caller x.key r run s)
  refused-CommandOutcome e fresh ran told =
      rw (once-refused hash x.now x.caller r run s x.key fresh ran) (refl, told)

  answered_run :
      {result : TransitionResult} {t : Store}
      → transition_using x.periods x.clock cmd s.tables ≡ ok (result, t)
      → run s.tables ≡ ok (answer x.now r.action x.caller result, t)
  unfolding run
  answered_run ran = rw ran refl

  refused_run-CommandOutcome :
      (reason : Rejection) (o : OrderRow) {t : Store}
      → IsFresh x.caller x.key s
      → find_order r.order_id s.tables.orders ≡ some o
      → transition_using x.periods x.clock cmd s.tables ≡ ok (refused reason (some o), t)
      → t ≡ s.tables
      → CommandOutcome hash x r cmd s (once hash x.now x.caller x.key r run s)
  refused_run-CommandOutcome reason o fresh was ran same =
      elim (Option-cases (project_order x.now o x.caller)) [
        | inl unseen ↦
            refused-CommandOutcome missing fresh (inl (rw (answered_run ran, unseen, same) refl))
              (rw was (inr (inl (unseen, refl))))
        | inr (v, seen) ↦
            let (code, other, told) = refuse_command-IsTold reason r.action o in
            refused-CommandOutcome (record { code = code; details = some (o.status, o.version) })
              fresh (inl (rw (answered_run ran, seen, same, told) refl))
              (rw was (inr (inr (ground (arith, seen), code, other, refl))))
      ]

  applied_run-CommandOutcome :
      (next : OrderRow) (d : TransitionDecision) (t : Store)
      → IsFresh x.caller x.key s
      → transition_using x.periods x.clock cmd s.tables ≡ ok (applied next d, t)
      → Moved x.clock cmd s.tables next d t
      → CommandOutcome hash x r cmd s (once hash x.now x.caller x.key r run s)
  applied_run-CommandOutcome next d t fresh ran moved =
      let stays =
        decision-StaysSeen moved.before.status _ _ _ moved.decided
          (resolve_actor-is_user moved.before x.caller.user_id x.caller.is_admin) in
      let (v, seen) = project_order-seen x.now next x.caller (rw moved.written.status_is stays.1) in
      rw
        (once-answered hash x.now x.caller r run s x.key {v = v} {t = t} fresh
          (rw (answered_run ran, seen) refl))
        (next, d, moved, seen, refl, refl)

  ran-CommandOutcome :
      RaisesApi verify
      → IsFresh x.caller x.key s
      → (result : Result (TransitionResult × Store))
      → transition_using x.periods x.clock cmd s.tables ≡ result
      → Outcome x.clock cmd s.tables result
      → CommandOutcome hash x r cmd s (once hash x.now x.caller x.key r run s)
  unfolding run
  ran-CommandOutcome api fresh (ok (applied next d, t)) ran moved =
      applied_run-CommandOutcome next d t fresh ran moved
  ran-CommandOutcome api fresh (ok (refused reason none, t)) ran same =
      refused-CommandOutcome missing fresh (inl (rw (answered_run ran, same.0) refl))
        (rw (← same.1) refl)
  ran-CommandOutcome api fresh (ok (refused reason (some o), t)) ran same =
      refused_run-CommandOutcome reason o fresh (sym same.1) ran same.0
  ran-CommandOutcome api fresh (err thrown) ran (o, was, inl raised) =
      let (e, is_api) = api o thrown raised in
      refused-CommandOutcome e fresh (inr (rw ran (ap err is_api)))
        (rw was (inl (rw is_api at raised)))
  ran-CommandOutcome api fresh (err thrown) ran
        (o, was, inr (u, next, d, same, decided, w, raised, p, made)) =
      cc

  -- Over valid tables, under no key or a new one, a user's command with no patch of its own, whose
  -- check raises nothing but ApiExceptions, either moves exactly its errand by a decision of the table,
  -- records its key and answers with the caller's view of the row it wrote; or changes nothing, and
  -- raises what its check raised, or that there is no such errand, when the caller may not see it, or
  -- else a reason with the current status and version.
  pub command-CommandOutcome :
      RaisesApi verify
      → StoreValid s.tables
      → CallerPatch r.action []
      → IsFresh x.caller x.key s
      → CommandOutcome hash x r cmd s (command hash x r verify s)
  unfolding run command
  command-CommandOutcome api valid fits fresh =
      ran-CommandOutcome api fresh (transition_using x.periods x.clock cmd s.tables) refl (
        transition_using-Outcome x.periods x.clock cmd s.tables valid fits
          (λ t o. (refl, refl, refl)))
