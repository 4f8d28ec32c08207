-- ===== src/Order/Service/Unseen.antt =====
-- order-service/src/orders/orders.service.ts: commands on an errand that the caller may not see, and the
-- decision of a dispute.
use foc_app.Common.{ℕ, ◌≡◌, Option, none, some, List, [], refl, arith, Option-cases, inl, inr}
use foc_app.Order.Types.{OrderRow, not_found}
use foc_app.Order.StateMachine.Decide.{Part}
use foc_app.Order.StateMachine.Table.{TransitionContext}
use foc_app.Order.Lifecycle.Store.{Store, Result, ok, err, Error, find_order, api_exception}
use foc_app.Order.Lifecycle.Shape.{CallerPatch}
use foc_app.Order.Lifecycle.Valid.{StoreValid}
use foc_app.Order.Lifecycle.Accept.{Acceptance, taken, not_taken, accept_using}
use foc_app.Order.Lifecycle.Acceptance.{AcceptOutcome, accept_using-AcceptOutcome}
use foc_app.Order.Lifecycle.Transition.{has_passed}
use foc_app.Order.Views.{Caller, OrderView, project_order}
use foc_app.Order.Service.{
  Context, Service, Request, raise, accept_order, accept_request, try_accept, command, user_command,
  resolve,
}
use foc_app.Order.Service.Outcomes.{
  IsFresh, IsRefusal, once-refused, missing, project_order-hidden, decision-StaysSeen,
  resolve_actor-is_user, CommandOutcome, command-CommandOutcome,
}

-- There is no such errand, or not for this caller.
abbrev pub IsUnseen : (now : ℕ) → Caller → Option OrderRow → Type 0
IsUnseen now c none = Unit {0}
IsUnseen now c (some o) = project_order now o c ≡ none

refusal_unseen :
    (now : ℕ) (c : Caller) (row : Option OrderRow) (e : Error)
    → IsUnseen now c row
    → IsRefusal now c (λ o. none) row e
    → e ≡ api_exception missing
refusal_unseen now c none e unseen told = told
refusal_unseen now c (some o) e unseen (inl raised) = cc
refusal_unseen now c (some o) e unseen (inr (inl gone)) = gone.1
refusal_unseen now c (some o) e unseen (inr (inr told)) = absurd (told.0 unseen)

module _ (hash : Request → ℕ) (x : Context) (s : Service) (valid : StoreValid s.tables)
    (fresh : IsFresh x.caller x.key s) where
  accept_run_unseen :
      (k v : ℕ) (r : Result (Acceptance × Store))
      → accept_using k x.caller.user_id v x.correlation x.clock s.tables ≡ r
      → AcceptOutcome k x.caller.user_id v x.clock s.tables r
      → IsUnseen x.now x.caller (find_order k s.tables.orders)
      → try_accept x (accept_request k v) s.tables ≡ ok (raise not_found, s.tables)
  accept_run_unseen k v (ok (taken next, t)) ran took unseen =
      let facts : TransitionContext = record {
        acceptance_deadline_passed = some (has_passed took.before.acceptance_deadline_at x.clock);
        delivery_period_passed = none;
        auto_confirmation_period_passed = none;
        requester_suspended = none;
        reason_provided = none;
        release_reason = none;
      } in
      let stays = decision-StaysSeen took.before.status _ _ facts (took.decided facts refl) refl in
      let hidden : project_order x.now took.before x.caller ≡ none = rw took.was at unseen in
      absurd (ground (arith, stays.0, project_order-hidden x.now took.before x.caller hidden))
  accept_run_unseen k v (err e) ran took unseen = elim took [ ]
  accept_run_unseen k v (ok (not_taken none, t)) ran (same, is_row, why) unseen =
      rw (ran, same) refl
  accept_run_unseen k v (ok (not_taken (some o), t)) ran (same, is_row, why) unseen =
      let hidden : project_order x.now o x.caller ≡ none = rw (← is_row) at unseen in
      rw (ran, same, hidden) refl

  accept_unseen :
      (k v : ℕ)
      → IsUnseen x.now x.caller (find_order k s.tables.orders)
      → accept_order hash x k v s ≡ (raise not_found, s)
  unfolding accept_order
  accept_unseen k v unseen =
      once-refused hash x.now x.caller (accept_request k v) (try_accept x (accept_request k v)) s
        x.key {x = missing} fresh
        (inl (
          accept_run_unseen k v (accept_using k x.caller.user_id v x.correlation x.clock s.tables)
            refl
            (accept_using-AcceptOutcome k x.caller.user_id v x.correlation x.clock s.tables valid)
            unseen))

  unseen_refused :
      (r : Request) (reply : Result OrderView × Service)
      → IsUnseen x.now x.caller (find_order r.order_id s.tables.orders)
      → CommandOutcome hash x r (user_command x r (λ o. none)) s reply
      → reply ≡ (raise not_found, s)
  unseen_refused r (ok v, s') unseen (next, d, moved, shown, creation, keys) =
      let stays =
        decision-StaysSeen moved.before.status _ _ _ moved.decided
          (resolve_actor-is_user moved.before x.caller.user_id x.caller.is_admin) in
      let hidden : project_order x.now moved.before x.caller ≡ none = rw moved.was at unseen in
      absurd (ground (arith, stays.0, project_order-hidden x.now moved.before x.caller hidden))
  unseen_refused r (err e, s') unseen (same, told) =
      rw (same, refusal_unseen x.now x.caller (find_order r.order_id s.tables.orders) e unseen told)
        refl

  command_unseen :
      (r : Request)
      → CallerPatch r.action []
      → IsUnseen x.now x.caller (find_order r.order_id s.tables.orders)
      → command hash x r (λ o. none) s ≡ (raise not_found, s)
  command_unseen r fits unseen =
      unseen_refused r (command hash x r (λ o. none) s) unseen
        (command-CommandOutcome hash x r (λ o. none) s (λ o e h. cc) valid fits fresh)

  resolve_unseen :
      (k : ℕ) (outcome : Part) (v : ℕ) (reason : List ℕ)
      → IsUnseen x.now x.caller (find_order k s.tables.orders)
      → resolve hash x k outcome v reason s ≡ (raise not_found, s)
  unfolding resolve
  resolve_unseen k outcome v reason unseen = elim (Option-cases (find_order k s.tables.orders)) [
    | inl gone ↦ rw gone refl
    | inr (o, was) ↦
        let hidden : project_order x.now o x.caller ≡ none = rw was at unseen in
        rw (was, hidden) refl
  ]

  -- Over valid tables, under no key or a new one: accepting an errand that the caller may not see,
  -- moving it by any action without a patch, or deciding it, answers just as if there were no such
  -- errand, and changes nothing.
  pub unseen_alike :
      (k v : ℕ) (r : Request) (outcome : Part) (reason : List ℕ)
      → r.order_id ≡ k
      → CallerPatch r.action []
      → IsUnseen x.now x.caller (find_order k s.tables.orders)
      → (accept_order hash x k v s ≡ (raise not_found, s))
        × (command hash x r (λ o. none) s ≡ (raise not_found, s))
        × (resolve hash x k outcome v reason s ≡ (raise not_found, s))
  unseen_alike k v r outcome reason own fits unseen = (
    accept_unseen k v unseen,
    command_unseen r fits (rw own unseen),
    resolve_unseen k outcome v reason unseen,
  )
