-- ===== src/Order/Service/Resolved.antt =====
-- order-service/src/orders/orders.service.ts: `resolve`, the decision of a dispute.
use foc_app.Common.{
  ℕ, ◌≡◌, Bool, true, false, some, List, [], any, refl, arith, ◌==◌, Option-cases, Bool-cases, inl,
  inr,
}
use foc_app.Order.Types.{
  OrderRow, OrderStatus, not_referred_admin, disputed, completion_pending_credit,
  release_pending_credit,
}
use foc_app.Order.StateMachine.Vocabulary.{OrderAction, OrderActor}
use foc_app.Order.StateMachine.Decide.{Part, decide_transition, resolve_action}
use foc_app.Order.StateMachine.Laws.{decision_of_rules}
use foc_app.Order.StateMachine.Table.{
  TransitionContext, TransitionDecision, order_transitions, truthy,
}
use foc_app.Order.Lifecycle.Store.{Result, ok, err, find_order}
use foc_app.Order.Lifecycle.Shape.{CallerPatch}
use foc_app.Order.Lifecycle.Valid.{StoreValid}
use foc_app.Order.Lifecycle.Transition.{CommandActor, TransitionCommand, resolve_actor, context_of}
use foc_app.Order.Lifecycle.Outcome.{Moved}
use foc_app.Order.Views.{OrderView, project_order}
use foc_app.Order.Service.{
  Context, Service, Request, command, user_command, resolve, resolve_request, is_referred,
  participants, to_list,
}
use foc_app.Order.Service.Outcomes.{IsFresh, RaisesApi, CommandOutcome, command-CommandOutcome}

abbrev pub resolved_to : Part → OrderStatus
resolved_to Part.courier = completion_pending_credit
resolved_to Part.requester = release_pending_credit

abbrev Decides :
    OrderStatus → OrderAction → OrderActor → TransitionContext → TransitionDecision → Type 0
Decides s action actor c d =
    (outcome : Part)
    → action ≡ resolve_action outcome
    → (s ≡ disputed)
      × (actor ≡ OrderActor.admin)
      × (truthy c.reason_provided ≡ true)
      × (d.to ≡ resolved_to outcome)

decision-Decides :
    (s : OrderStatus) (action : OrderAction) (actor : OrderActor) (c : TransitionContext)
    {d : TransitionDecision}
    → decide_transition s action actor c ≡ some d
    → Decides s action actor c d
unfolding order_transitions resolve_action
decision-Decides s action actor c = decision_of_rules Decides s action actor c (ground arith)

resolve_action-CallerPatch : (outcome : Part) → CallerPatch (resolve_action outcome) []
unfolding resolve_action
resolve_action-CallerPatch Part.courier = refl
resolve_action-CallerPatch Part.requester = refl

resolve_actor-admin :
    (o : OrderRow) (user : ℕ) (admin : Bool)
    → resolve_actor o (CommandActor.user user admin) ≡ OrderActor.admin
    → admin ≡ true
unfolding resolve_actor
resolve_actor-admin o user admin h = ground (arith, h)

module _ (hash : Request → ℕ) (x : Context) (k : ℕ) (outcome : Part) (v : ℕ) (reason : List ℕ)
    (s : Service) where
  abbrev decision : TransitionCommand
  decision = user_command x (resolve_request k outcome v reason) (is_referred x.caller)

  abbrev pub Resolution : Result OrderView × Service → Type 0
  Resolution (ok view, s') =
      (next : OrderRow) × (d : TransitionDecision) × (moved : Moved x.clock decision s.tables next d
        s'.tables)
      × (moved.before.status ≡ disputed)
      × (moved.before.referred_admin_id ≡ some x.caller.user_id)
      × (x.caller.is_admin ≡ true)
      × (any (λ u. u == x.caller.user_id) (participants k s.tables) ≡ false)
      × (truthy (context_of moved.before decision x.clock).reason_provided ≡ true)
      × (next.status ≡ resolved_to outcome)
      × (project_order x.now next x.caller ≡ some view)
  Resolution (err e, s') = s' ≡ s

  is_referred-RaisesApi : RaisesApi (is_referred x.caller)
  is_referred-RaisesApi o e h =
      elim (Bool-cases (any (λ a. a == x.caller.user_id) (to_list o.referred_admin_id))) [
        | inl own ↦ absurd (ground (arith, own, h))
        | inr other ↦ (
          record { code = not_referred_admin; details = some (o.status, o.version) },
          ground (arith, other, h),
        )
      ]

  decided-Resolution :
      (reply : Result OrderView × Service)
      → any (λ u. u == x.caller.user_id) (participants k s.tables) ≡ false
      → CommandOutcome hash x (resolve_request k outcome v reason) decision s reply
      → Resolution reply
  decided-Resolution (ok view, s') apart (next, d, moved, seen, creation, keys) =
      let rules = decision-Decides moved.before.status _ _ _ moved.decided outcome refl in
      (
        next,
        d,
        moved,
        rules.0,
        ground (arith, moved.checked),
        resolve_actor-admin moved.before x.caller.user_id x.caller.is_admin rules.1,
        apart,
        rules.2,
        rw moved.written.status_is rules.3,
        seen,
      )
  decided-Resolution (err e, s') apart (same, told) = same

  -- Over valid tables, under no key or a new one: a dispute is decided only by the administrator to whom
  -- it is referred, who has the role, gives a reason and never took part in the errand; then it goes to
  -- the side named, and the answer is this administrator's view of it. Otherwise nothing changes.
  pub resolve-Resolution :
      StoreValid s.tables
      → IsFresh x.caller x.key s
      → Resolution (resolve hash x k outcome v reason s)
  unfolding resolve
  resolve-Resolution valid fresh = elim (Option-cases (find_order k s.tables.orders)) [
    | inl gone ↦ rw gone refl
    | inr (o, was) ↦ elim (Option-cases (project_order x.now o x.caller)) [
      | inl unseen ↦ rw (was, unseen) refl
      | inr (view, seen) ↦
          elim (Bool-cases (any (λ u. u == x.caller.user_id) (participants k s.tables))) [
            | inl took_part ↦ rw (was, seen, took_part) refl
            | inr apart ↦
                rw (was, seen, apart)
                  (decided-Resolution
                    (command hash x (resolve_request k outcome v reason) (is_referred x.caller) s)
                    apart
                    (command-CommandOutcome hash x (resolve_request k outcome v reason)
                      (is_referred x.caller) s is_referred-RaisesApi valid
                      (resolve_action-CallerPatch outcome) fresh))
          ]
    ]
  ]
