-- ===== src/Order/StateMachine/Laws.antt =====
-- order-service/src/orders/order-state-machine.ts: what every decision of the table satisfies.
use foc_app.Common.{
  ◌≡◌, refl, inl, inr, ap, subst, Bool, true, false, not, any, ◌&&◌, none, some, All, find,
  find-All, All-Mem, Memᴰ, ◌==◌, arith, Option-cases, is_some,
}
use mathlib.Core.Bool.{false≢true}
use foc_app.Order.Types.{
  OrderStatus, release_pending_credit, completion_pending_credit, is_terminal,
}
use foc_app.Order.StateMachine.Vocabulary.{
  OrderAction, OrderActor, EventType, order_status_changed, order_completion_requested,
  order_release_requested, status_index, action_index, event_index,
}
use foc_app.Order.StateMachine.Table.{
  TransitionContext, TransitionDecision, TransitionRule, order_transitions,
}
use foc_app.Order.StateMachine.Decide.{decide_transition, includes, passes, matches, decided}

-- Each rule decides its own case: no earlier rule of the table takes it first.
table_decides :
    All
      (λ r.
        (actor : OrderActor) (c : TransitionContext)
        → includes r.actors actor ≡ true
        → passes r.guard c ≡ true
        → decide_transition r.from r.action actor c ≡ some (r.decide c))
      order_transitions
unfolding decide_transition order_transitions
table_decides = ground arith

-- Every rule of the table takes effect: where its actor acts and its guard passes, the decision is
-- that rule's, so the order of the rules never hides one.
pub rule_decides :
    (r : TransitionRule) (actor : OrderActor) (c : TransitionContext)
    → Memᴰ r order_transitions
    → includes r.actors actor ≡ true
    → passes r.guard c ≡ true
    → decide_transition r.from r.action actor c ≡ some (r.decide c)
rule_decides r actor c m = All-Mem _ order_transitions table_decides m actor c

-- A status of `TERMINAL_ORDER_STATUSES` has no way out, for any action, actor and context.
pub terminal_final :
    (s : OrderStatus) (action : OrderAction) (actor : OrderActor) (c : TransitionContext)
    → is_terminal s ≡ true
    → decide_transition s action actor c ≡ none
unfolding decide_transition order_transitions
terminal_final OrderStatus.rejected action actor c h = refl
terminal_final OrderStatus.completed action actor c h = refl
terminal_final OrderStatus.cancelled action actor c h = refl
terminal_final OrderStatus.expired action actor c h = refl
terminal_final _ action actor c h = absurd (false≢true h)

status_index_injective : (s t : OrderStatus) → (status_index s == status_index t) ≡ true → s ≡ t
status_index_injective s t h = ground arith

action_index_injective : (a b : OrderAction) → (action_index a == action_index b) ≡ true → a ≡ b
action_index_injective a b h = ground arith

abbrev Holds :
    (OrderStatus → OrderAction → OrderActor → TransitionContext → TransitionDecision → Type 0)
    → TransitionRule
    → Type 0
Holds P r =
    (actor : OrderActor) (c : TransitionContext)
    → includes r.actors actor ≡ true
    → passes r.guard c ≡ true
    → P r.from r.action actor c (r.decide c)

and_split : (a b : Bool) → (a && b) ≡ true → (a ≡ true) × (b ≡ true)
and_split true b h = (refl, h)
and_split false b h = cc

module _
    (P : OrderStatus → OrderAction → OrderActor → TransitionContext → TransitionDecision → Type 0)
    (s : OrderStatus) (action : OrderAction) (actor : OrderActor) (c : TransitionContext) where
  law_of_match :
      (r : TransitionRule)
      → Holds P r
      → matches s action actor c r ≡ true
      → P s action actor c (r.decide c)
  law_of_match r law test =
      let (from_eq, rest) = and_split _ _ test in
      let (action_eq, rest') = and_split _ _ rest in
      let (actor_in, guarded) = and_split _ _ rest' in
      subst (λ a. P s a actor c (r.decide c)) (action_index_injective _ _ action_eq)
        (subst (λ t. P t r.action actor c (r.decide c)) (status_index_injective _ _ from_eq)
          (law actor c actor_in guarded))

  -- What every rule of the table satisfies, every decision satisfies.
  pub decision_of_rules :
      All (Holds P) order_transitions
      → {d : TransitionDecision} → decide_transition s action actor c ≡ some d
      → P s action actor c d
  unfolding decide_transition
  decision_of_rules rules {d} h =
      elim (Option-cases (find (matches s action actor c) order_transitions)) [
        | inl nothing ↦ absurd (none_decides nothing h)
        | inr (r, found) ↦
            let (law, test) =
              find-All (Holds P) (matches s action actor c) order_transitions rules found in
            subst (P s action actor c) (some_decides r found h) (law_of_match r law test)
      ]
    where
      none_decides :
          find (matches s action actor c) order_transitions ≡ none
          → decided c (find (matches s action actor c) order_transitions) ≡ some d
          → ⊥
      none_decides e h = cc (ap (decided c) e)

      some_decides :
          (r : TransitionRule)
          → find (matches s action actor c) order_transitions ≡ some r
          → decided c (find (matches s action actor c) order_transitions) ≡ some d
          → r.decide c ≡ d
      some_decides r e h = cc (ap (decided c) e)

-- Whether a decision announces an event.
abbrev pub emits : EventType → TransitionDecision → Bool
emits e d = any (λ f. event_index f == event_index e) d.emitted

pub record DecisionShape (s : OrderStatus) (d : TransitionDecision) : Type 0 where
  pub release_iff :
      emits order_release_requested d ≡ (status_index d.to == status_index release_pending_credit)
  pub completion_iff :
      emits order_completion_requested d
      ≡ (status_index d.to == status_index completion_pending_credit)
  pub reason_iff :
      is_some d.release_reason ≡ (status_index d.to == status_index release_pending_credit)
  pub announced_iff : emits order_status_changed d ≡ not (status_index d.to == status_index s)

-- A decision asks for a release exactly when it enters RELEASE_PENDING_CREDIT, and then names the
-- reason; it asks for completion exactly when it enters COMPLETION_PENDING_CREDIT; and it announces a
-- status change exactly when the status changes.
pub decision_shape :
    (s : OrderStatus) (action : OrderAction) (actor : OrderActor) (c : TransitionContext)
    {d : TransitionDecision}
    → decide_transition s action actor c ≡ some d
    → DecisionShape s d
unfolding order_transitions
decision_shape s action actor c =
    decision_of_rules (λ s _ _ _ d. DecisionShape s d) s action actor c (ground arith)
