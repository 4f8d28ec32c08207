-- ===== src/Order/Lifecycle/Outcome.antt =====
-- order-service/src/orders/orders.repository.ts: what `transitionUsing` leaves behind on each branch.
use foc_app.Common.{
  ℕ, ◌≡◌, refl, sym, true, false, Option, none, some, List, [], ◌∷◌, ◌++◌, arith, Bool-cases, inl,
  inr, ◌==◌, ◌⊎◌, if◌then◌else◌,
}
use foc_app.Order.Types.{OrderRow}
use foc_app.Order.StateMachine.Vocabulary.{OrderActor}
use foc_app.Order.StateMachine.Table.{TransitionDecision}
use foc_app.Order.StateMachine.Decide.{decide_transition}
use foc_app.Order.StateMachine.Laws.{decision_shape}
use foc_app.Order.Lifecycle.Store.{
  Store, Result, ok, err, Error, ◌>>=◌, OutboxRow, find_order, put_order,
}
use foc_app.Order.Lifecycle.Patch.{Periods, has_courier}
use foc_app.Order.Lifecycle.Rows.{find_order-has_version, find_order-All, find_order-put_order}
use foc_app.Order.Lifecycle.Valid.{StoreValid, put-StoreValid}
use foc_app.Order.Lifecycle.Announce.{Announces, asks_completion, emit_all-Announces}
use foc_app.Order.Lifecycle.Shape.{RowShape, CallerPatch, Succeeds, Written, next_row-Moves}
use foc_app.Order.Lifecycle.Transition.{
  emit_all, TransitionCommand, TransitionResult, applied, refused, history_row, record_move,
  apply_decision, next_row, when_verified, when_decided, when_found, transition_using,
  resolve_actor, context_of, or_clock, version_differs,
}

-- What extra writes keep, unless they raise.
abbrev KeepsRows : Store → Result Store → Type 0
KeepsRows s (err e) = Unit
KeepsRows s (ok t) = (t.orders ≡ s.orders) × (t.history ≡ s.history) × (t.outbox ≡ s.outbox)

-- Extra writes that touch neither the errands, nor their history, nor the outbox.
abbrev pub IsQuiet : (Store → OrderRow → Result Store) → Type 0
IsQuiet f = (s : Store) (o : OrderRow) → KeepsRows s (f s o)

-- An applied command.
pub record Moved (clock : ℕ) (command : TransitionCommand) (s : Store) (next : OrderRow)
    (d : TransitionDecision) (s' : Store) : Type 0 where
  pub before : OrderRow
  pub was : find_order command.order_id s.orders ≡ some before
  pub decided :
      decide_transition before.status command.action
        (resolve_actor before command.actor)
        (context_of before command (or_clock command.now clock))
      ≡ some d
  pub expected : version_differs command.expected_version before.version ≡ false
  pub checked : command.verify before ≡ none
  pub written : Written before d next
  pub others :
      (j : ℕ)
      → find_order j s'.orders
        ≡ (if j == command.order_id then some next else find_order j s.orders)
  pub history :
      s'.history
      ≡ s.history
        ++ (history_row command
              (resolve_actor before command.actor)
              (or_clock command.now clock)
              before
              next
            ∷ [])
  pub events : List OutboxRow
  pub outbox : s'.outbox ≡ s.outbox ++ events
  pub announced : Announces command before next (or_clock command.now clock) d.emitted events
  pub after :
      (t : Store) × (t.receipts ≡ s.receipts)
      × Succeeds (λ t'. s'.receipts ≡ t'.receipts) (command.after_apply t next)
  pub valid : StoreValid s'

-- What raised: the command's own check, or its extra writes after the update.
abbrev pub Raised : ℕ → TransitionCommand → Store → OrderRow → Error → Type 0
Raised clock command s o e =
    (command.verify o ≡ some e)
    ⊎ ((t : Store) × (next : OrderRow) × (d : TransitionDecision) × (t.receipts ≡ s.receipts)
        × (decide_transition o.status command.action (resolve_actor o command.actor)
              (context_of o command (or_clock command.now clock))
            ≡ some d)
        × Written o d next
        × (command.after_apply t next ≡ err e)
        × (p : Periods) × (next_row p command d (or_clock command.now clock) o ≡ ok next))

abbrev pub Outcome : ℕ → TransitionCommand → Store → Result (TransitionResult × Store) → Type 0
Outcome clock command s (ok (applied next d, s')) = Moved clock command s next d s'
Outcome clock command s (ok (refused reason found, s')) =
    (s' ≡ s) × (found ≡ find_order command.order_id s.orders)
Outcome clock command s (err e) =
    (o : OrderRow) × (find_order command.order_id s.orders ≡ some o) × Raised clock command s o e

succeeded {ℓ} :
    {A : Type ℓ} (Q : A → Type 0) (r : Result A) → Succeeds Q r → (a : A) × (r ≡ ok a) × Q a
succeeded Q (ok a) h = (a, refl, h)
succeeded Q (err e) h = absurd h

module _ (p : Periods) (clock : ℕ) (command : TransitionCommand) (s : Store) (valid : StoreValid s)
    (fits : CallerPatch command.action command.patch) (quiet : IsQuiet command.after_apply)
    (o : OrderRow) (was : find_order command.order_id s.orders ≡ some o) (d : TransitionDecision)
    (decided : decide_transition o.status command.action
        (resolve_actor o command.actor)
        (context_of o command (or_clock command.now clock))
      ≡ some d)
    (expected : version_differs command.expected_version o.version ≡ false) where
  now : ℕ
  now = or_clock command.now clock

  actor : OrderActor
  actor = resolve_actor o command.actor

  completion_has_courier :
      (next : OrderRow)
      → Written o d next
      → asks_completion d.emitted ≡ true
      → has_courier next.status ≡ true
  completion_has_courier next w asked = ground (
    arith,
    w.status_is,
    decision_shape o.status command.action (resolve_actor o command.actor)
        (context_of o command (or_clock command.now clock)) decided,
  )

  pub moved_store : OrderRow → Store
  moved_store next = record s {
    orders = put_order o.order_id o.version next s.orders;
    history = s.history ++ (history_row command actor now o next ∷ []);
  }

  recorded-Moved :
      (next : OrderRow)
      → command.verify o ≡ none
      → Written o d next
      → next_row p command d now o ≡ ok next
      → (r : Result Store) → command.after_apply (moved_store next) next ≡ r
      → KeepsRows (moved_store next) r
      → Outcome clock command s
          (r >>= λ s'. emit_all command d.emitted o next now s' >>= λ s''. ok (applied next d, s''))
  unfolding moved_store now actor
  recorded-Moved next checked w made (err x) ran kept =
      (o, was, inr (moved_store next, next, d, refl, decided, w, ran, p, made))
  recorded-Moved next checked w made (ok s2) ran kept =
      let (events, sent, all) =
        emit_all-Announces command d.emitted o next now s2
          (λ asked. w.shape.courier_set (completion_has_courier next w asked)) in
      rw sent (record {
        before = o;
        was = was;
        decided = decided;
        expected = expected;
        checked = checked;
        written = w;
        others =
            λ j. rw kept.0 (find_order-put_order command.order_id o next s.orders j was w.id_kept);
        history = kept.1;
        events = events;
        outbox = rw kept.2;
        announced = all;
        after = (moved_store next, refl, rw ran refl);
        valid =
            put-StoreValid command.order_id o next (history_row command actor now o next) s _ valid
              was w.shape w.id_kept w.version_is refl kept.0 kept.1;
      })

  record_move-Moved :
      (next : OrderRow)
      → command.verify o ≡ none
      → Written o d next
      → next_row p command d now o ≡ ok next
      → Outcome clock command s (record_move command actor d now o next s)
  unfolding record_move moved_store now actor
  record_move-Moved next checked w made =
      recorded-Moved next checked w made (command.after_apply (moved_store next) next) refl
        (quiet (moved_store next) next)

  apply_decision-Outcome :
      command.verify o ≡ none → Outcome clock command s (apply_decision p command actor d now o s)
  unfolding apply_decision now actor
  apply_decision-Outcome checked =
      let (next, ran, w) = succeeded _ (next_row p command d now o) (
        next_row-Moves o.status command.action actor (context_of o command now) decided p command
          now o refl fits refl
          (find_order-All RowShape command.order_id s.orders valid.rows was)) in
      rw (ran, find_order-has_version command.order_id s.orders was, w.checks)
        (record_move-Moved next checked w ran)

  when_verified-Outcome :
      (refusal : Option Error)
      → command.verify o ≡ refusal
      → Outcome clock command s (when_verified p command d now o s refusal)
  unfolding now actor
  when_verified-Outcome none e = apply_decision-Outcome e
  when_verified-Outcome (some x) e = (o, was, inl e)

module _ (p : Periods) (clock : ℕ) (command : TransitionCommand) (s : Store) (valid : StoreValid s)
    (fits : CallerPatch command.action command.patch) (quiet : IsQuiet command.after_apply) where
  when_decided-Outcome :
      (o : OrderRow) (was : find_order command.order_id s.orders ≡ some o)
      → (decision : Option TransitionDecision)
      → decide_transition o.status command.action
          (resolve_actor o command.actor)
          (context_of o command (or_clock command.now clock))
        ≡ decision
      → Outcome clock command s (when_decided p command (or_clock command.now clock) o s decision)
  when_decided-Outcome o was none e = (refl, sym was)
  when_decided-Outcome o was (some d) e =
      elim (Bool-cases (version_differs command.expected_version o.version)) [
        | inl stale ↦ rw stale (refl, sym was)
        | inr fresh ↦ rw fresh (
            unfold now in
            when_verified-Outcome p clock command s valid fits quiet o was d e fresh
              (command.verify o) refl)
      ]

  when_found-Outcome :
      (found : Option OrderRow)
      → find_order command.order_id s.orders ≡ found
      → Outcome clock command s (when_found p clock command s found)
  when_found-Outcome none e = (refl, sym e)
  when_found-Outcome (some o) e = when_decided-Outcome o e _ refl

  -- Over a valid store, a command that a service sends either moves exactly its own errand, by a
  -- decision of the table on the row as it was, to a row of the right shape with the version one
  -- higher, one history row and the events of the decision, and the store stays valid; or it is
  -- refused and the store is unchanged; or it raises what its own check or its extra writes
  -- raised.
  pub transition_using-Outcome : Outcome clock command s (transition_using p clock command s)
  unfolding transition_using
  transition_using-Outcome = when_found-Outcome (find_order command.order_id s.orders) refl
