-- ===== src/Order/Results/Handled.antt =====
-- order-service/src/reservation-results.consumer.ts and credit-terminal-results.consumer.ts: what each
-- reply leaves behind.
use foc_app.Common.{
  ℕ, ◌≡◌, ◌≢◌, ◌<◌, ◌⊎◌, [], ◌∷◌, Option-cases, Bool, true, false, not, Option, none, some, List,
  ◌==◌, ◌||◌, refl, arith, Bool-cases, inl, inr,
}
use foc_app.Order.Types.{OrderRow, OrderStatus, release_pending_credit, rejected}
use foc_app.Order.StateMachine.Vocabulary.{
  OrderAction, OrderActor, release_confirmed, credit_reserved,
}
use foc_app.Order.StateMachine.Decide.{decide_transition}
use foc_app.Order.StateMachine.Laws.{decision_of_rules}
use foc_app.Order.StateMachine.Table.{TransitionContext, TransitionDecision, order_transitions}
use foc_app.Order.Lifecycle.Store.{
  Store, Result, ok, err, Error, ◌>>=◌, HistoryRow, HistoryAction, find_order, unparseable,
  stale_event,
}
use foc_app.Order.Lifecycle.Patch.{Periods, is_released}
use foc_app.Order.Lifecycle.Shape.{CallerPatch}
use foc_app.Order.Lifecycle.Valid.{StoreValid}
use foc_app.Order.Lifecycle.Transition.{TransitionResult, applied, refused, transition_using}
use foc_app.Order.Lifecycle.Outcome.{Moved, Outcome, transition_using-Outcome}
use foc_app.Order.Results.{
  Envelope, CreditsReleasedPayload, ResultPayload, Reply, credits_reserved,
  credit_reservation_rejected, release_command, matches_release, is_duplicate, conclude_release,
  handle_release, result_command, repeats, is_stale, reservation_applied_at, reply_action,
  reply_patch, ask_suspended, conclude_result, handle_locked, handle_result,
}

abbrev Closes :
    OrderStatus → OrderAction → OrderActor → TransitionContext → TransitionDecision → Type 0
Closes s action actor c d =
    action ≡ release_confirmed → (s ≡ release_pending_credit) × (is_released d.to ≡ true)

-- A release confirmation closes an errand that waits for it.
decision-Closes :
    (s : OrderStatus) (action : OrderAction) (actor : OrderActor) (c : TransitionContext)
    {d : TransitionDecision}
    → decide_transition s action actor c ≡ some d
    → Closes s action actor c d
unfolding order_transitions
decision-Closes s action actor c = decision_of_rules Closes s action actor c (ground arith)

-- A release confirmation: it moved, by the table, the errand that it names and matches; or that very
-- release had closed the errand before, and nothing is written; or it is set aside.
abbrev pub ReleaseHandled :
    (actor clock : ℕ) → Envelope CreditsReleasedPayload → Store → Result (Bool × Store) → Type 0
ReleaseHandled actor clock e s (ok (true, s')) =
    (next : OrderRow) × (d : TransitionDecision) × (moved : Moved clock (release_command actor e) s
      next d s')
    × (matches_release e.payload moved.before ≡ true)
    × (moved.before.status ≡ release_pending_credit)
    × (is_released next.status ≡ true)
ReleaseHandled actor clock e s (ok (false, s')) =
    (s' ≡ s) × (is_duplicate e.payload (find_order e.payload.order_id s.orders) ≡ true)
ReleaseHandled actor clock e s (err x) = x ≡ unparseable

module _ (actor clock : ℕ) (e : Envelope CreditsReleasedPayload) (s : Store) where
  conclude_release-ReleaseHandled :
      (r : Result (TransitionResult × Store))
      → Outcome clock (release_command actor e) s r
      → ReleaseHandled actor clock e s (conclude_release e.payload r)
  unfolding release_command
  conclude_release-ReleaseHandled (ok (applied next d, s')) moved =
      let closes = decision-Closes moved.before.status release_confirmed _ _ moved.decided refl in
      (next, d, moved, ground (arith, moved.checked), closes.0, rw moved.written.status_is closes.1)
  conclude_release-ReleaseHandled (ok (refused reason found, s')) same =
      elim (Bool-cases (is_duplicate e.payload found)) [
        | inl again ↦ rw again (same.0, ground (arith, again, same.1))
        | inr other ↦ rw other refl
      ]
  conclude_release-ReleaseHandled (err x) (o, was, inl raised) = ground (arith, raised)
  conclude_release-ReleaseHandled (err x)
        (o, was, inr (t, next, d, same, decided, w, raised, p, made)) =
      ground (arith, raised)

  -- On a valid store every release confirmation is handled so: an errand changes only if the
  -- confirmation matches it, and then by a decision of the table.
  pub handle_release-ReleaseHandled :
      (p : Periods)
      → StoreValid s
      → ReleaseHandled actor clock e s (handle_release actor p clock e s)
  unfolding handle_release
  handle_release-ReleaseHandled p valid = elim (Bool-cases (e.aggregate_id == e.payload.order_id)) [
    | inr foreign ↦ rw foreign refl
    | inl own ↦ rw own (
        conclude_release-ReleaseHandled (transition_using p clock (release_command actor e) s) (
          transition_using-Outcome p clock (release_command actor e) s valid
            (unfold release_command in (e.payload.transaction_id, refl))
            (unfold release_command in λ t o. (refl, refl, refl))))
  ]

-- The first move by which the errand's reservation was applied stands in its history at a lower version.
abbrev pub WasOvertaken : OrderRow → List HistoryRow → Type 0
WasOvertaken o rows =
    (h : HistoryRow) × (reservation_applied_at o.order_id rows ≡ some h)
    × (h.order_id ≡ o.order_id)
    × (h.action ≡ HistoryAction.transition credit_reserved)
    × (h.order_version < o.version)

reservation-found :
    (k : ℕ) (rows : List HistoryRow) {h : HistoryRow}
    → reservation_applied_at k rows ≡ some h
    → (h.order_id ≡ k) × (h.action ≡ HistoryAction.transition credit_reserved)
reservation-found k [] {h} e = absurd (ground arith)
reservation-found k (row ∷ rows) {h} e = ground (arith, e, reservation-found k rows {h = h})

stale-WasOvertaken :
    (reply : Reply) (o : OrderRow) (rows : List HistoryRow)
    → is_stale reply o (reservation_applied_at o.order_id rows) ≡ true
    → (reply ≡ credits_reserved) × WasOvertaken o rows
stale-WasOvertaken (credit_reservation_rejected reason available) o rows stale =
    absurd (ground arith)
stale-WasOvertaken credits_reserved o rows stale =
    elim (Option-cases (reservation_applied_at o.order_id rows)) [
      | inl none_there ↦ absurd (ground (arith, none_there, stale))
      | inr (h, there) ↦
          let (own, action) = reservation-found o.order_id rows there in
          (refl, (h, there, own, action, ground (arith, there, stale)))
    ]

fresh-WasOvertaken :
    (o : OrderRow) (rows : List HistoryRow)
    → is_stale credits_reserved o (reservation_applied_at o.order_id rows) ≡ false
    → ¬ WasOvertaken o rows
fresh-WasOvertaken o rows fresh (h, there, own, action, below) =
    ground (arith, rw there at fresh, below)

-- A reply to a reservation request: it moved, by the table, the errand whose request it answers; or it
-- repeats the recorded reply and, if it is a reservation, no move overtook the errand's reservation,
-- and nothing is written; or it raises: as unparseable, as stale when it repeats a reservation that
-- a later move overtook, which its consumer acknowledges, or as the user service's answer did.
abbrev pub ResultHandled :
    (actor : ℕ) (text : List ℕ) (directory : ℕ → Result Bool) (clock : ℕ)
    → Envelope ResultPayload
    → Store
    → Result (Bool × Store)
    → Type 0
ResultHandled actor text directory clock e s (ok (true, s')) =
    (suspended : Option Bool) × (next : OrderRow) × (d : TransitionDecision) × (moved : Moved clock
      (result_command actor text e suspended) s next d s')
    × (moved.before.requester_id ≡ e.payload.requester_id)
    × (moved.before.reward ≡ e.payload.amount)
    × (ask_suspended directory moved.before e.payload.reply ≡ ok suspended)
ResultHandled actor text directory clock e s (ok (false, s')) =
    (s' ≡ s)
    × (o : OrderRow) × (find_order e.payload.order_id s.orders ≡ some o)
    × (repeats e.payload.reply o ≡ true)
    × (e.payload.reply ≡ credits_reserved → ¬ WasOvertaken o s.history)
ResultHandled actor text directory clock e s (err x) =
    (x ≡ unparseable)
    ⊎ (((x ≡ stale_event)
          × (e.payload.reply ≡ credits_reserved)
          × (o : OrderRow) × (find_order e.payload.order_id s.orders ≡ some o)
          × (o.status ≢ rejected)
          × WasOvertaken o s.history)
        ⊎ ((o : OrderRow) × (directory o.requester_id ≡ err x)))

reserved_repeats :
    (reply : Reply) (o : OrderRow)
    → reply ≡ credits_reserved
    → repeats reply o ≡ true
    → o.status ≢ rejected
unfolding repeats
reserved_repeats reply o is_reserved again is_rejected =
    ground (arith, rw (is_reserved, is_rejected) at again)

reply_patch-CallerPatch : (reply : Reply) → CallerPatch (reply_action reply) (reply_patch reply)
reply_patch-CallerPatch credits_reserved = refl
reply_patch-CallerPatch (credit_reservation_rejected reason available) = (reason, available, refl)

module _ (actor : ℕ) (text : List ℕ) (directory : ℕ → Result Bool) (clock : ℕ)
    (e : Envelope ResultPayload) (s : Store) where
  module _ (o : OrderRow) (found : find_order e.payload.order_id s.orders ≡ some o)
      (requester : o.requester_id ≡ e.payload.requester_id) (amount : o.reward ≡ e.payload.amount)
      (suspended : Option Bool)
      (asked : ask_suspended directory o e.payload.reply ≡ ok suspended) where
    conclude_result-ResultHandled :
        (r : Result (TransitionResult × Store))
        → Outcome clock (result_command actor text e suspended) s r
        → ResultHandled actor text directory clock e s (conclude_result e.payload.reply o r)
    unfolding result_command
    conclude_result-ResultHandled (ok (applied next d, s')) moved =
        let same : moved.before ≡ o = ground (arith, moved.was, found) in
        (suspended, next, d, moved, rw same requester, rw same amount, rw same asked)
    conclude_result-ResultHandled (ok (refused reason row, s')) same =
        elim (Bool-cases (repeats e.payload.reply o)) [
          | inr other ↦ rw other (inl refl)
          | inl again ↦
              elim (Bool-cases
                (is_stale e.payload.reply o (reservation_applied_at o.order_id s'.history))) [
                  | inl stale ↦
                      let (reserved, overtaken) =
                        stale-WasOvertaken e.payload.reply o s.history (rw same.0 at stale) in
                      rw (again, stale)
                        (inr (
                          inl (
                            refl,
                            reserved,
                            o,
                            found,
                            reserved_repeats e.payload.reply o reserved again,
                            overtaken,
                          )))
                  | inr fresh ↦
                      rw (again, fresh)
                        (
                          same.0,
                          o,
                          found,
                          again,
                          λ reserved.
                              fresh-WasOvertaken o s.history (rw (same.0, reserved) at fresh),
                        )
                ]
        ]
    conclude_result-ResultHandled (err x) (row, was, inl raised) = cc
    conclude_result-ResultHandled (err x)
          (row, was, inr (t, next, d, same, decided, w, raised, p, made)) =
        cc

    asked-ResultHandled :
        (p : Periods)
        → StoreValid s
        → ResultHandled actor text directory clock e s (
            conclude_result e.payload.reply o
              (transition_using p clock (result_command actor text e suspended) s))
    asked-ResultHandled p valid =
        conclude_result-ResultHandled
          (transition_using p clock (result_command actor text e suspended) s)
          (transition_using-Outcome p clock (result_command actor text e suspended) s valid
            (unfold result_command in reply_patch-CallerPatch e.payload.reply)
            (unfold result_command in λ t x. (refl, refl, refl)))

  ask_suspended-error :
      (o : OrderRow) (reply : Reply) {x : Error}
      → ask_suspended directory o reply ≡ err x
      → directory o.requester_id ≡ err x
  unfolding ask_suspended
  ask_suspended-error o reply h = ground arith

  answered-ResultHandled :
      (p : Periods) (o : OrderRow)
      → StoreValid s
      → find_order e.payload.order_id s.orders ≡ some o
      → o.requester_id ≡ e.payload.requester_id
      → o.reward ≡ e.payload.amount
      → (answer : Result (Option Bool)) → ask_suspended directory o e.payload.reply ≡ answer
      → ResultHandled actor text directory clock e s (
          answer >>= λ suspended.
          conclude_result e.payload.reply o
            (transition_using p clock (result_command actor text e suspended) s))
  answered-ResultHandled p o valid found requester amount (ok suspended) asked =
      asked-ResultHandled o found requester amount suspended asked p valid
  answered-ResultHandled p o valid found requester amount (err x) asked =
      inr (inr (o, ask_suspended-error o e.payload.reply asked))

  handle_locked-ResultHandled :
      (p : Periods) (row : Option OrderRow)
      → StoreValid s
      → find_order e.payload.order_id s.orders ≡ row
      → ResultHandled actor text directory clock e s
          (handle_locked actor text directory p clock e s row)
  unfolding handle_locked
  handle_locked-ResultHandled p none valid found = inl refl
  handle_locked-ResultHandled p (some o) valid found =
      elim (Bool-cases
        (not (o.requester_id == e.payload.requester_id) || not (o.reward == e.payload.amount))) [
          | inl other ↦ rw other (inl refl)
          | inr same ↦ rw same (
              answered-ResultHandled p o valid found (ground (arith, same)) (ground (arith, same))
                (ask_suspended directory o e.payload.reply) refl)
        ]

  -- On a valid store every reply to a reservation request is handled so: an errand changes only if the
  -- reply answers its own request, and then by a decision of the table; a repeat, and a reservation
  -- that a later move overtook (which raises the stale event that the consumer acknowledges), write
  -- nothing; every other reply raises as unparseable or as the user service's answer did.
  pub handle_result-ResultHandled :
      (p : Periods)
      → StoreValid s
      → ResultHandled actor text directory clock e s
          (handle_result actor text directory p clock e s)
  unfolding handle_result
  handle_result-ResultHandled p valid = elim (Bool-cases (e.aggregate_id == e.payload.order_id)) [
    | inr foreign ↦ rw foreign (inl refl)
    | inl own ↦
        rw own (handle_locked-ResultHandled p (find_order e.payload.order_id s.orders) valid refl)
  ]
