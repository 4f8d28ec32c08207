-- ===== src/Order/Lifecycle/Acceptance.antt =====
-- order-service/src/orders/orders.repository.ts: what `acceptUsing` leaves behind, and that it
-- agrees with the transition table.
use foc_app.Common.{
  ℕ, ◌+◌, ◌≡◌, ◌≢◌, refl, subst, ◌∙◌, Bool, true, false, none, some, List, [], ◌∷◌, arith,
  Option-cases, Bool-cases, inl, inr, ◌⊎◌, ◌==◌, if◌then◌else◌,
}
use foc_app.Order.Types.{OrderRow, accepted}
use foc_app.Order.StateMachine.Vocabulary.{OrderActor, accept, order_status_changed}
use foc_app.Order.StateMachine.Table.{TransitionContext, truthy, order_transitions}
use foc_app.Order.StateMachine.Decide.{decide_transition}
use foc_app.Order.Lifecycle.Store.{Store, Result, ok, err, find_order, put_order}
use foc_app.Order.Lifecycle.Patch.{row_checks}
use foc_app.Order.Lifecycle.Rows.{IsUnique, find_order-All, find_order-id, find_order-put_order}
use foc_app.Order.Lifecycle.Shape.{RowShape}
use foc_app.Order.Lifecycle.Valid.{StoreValid, put-StoreValid}
use foc_app.Order.Lifecycle.Transition.{has_passed}
use foc_app.Order.Lifecycle.Accept.{
  Acceptance, taken, not_taken, acceptable, accepted_row, update_if, record_acceptance,
  accept_using,
}

module _ (k : ℕ) (p : OrderRow → Bool) (f : OrderRow → OrderRow) where
  update_if-none : (os : List OrderRow) → find_order k os ≡ none → update_if k p f os ≡ none
  update_if-none [] h = refl
  update_if-none (x ∷ os) h = ground (arith, update_if-none os)

  -- Under unique identifiers the update is decided by the one row that a read finds.
  pub update_if-refused :
      (os : List OrderRow) {o : OrderRow}
      → IsUnique os
      → find_order k os ≡ some o
      → p o ≡ false
      → update_if k p f os ≡ none
  update_if-refused [] u h q = cc
  update_if-refused (x ∷ os) {o} u h q =
      ground (arith, update_if-refused os {o = o}, update_if-none os)

  update_if-applied :
      (os : List OrderRow) {o : OrderRow}
      → IsUnique os
      → find_order k os ≡ some o
      → p o ≡ true
      → update_if k p f os ≡ some (f o, put_order o.order_id o.version (f o) os)
  update_if-applied [] u h q = cc
  update_if-applied (x ∷ os) {o} u h q =
      ground (arith, update_if-applied os {o = o}, find_order-id k os {o = o})

accepted_row-RowShape :
    (courier v now : ℕ) (o : OrderRow)
    → RowShape o
    → acceptable courier v now o ≡ true
    → RowShape (accepted_row courier now o) × (row_checks (accepted_row courier now o) ≡ true)
unfolding acceptable accepted_row row_checks
accepted_row-RowShape courier v now o shape h = ground arith

-- What an acceptance needed, and what it wrote.
pub record Taken (k courier v now : ℕ) (s : Store) (next : OrderRow) (s' : Store) : Type 0 where
  pub before : OrderRow
  pub was : find_order k s.orders ≡ some before
  pub not_own : before.requester_id ≢ courier
  pub version_was : before.version ≡ v
  pub decided :
      (c : TransitionContext)
      → truthy c.acceptance_deadline_passed ≡ has_passed before.acceptance_deadline_at now
      → decide_transition before.status accept OrderActor.other_student c
        ≡ some (record {
          to = next.status;
          release_reason = none;
          emitted = order_status_changed ∷ [];
        })
  pub status_is : next.status ≡ accepted
  pub version_is : next.version ≡ before.version + 1
  pub courier_is : next.courier_id ≡ some courier
  pub others :
      (j : ℕ) → find_order j s'.orders ≡ (if j == k then some next else find_order j s.orders)
  pub valid : StoreValid s'

-- What the table is asked about a courier who takes the errand at `now`.
abbrev facts_of : (now : ℕ) → OrderRow → TransitionContext
facts_of now o = record {
  acceptance_deadline_passed = some (has_passed o.acceptance_deadline_at now);
  delivery_period_passed = none;
  auto_confirmation_period_passed = none;
  requester_suspended = none;
  reason_provided = none;
  release_reason = none;
}

-- The errand is at another version, or is the courier's own, or the table lets no other student accept it.
abbrev IsBarred : (courier v now : ℕ) → OrderRow → Type 0
IsBarred courier v now o =
    (o.version ≢ v)
    ⊎ (o.requester_id ≡ courier)
    ⊎ (decide_transition o.status accept OrderActor.other_student (facts_of now o) ≡ none)

unacceptable-IsBarred :
    (courier v now : ℕ) (o : OrderRow)
    → RowShape o
    → acceptable courier v now o ≡ false
    → IsBarred courier v now o
unfolding acceptable decide_transition order_transitions
unacceptable-IsBarred courier v now o shape unfit = elim (Bool-cases (o.version == v)) [
  | inr other ↦ inl (λ e. ground (arith, other, e))
  | inl same ↦ elim (Bool-cases (o.requester_id == courier)) [
    | inl own ↦ inr (inl (ground (arith, own)))
    | inr foreign ↦ inr (inr (ground (arith, same, foreign, unfit, shape.deadline_set)))
  ]
]

abbrev pub AcceptOutcome : (k courier v now : ℕ) → Store → Result (Acceptance × Store) → Type 0
AcceptOutcome k courier v now s (ok (taken next, s')) = Taken k courier v now s next s'
AcceptOutcome k courier v now s (ok (not_taken found, s')) =
    (s' ≡ s)
    × (found ≡ find_order k s.orders)
    × ((o : OrderRow) → find_order k s.orders ≡ some o → IsBarred courier v now o)
AcceptOutcome k courier v now s (err e) = ⊥

module _ (k courier v correlation now : ℕ) (s : Store) (valid : StoreValid s) where
  taken-Taken :
      (o : OrderRow)
      → find_order k s.orders ≡ some o
      → acceptable courier v now o ≡ true
      → AcceptOutcome k courier v now s (accept_using k courier v correlation now s)
  unfolding accept_using accepted_row acceptable record_acceptance decide_transition
      order_transitions
  taken-Taken o was fits =
      let (shape, checks) =
        accepted_row-RowShape courier v now o (find_order-All RowShape k s.orders valid.rows was)
          fits in
      rw
        (
          update_if-applied k (acceptable courier v now) (accepted_row courier now) s.orders
              valid.unique was fits,
          checks,
        )
        (record {
          before = o;
          was = was;
          not_own = ground (arith, fits);
          version_was = ground (arith, fits);
          decided = λ c same. ground (arith, same, fits);
          status_is = refl;
          version_is = refl;
          courier_is = refl;
          others = λ j. find_order-put_order k o (accepted_row courier now o) s.orders j was refl;
          valid =
              put-StoreValid k o (accepted_row courier now o) _ s _ valid was shape refl refl refl
                refl refl;
        })

  not_taken-AcceptOutcome :
      update_if k (acceptable courier v now) (accepted_row courier now) s.orders ≡ none
      → ((o : OrderRow) → find_order k s.orders ≡ some o → IsBarred courier v now o)
      → AcceptOutcome k courier v now s (accept_using k courier v correlation now s)
  unfolding accept_using
  not_taken-AcceptOutcome e why = rw e (refl, refl, why)

  -- Over a valid store, `accept` either takes the errand, changing that row alone, and the errand is
  -- another student's, at the version read, and the table leads its acceptance by another student to
  -- this row's status; or it changes nothing, and an errand that is there is at another version, is
  -- the courier's own, or is one that the table lets no other student accept. It never raises.
  pub accept_using-AcceptOutcome :
      AcceptOutcome k courier v now s (accept_using k courier v correlation now s)
  accept_using-AcceptOutcome = elim (Option-cases (find_order k s.orders)) [
    | inl missing ↦
        not_taken-AcceptOutcome
          (update_if-none k (acceptable courier v now) (accepted_row courier now) s.orders missing)
          (λ o was. ground (arith, missing, was))
    | inr (o, was) ↦ elim (Bool-cases (acceptable courier v now o)) [
      | inl fits ↦ taken-Taken o was fits
      | inr unfit ↦
          not_taken-AcceptOutcome
            (update_if-refused k (acceptable courier v now) (accepted_row courier now) s.orders
              valid.unique was unfit)
            (λ o' was'.
              let same : o ≡ o' = ground (arith, was, was') in
              subst (IsBarred courier v now) same (
                unacceptable-IsBarred courier v now o
                  (find_order-All RowShape k s.orders valid.rows was) unfit))
    ]
  ]

accepted-not_acceptable :
    (courier v now : ℕ) (o : OrderRow) → o.status ≡ accepted → acceptable courier v now o ≡ false
unfolding acceptable
accepted-not_acceptable courier v now o h = ground arith

-- Over a valid store: when a courier has taken an errand, the next `accept` of it on the resulting
-- tables takes nothing and is told the taken row, whatever the courier, the version and the time.
pub accepted_once :
    (k courier v correlation now : ℕ) (s : Store) {next : OrderRow} {s' : Store}
    → StoreValid s
    → accept_using k courier v correlation now s ≡ ok (taken next, s')
    → (courier' v' correlation' now' : ℕ)
    → accept_using k courier' v' correlation' now' s' ≡ ok (not_taken (some next), s')
unfolding accept_using
accepted_once k courier v correlation now s {next} {s'} valid h courier' v' correlation' now' =
    let t : Taken k courier v now s next s' =
      subst (AcceptOutcome k courier v now s) h
        (accept_using-AcceptOutcome k courier v correlation now s valid) in
    let there : find_order k s'.orders ≡ some next = t.others k ∙ ground arith in
    rw
      (
        update_if-refused k (acceptable courier' v' now') (accepted_row courier' now') s'.orders
            t.valid.unique there (accepted-not_acceptable courier' v' now' next t.status_is),
        there,
      )
      refl
