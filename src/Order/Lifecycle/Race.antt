-- ===== src/Order/Lifecycle/Race.antt =====
-- order-service/src/orders/orders.repository.ts: couriers that race for one errand with `acceptUsing`, and
-- whatever commands `transitionUsing` applies in between.
use foc_app.Common.{
  ℕ, ◌+◌, ◌≤◌, ◌≡◌, refl, subst, ◌∙◌, false, some, ◌==◌, arith, if◌then◌else◌, Bool-cases, inl, inr,
}
use foc_app.Order.Types.{OrderRow}
use foc_app.Order.StateMachine.Table.{TransitionDecision}
use foc_app.Order.Lifecycle.Store.{Store, ok, find_order}
use foc_app.Order.Lifecycle.Patch.{Periods}
use foc_app.Order.Lifecycle.Shape.{CallerPatch}
use foc_app.Order.Lifecycle.Valid.{StoreValid}
use foc_app.Order.Lifecycle.Transition.{TransitionCommand, applied, transition_using}
use foc_app.Order.Lifecycle.Outcome.{IsQuiet, Outcome, Moved, transition_using-Outcome}
use foc_app.Order.Lifecycle.Accept.{taken, not_taken, acceptable, accepted_row, accept_using}
use foc_app.Order.Lifecycle.Acceptance.{
  Taken, AcceptOutcome, accept_using-AcceptOutcome, update_if-refused,
}

-- Tables that applied commands and acceptances, of any errands, lead to.
pub data Later (s : Store) : Store → Type 0 where
  here : Later s s
  moves :
      {t t' : Store} {next : OrderRow} {d : TransitionDecision}
      → Later s t
      → (p : Periods) (clock : ℕ) (command : TransitionCommand)
      → CallerPatch command.action command.patch
      → IsQuiet command.after_apply
      → transition_using p clock command t ≡ ok (applied next d, t')
      → Later s t'
  accepts :
      {t t' : Store} {next : OrderRow}
      → Later s t
      → (k courier v correlation now : ℕ)
      → accept_using k courier v correlation now t ≡ ok (taken next, t')
      → Later s t'

applied-Moved :
    (p : Periods) (clock : ℕ) (command : TransitionCommand) (t t' : Store) (next : OrderRow)
    (d : TransitionDecision)
    → StoreValid t
    → CallerPatch command.action command.patch
    → IsQuiet command.after_apply
    → transition_using p clock command t ≡ ok (applied next d, t')
    → Moved clock command t next d t'
applied-Moved p clock command t t' next d valid fits quiet ran =
    subst (Outcome clock command t) ran
      (transition_using-Outcome p clock command t valid fits quiet)

accepted-Taken :
    (k courier v correlation now : ℕ) (t t' : Store) (next : OrderRow)
    → StoreValid t
    → accept_using k courier v correlation now t ≡ ok (taken next, t')
    → Taken k courier v now t next t'
accepted-Taken k courier v correlation now t t' next valid ran =
    subst (AcceptOutcome k courier v now t) ran
      (accept_using-AcceptOutcome k courier v correlation now t valid)

Later-StoreValid : {s t : Store} → StoreValid s → Later s t → StoreValid t
Later-StoreValid valid here = valid
Later-StoreValid valid (moves {t} {t'} {next} {d} later p clock command fits quiet ran) =
    (applied-Moved p clock command t t' next d (Later-StoreValid valid later) fits quiet ran).valid
Later-StoreValid valid (accepts {t} {t'} {next} later k courier v correlation now ran) =
    (accepted-Taken k courier v correlation now t t' next (Later-StoreValid valid later) ran).valid

-- The errand is still there, at a version that is no lower.
abbrev StillThere : ℕ → ℕ → Store → Type 0
StillThere k version t = (o : OrderRow) × (find_order k t.orders ≡ some o) × (version ≤ o.version)

-- A row that replaces another one at the next version.
replaced-StillThere :
    (j k version : ℕ) (t t' : Store) (before next : OrderRow)
    → find_order j t.orders ≡ some before
    → next.version ≡ before.version + 1
    → find_order k t'.orders ≡ (if k == j then some next else find_order k t.orders)
    → StillThere k version t
    → StillThere k version t'
replaced-StillThere j k version t t' before next was grown at_k (o, found, above) =
    elim (Bool-cases (k == j)) [
      | inr other ↦ (o, at_k ∙ ground (arith, other, found), above)
      | inl same ↦
          (next, at_k ∙ ground (arith, same), ground (arith, same, was, found, grown, above))
    ]

Later-StillThere :
    (k version : ℕ) {s t : Store}
    → StoreValid s
    → StillThere k version s
    → Later s t
    → StillThere k version t
Later-StillThere k version valid there here = there
Later-StillThere k version valid there
      (moves {t} {t'} {next} {d} later p clock command fits quiet ran) =
    let m =
      applied-Moved p clock command t t' next d (Later-StoreValid valid later) fits quiet ran in
    replaced-StillThere command.order_id k version t t' m.before next m.was m.written.version_is
      (m.others k) (Later-StillThere k version valid there later)
Later-StillThere k version valid there
      (accepts {t} {t'} {next} later j courier v correlation now ran) =
    let m =
      accepted-Taken j courier v correlation now t t' next (Later-StoreValid valid later) ran in
    replaced-StillThere j k version t t' m.before next m.was m.version_is (m.others k)
      (Later-StillThere k version valid there later)

other_version :
    (courier v now : ℕ) (o : OrderRow) → v + 1 ≤ o.version → acceptable courier v now o ≡ false
unfolding acceptable
other_version courier v now o above = ground arith

-- Over a valid store: once a courier has taken an errand at a version, no `accept` at that version or a
-- lower one takes it again, whoever asks and whenever, whatever acceptances and commands of a
-- service are applied in between, those that reopen the errand included; it changes nothing and is
-- told the row as it then is.
pub version_taken_once :
    (k courier v correlation now : ℕ) (s : Store) {next : OrderRow} {s' t : Store}
    → StoreValid s
    → accept_using k courier v correlation now s ≡ ok (taken next, s')
    → Later s' t
    → (courier' v' correlation' now' : ℕ) → v' ≤ v
    → accept_using k courier' v' correlation' now' t ≡ ok (not_taken (find_order k t.orders), t)
unfolding accept_using
version_taken_once k courier v correlation now s {next} {s'} {t} valid ran later courier' v'
      correlation' now' low =
    let m = accepted-Taken k courier v correlation now s s' next valid ran in
    let (o, found, above) =
      Later-StillThere k (v + 1) m.valid
        (next, m.others k ∙ ground arith, ground (arith, m.version_is, m.version_was)) later in
    rw
      (update_if-refused k (acceptable courier' v' now') (accepted_row courier' now') t.orders
        (Later-StoreValid m.valid later).unique found
        (other_version courier' v' now' o (omega (arith, above, low))))
      refl
