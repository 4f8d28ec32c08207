-- ===== src/Order/Results/Transfer/Completed.antt =====
-- order-service/src/credit-terminal-results.consumer.ts: what a transfer confirmation leaves behind.
use foc_app.Common.{
  subst, ℕ, ◌≡◌, ◌⊎◌, Bool, true, false, some, List, [], ◌∷◌, ◌++◌, any, ◌==◌, ◌||◌, none, refl,
  arith, Bool-cases, inl, inr, if◌then◌else◌,
}
use foc_app.Order.Types.{OrderRow, OrderStatus, completed, completion_pending_credit}
use foc_app.Order.StateMachine.Vocabulary.{OrderAction, OrderActor, transfer_confirmed}
use foc_app.Order.StateMachine.Decide.{decide_transition}
use foc_app.Order.StateMachine.Laws.{decision_of_rules}
use foc_app.Order.StateMachine.Table.{TransitionContext, TransitionDecision, order_transitions}
use foc_app.Order.Lifecycle.Store.{
  Store, Result, ok, err, Receipt, ◌>>=◌, find_order, unparseable, unique_violation,
}
use foc_app.Order.Lifecycle.Patch.{
  Periods, Column, timestamp_patch, credit_transaction_id, write, write_all,
}
use foc_app.Order.Lifecycle.Shape.{Succeeds, RowShape}
use foc_app.Order.Lifecycle.Rows.{find_order-id}
use foc_app.Order.Lifecycle.Valid.{StoreValid}
use foc_app.Order.Lifecycle.Transition.{
  TransitionCommand, TransitionResult, applied, refused, next_row, reason_column, transition_using,
}
use foc_app.Order.Lifecycle.Outcome.{IsQuiet, Moved, Outcome, transition_using-Outcome}
use foc_app.Order.Receipts.{
  receipt_of, is_filled, in_range, conflicts, insert_receipt, find_receipt,
}
use foc_app.Order.Results.{Envelope}
use foc_app.Order.Results.Transfer.{
  CreditsTransferredPayload, matches_transfer, transfer_command, is_duplicate_transfer,
  conclude_transfer, handle_transfer,
}

insert_receipt-IsQuiet : IsQuiet insert_receipt
unfolding insert_receipt
insert_receipt-IsQuiet s o = ground arith

abbrev Completes :
    OrderStatus → OrderAction → OrderActor → TransitionContext → TransitionDecision → Type 0
Completes s action actor c d =
    action ≡ transfer_confirmed → (s ≡ completion_pending_credit) × (d.to ≡ completed)

decision-Completes :
    (s : OrderStatus) (action : OrderAction) (actor : OrderActor) (c : TransitionContext)
    {d : TransitionDecision}
    → decide_transition s action actor c ≡ some d
    → Completes s action actor c d
unfolding order_transitions
decision-Completes s action actor c = decision_of_rules Completes s action actor c (ground arith)

-- The row of a completed errand has everything that the receipt requires.
completed_fills :
    (o : OrderRow) → RowShape o → o.status ≡ completed → is_filled (receipt_of o) ≡ true
completed_fills o shape e = ground arith

completed_in_range : (o : OrderRow) → RowShape o → in_range (receipt_of o) ≡ true
completed_in_range o shape = ground arith

-- The receipt of a completed errand is written, unless one of the errand or the transaction is there.
receipt_written :
    (s t : Store) (o : OrderRow)
    → t.receipts ≡ s.receipts
    → RowShape o
    → o.status ≡ completed
    → insert_receipt t o ≡ (
        if any (conflicts (receipt_of o)) s.receipts
        then err unique_violation
        else ok (record t { receipts = s.receipts ++ (receipt_of o ∷ []) }))
unfolding insert_receipt
receipt_written s t o same shape e =
    rw (completed_fills o shape e, completed_in_range o shape, same) refl

find_receipt-new :
    (rs : List Receipt) (o : OrderRow)
    → any (conflicts (receipt_of o)) rs ≡ false
    → find_receipt o.order_id (rs ++ (receipt_of o ∷ [])) ≡ some (receipt_of o)
find_receipt-new [] o e = ground arith
find_receipt-new (r ∷ rs) o e = let rest = find_receipt-new rs o in ground (arith, e, rest)

receipt_kept :
    (s s' t : Store) (o : OrderRow)
    → t.receipts ≡ s.receipts
    → RowShape o
    → o.status ≡ completed
    → Succeeds (λ t'. s'.receipts ≡ t'.receipts) (insert_receipt t o)
    → (s'.receipts ≡ s.receipts ++ (receipt_of o ∷ []))
      × (find_receipt o.order_id s'.receipts ≡ some (receipt_of o))
receipt_kept s s' t o same shape e kept =
    let written = receipt_written s t o same shape e in
    elim (Bool-cases (any (conflicts (receipt_of o)) s.receipts)) [
      | inl taken ↦ absurd (rw (written, taken) at kept)
      | inr free ↦
          let grown : s'.receipts ≡ s.receipts ++ (receipt_of o ∷ []) =
            rw (written, free) at kept in
          (grown, rw grown (find_receipt-new s.receipts o free))
    ]

write_all-append :
    (cs ds : List Column) (o : OrderRow) → write_all (cs ++ ds) o ≡ write_all ds (write_all cs o)
write_all-append [] ds o = refl
write_all-append (c ∷ cs) ds o = write_all-append cs ds (write c o)

-- What a mapped result returned.
returned_from {ℓ κ} :
    {A : Type ℓ} {B : Type κ} (r : Result A) (f : A → B) {b : B}
    → (r >>= λ a. ok (f a)) ≡ ok b
    → (a : A) × (f a ≡ b)
returned_from (ok a) f {b} e = (a, ground (arith, e))
returned_from (err x) f {b} e = absurd (ground (arith, e))

-- The row that a confirmation writes has its transaction.
transaction_written :
    (p : Periods) (command : TransitionCommand) (d : TransitionDecision) (now transaction : ℕ)
    (o next : OrderRow)
    → command.patch ≡ credit_transaction_id transaction ∷ []
    → next_row p command d now o ≡ ok next
    → next.credit_transaction_id ≡ some transaction
unfolding next_row
transaction_written p command d now transaction o next patch made =
    let (stamps, is_next) = returned_from (timestamp_patch p command.action d.to now o) _ made in
    rw
      (
        ← is_next,
        patch,
        write_all-append (reason_column d) (stamps ++ (credit_transaction_id transaction ∷ [])),
        write_all-append stamps (credit_transaction_id transaction ∷ []),
      )
      refl

-- A receipt of this errand, or of this transaction.
abbrev pub is_taken : (order_id transaction_id : ℕ) → Receipt → Bool
is_taken k transaction r =
    (r.order_id == k) || elim r.credit_transaction_id [ none ↦ false | some t ↦ t == transaction ]

conflicts-is_taken :
    (o : OrderRow) (k transaction : ℕ) (rs : List Receipt)
    → o.order_id ≡ k
    → o.credit_transaction_id ≡ some transaction
    → any (conflicts (receipt_of o)) rs ≡ any (is_taken k transaction) rs
conflicts-is_taken o k transaction [] own set = refl
conflicts-is_taken o k transaction (r ∷ rs) own set =
    ground (arith, conflicts-is_taken o k transaction rs own set)

-- A transfer confirmation: it completed, by the table, the errand that it names and matches, and wrote
-- its receipt; or that very transfer had completed the errand before, and nothing is written; or it is
-- set aside, or the errand or the transaction has a receipt already.
abbrev pub TransferHandled :
    (actor clock : ℕ) → Envelope CreditsTransferredPayload → Store → Result (Bool × Store) → Type 0
TransferHandled actor clock e s (ok (true, s')) =
    (next : OrderRow) × (d : TransitionDecision) × (moved : Moved clock (transfer_command actor e) s
      next d s')
    × (matches_transfer e.payload moved.before ≡ true)
    × (moved.before.status ≡ completion_pending_credit)
    × (next.status ≡ completed)
    × (s'.receipts ≡ s.receipts ++ (receipt_of next ∷ []))
    × (find_receipt e.payload.order_id s'.receipts ≡ some (receipt_of next))
TransferHandled actor clock e s (ok (false, s')) =
    (s' ≡ s) × (is_duplicate_transfer e.payload (find_order e.payload.order_id s.orders) ≡ true)
TransferHandled actor clock e s (err x) =
    (x ≡ unparseable)
    ⊎ ((x ≡ unique_violation)
        × (any (is_taken e.payload.order_id e.payload.transaction_id) s.receipts ≡ true))

module _ (actor clock : ℕ) (e : Envelope CreditsTransferredPayload) (s : Store) where
  conclude_transfer-TransferHandled :
      (r : Result (TransitionResult × Store))
      → Outcome clock (transfer_command actor e) s r
      → TransferHandled actor clock e s (conclude_transfer e.payload r)
  unfolding transfer_command
  conclude_transfer-TransferHandled (ok (applied next d, s')) moved =
      let completes =
        decision-Completes moved.before.status transfer_confirmed _ _ moved.decided refl in
      let is_completed : next.status ≡ completed = rw moved.written.status_is completes.1 in
      let own : next.order_id ≡ e.payload.order_id =
        rw moved.written.id_kept (find_order-id e.payload.order_id s.orders moved.was) in
      let (t, same, kept) = moved.after in
      let (grown, found) = receipt_kept s s' t next same moved.written.shape is_completed kept in
      (
        next,
        d,
        moved,
        ground (arith, moved.checked),
        completes.0,
        is_completed,
        grown,
        subst (λ k. find_receipt k s'.receipts ≡ some (receipt_of next)) own found,
      )
  conclude_transfer-TransferHandled (ok (refused reason found, s')) same =
      elim (Bool-cases (is_duplicate_transfer e.payload found)) [
        | inl again ↦ rw again (same.0, ground (arith, again, same.1))
        | inr other ↦ rw other (inl refl)
      ]
  conclude_transfer-TransferHandled (err x) (o, was, inl raised) = inl (ground (arith, raised))
  conclude_transfer-TransferHandled (err x)
        (o, was, inr (t, next, d, same, decided, w, raised, p, made)) =
      let completes = decision-Completes o.status transfer_confirmed _ _ decided refl in
      let is_completed : next.status ≡ completed = rw w.status_is completes.1 in
      let own : next.order_id ≡ e.payload.order_id =
        rw w.id_kept (find_order-id e.payload.order_id s.orders was) in
      let written = receipt_written s t next same w.shape is_completed in
      elim (Bool-cases (any (conflicts (receipt_of next)) s.receipts)) [
        | inl taken ↦
            let transaction =
              transaction_written p (transfer_command actor e) d _ e.payload.transaction_id o next
                refl made in
            inr (
              ground (arith, written, taken, raised),
              rw
                  (← conflicts-is_taken next e.payload.order_id e.payload.transaction_id s.receipts
                    own transaction)
                  taken,
            )
        | inr free ↦ inl (ground (arith, written, free, raised))
      ]

  -- On a valid store a transfer confirmation completes the errand that it names and matches, by a
  -- decision of the table, and writes its receipt, which is then found by the errand; or that very
  -- transfer completed it before, and nothing is written; or the confirmation is set aside; or it
  -- raises because the errand or the transaction has a receipt already.
  pub handle_transfer-TransferHandled :
      (p : Periods)
      → StoreValid s
      → TransferHandled actor clock e s (handle_transfer actor p clock e s)
  unfolding handle_transfer
  handle_transfer-TransferHandled p valid =
      elim (Bool-cases (e.aggregate_id == e.payload.order_id)) [
        | inr foreign ↦ rw foreign (inl refl)
        | inl own ↦ rw own (
            conclude_transfer-TransferHandled
              (transition_using p clock (transfer_command actor e) s)
              (transition_using-Outcome p clock (transfer_command actor e) s valid
                (unfold transfer_command in (e.payload.transaction_id, refl))
                (unfold transfer_command in insert_receipt-IsQuiet)))
      ]
