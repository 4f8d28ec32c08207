-- ===== src/Credit/Repository/Replay/Reserve.antt =====
-- credit-service/src/credits/credit.repository.ts: `reserve`, delivered again.
use foc_app.Common.{
  ℕ, ◌≡◌, ◌≢◌, ◌∙◌, true, false, List, [], ◌∷◌, any, Option, some, none, find, ltb, leb, refl,
  arith, Bool-cases, Option-cases, inl, inr,
}
use foc_app.Credit.Types.{
  ReservationInput, ReservationRejection, ReservationOutcome, max_reservation_amount,
  insufficient_credits, amount_out_of_range,
}
use foc_app.Credit.Db.{
  Wallet, Operation, OperationType, OperationOutcome, Db, ok, pending, succeeded, is_operation,
  operation_clash, find_wallet, valid_amount,
}
use foc_app.Credit.Repository.Reserve.{
  reserve, decide_claimed, when_claimed, refuse, replay_or_reject, reservation_reply,
}
use foc_app.Credit.Repository.Effects.Reserve.{reservation, claimed}

-- What a recorded reservation answers.
abbrev recorded : OperationOutcome → Option ℕ → Option ReservationOutcome
recorded pending available = none
recorded (succeeded id) available = some (ReservationOutcome.reserved id)
recorded (OperationOutcome.rejected reason) available =
    some (ReservationOutcome.rejected reason available)

-- The order's reservation is this input's, and answers `out`.
record Answered (input : ReservationInput) (out : ReservationOutcome) (db : Db) : Type 0 where
  row : Operation
  found : find (is_operation input.order_id OperationType.reserve) db.operations ≡ some row
  requester : row.requester_id ≡ input.requester_id
  amount : row.amount ≡ input.amount
  answer : recorded row.outcome row.available_at_decision ≡ some out

module _ (input : ReservationInput) (uuid : ℕ) (db : Db) {out : ReservationOutcome} {db' : Db} where
  refuse-Answered :
      (reason : ReservationRejection) (available : Option ℕ)
      → refuse input reason available (claimed input db) ≡ ok (out, db')
      → Answered input out db'
  unfolding refuse
  refuse-Answered reason available h = record {
    row = reservation input (OperationOutcome.rejected reason) available;
    found = ground arith;
    requester = refl;
    amount = refl;
    answer = ground arith;
  }

  module _ (w : Wallet) (found : find_wallet input.requester_id db.wallets ≡ some w)
      (h : decide_claimed input uuid (claimed input db) ≡ ok (out, db')) where
    booked-Answered : leb input.amount w.available ≡ true → Answered input out db'
    unfolding decide_claimed
    booked-Answered enough = record {
      row = reservation input (succeeded uuid) none;
      found = ground arith;
      requester = refl;
      amount = refl;
      answer = ground arith;
    }

    short-Answered : leb input.amount w.available ≡ false → Answered input out db'
    unfolding decide_claimed
    short-Answered short =
        refuse-Answered insufficient_credits (some w.available) (unfold refuse in ground arith)

  decide_claimed-Answered :
      decide_claimed input uuid (claimed input db) ≡ ok (out, db') → Answered input out db'
  decide_claimed-Answered h = elim (Option-cases (find_wallet input.requester_id db.wallets)) [
    | inl missing ↦ absurd (unfold decide_claimed in ground (arith, h, missing))
    | inr (w, found) ↦ elim (Bool-cases (leb input.amount w.available)) [
      | inl enough ↦ booked-Answered w found h enough
      | inr short ↦ short-Answered w found h short
    ]
  ]

  when_claimed-Answered :
      when_claimed input uuid true (claimed input db) ≡ ok (out, db') → Answered input out db'
  when_claimed-Answered h = elim (Bool-cases (ltb max_reservation_amount input.amount)) [
    | inl large ↦ refuse-Answered amount_out_of_range none (ground (arith, h, large))
    | inr small ↦ decide_claimed-Answered (ground (arith, h, small))
  ]

operation_clash-found :
    (input : ReservationInput) (os : List Operation) {o : Operation}
    → find (is_operation input.order_id OperationType.reserve) os ≡ some o
    → any (operation_clash (reservation input pending none)) os ≡ true
operation_clash-found input [] h = cc
operation_clash-found input (x ∷ os) {o} h = ground (arith, operation_clash-found input os {o = o})

-- The tables once the answer is sent again.
abbrev pub replied : ReservationInput → ReservationOutcome → Db → Db
replied input out db = record db { outbox = reservation_reply input out ∷ db.outbox }

-- The answer to a request that contradicts the order's reservation.
abbrev pub conflict : ReservationOutcome
conflict = ReservationOutcome.rejected ReservationRejection.conflicting_request none

-- A request for an order that holds a reservation goes to its replay.
reserve-replay :
    (input : ReservationInput) (uuid : ℕ) (db : Db) (o : Operation)
    → find (is_operation input.order_id OperationType.reserve) db.operations ≡ some o
    → valid_amount input.amount ≡ true
    → reserve input uuid db ≡ replay_or_reject input db
unfolding reserve
reserve-replay input uuid db o found valid =
    ground (arith, found, valid, operation_clash-found input db.operations {o = o} found)

module _ (input : ReservationInput) (db : Db) {out : ReservationOutcome} where
  replay_or_reject-replied :
      Answered input out db → replay_or_reject input db ≡ ok (out, replied input out db)
  unfolding replay_or_reject
  replay_or_reject-replied a = ground (arith, a.found, a.requester, a.amount, a.answer)

  replay_or_reject-Answered :
      {db' : Db}
      → replay_or_reject input db ≡ ok (out, db')
      → out ≢ conflict
      → Answered input out db'
  replay_or_reject-Answered {db'} h distinct =
      elim (Option-cases (find (is_operation input.order_id OperationType.reserve) db.operations)) [
        | inl missing ↦ absurd (unfold replay_or_reject in ground (arith, h, missing))
        | inr (o, found) ↦ record {
          row = o;
          found = unfold replay_or_reject in ground (arith, h, distinct, found);
          requester = unfold replay_or_reject in ground (arith, h, distinct, found);
          amount = unfold replay_or_reject in ground (arith, h, distinct, found);
          answer = unfold replay_or_reject in ground (arith, h, distinct, found);
        }
      ]

module _ (input : ReservationInput) (uuid : ℕ) (db : Db) {out : ReservationOutcome} {db' : Db} where
  reserve-valid : reserve input uuid db ≡ ok (out, db') → valid_amount input.amount ≡ true
  unfolding reserve
  reserve-valid h = ground arith

  reserve-Answered : reserve input uuid db ≡ ok (out, db') → out ≢ conflict → Answered input out db'
  unfolding reserve
  reserve-Answered h distinct =
      elim (Bool-cases (any (operation_clash (reservation input pending none)) db.operations)) [
        | inl old ↦ replay_or_reject-Answered input db (ground (arith, h, old)) distinct
        | inr new ↦ when_claimed-Answered input uuid db (ground (arith, h, new))
      ]

  -- A reservation request that was answered, other than by a conflict, is answered the same when it is
  -- delivered again, and nothing but the reply is written.
  pub reserve_again :
      (again : ℕ)
      → reserve input uuid db ≡ ok (out, db')
      → out ≢ conflict
      → reserve input again db' ≡ ok (out, replied input out db')
  reserve_again again h distinct =
      let a = reserve-Answered h distinct in
      reserve-replay input again db' a.row a.found (reserve-valid h)
      ∙ replay_or_reject-replied input db' a
