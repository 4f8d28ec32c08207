-- ===== src/Credit/Economy/Payable.antt =====
-- credit-service/src/credits/credit.repository.ts: "is not backed by reserved credit" cannot occur in
-- `transfer` either.
use foc_app.Common.{
  ℕ, ◌≤◌, ◌≡◌, ◌≢◌, Option, some, none, ◌==◌, arith, refl, subst, Bool-cases, Option-cases, inl,
  inr,
}
use foc_app.Credit.Types.{TransferInput, TerminalRejection}
use foc_app.Credit.Db.{
  Wallet, Operation, OperationType, Db, ok, err, not_backed, find_wallet, put_wallet,
}
use foc_app.Credit.Measures.{reserved_in}
use foc_app.Credit.Repository.Checks.{
  terminal_of, find_terminal, lock_reservation, validate_reservation,
}
use foc_app.Credit.Repository.Transfer
use foc_app.Credit.Repository.Transfer.{
  transfer, settle_transfer, settle_locked, replay_transfer, reject_transfer,
}
use foc_app.Credit.Repository.Effects.Checks.{
  bind-Stopped, Reserved, lock_reservation-same, validate_reservation-same,
  validate_reservation-Reserved,
}
use foc_app.Credit.Repository.Effects.Transfer.{charged}
use foc_app.Credit.Economy.Invariant.{Economy}
use foc_app.Credit.Economy.Backing.{reserved-covers}

module _ (input : TransferInput) (uuid : ℕ) (db : Db) (k : ℕ) where
  settle_locked-backed :
      (w : Wallet)
      → find_wallet input.requester_id db.wallets ≡ some w
      → input.amount ≤ w.reserved
      → settle_locked input uuid db ≢ err (not_backed k)
  settle_locked-backed w found covered h =
      elim (Option-cases (find_wallet input.courier_id (put_wallet (charged input w) db.wallets))) [
        | inl missing ↦ unfold settle_locked in ground (arith, h, found, covered, missing)
        | inr (v, payee) ↦ unfold settle_locked in ground (arith, h, found, covered, payee)
      ]

  settle_transfer-backed :
      input.amount ≤ reserved_in (find_wallet input.requester_id db.wallets)
      → settle_transfer input uuid db ≢ err (not_backed k)
  settle_transfer-backed covered h =
      elim (Option-cases (find_wallet input.requester_id db.wallets)) [
        | inl missing ↦ unfold settle_transfer in ground (arith, h, missing)
        | inr (w, found) ↦
            settle_locked-backed w found (ground (arith, found, covered))
              (unfold settle_transfer in ground (arith, h, found))
      ]

  replay_transfer-backed : (prior : Operation) → replay_transfer prior input db ≢ err (not_backed k)
  unfolding replay_transfer
  replay_transfer-backed prior h = ground (arith, h)

  when_prior-backed :
      (prior : Option Operation)
      → Economy db
      → Reserved (terminal_of input) db
      → find_terminal input.order_id db.operations ≡ prior
      → Transfer.when_prior input uuid prior db ≢ err (not_backed k)
  when_prior-backed none inv r e h =
      settle_transfer-backed (reserved-covers (terminal_of input) db inv r e) h
  when_prior-backed (some prior) inv r e h = replay_transfer-backed prior h

  when_unmarked-backed :
      Economy db
      → Reserved (terminal_of input) db
      → Transfer.when_valid input uuid none db ≢ err (not_backed k)
  when_unmarked-backed inv r h = elim (Bool-cases (input.requester_id == input.courier_id)) [
    | inl same ↦ unfold reject_transfer in ground (arith, h, same)
    | inr distinct ↦
        when_prior-backed (find_terminal input.order_id db.operations) inv r refl
          (ground (arith, h, distinct))
  ]

  when_valid-backed :
      (o : Operation) (invalid : Option TerminalRejection) (between : Db)
      → Economy db
      → lock_reservation input.order_id db ≡ ok (o, db)
      → validate_reservation o (terminal_of input) OperationType.transfer db ≡ ok (invalid, between)
      → Transfer.when_valid input uuid invalid between ≢ err (not_backed k)
  when_valid-backed o (some reason) between inv locked validated h = cc
  when_valid-backed o none between inv locked validated h =
      when_unmarked-backed inv
        (validate_reservation-Reserved (terminal_of input) OperationType.transfer o db locked
          validated)
        (subst (λ x. Transfer.when_valid input uuid none x ≡ err (not_backed k))
          (validate_reservation-same (terminal_of input) OperationType.transfer o db validated) h)

  -- `transfer` never fails for want of reserved credit.
  pub transfer-backed : Economy db → transfer input uuid db ≢ err (not_backed k)
  unfolding transfer
  transfer-backed inv h = elim (bind-Stopped (lock_reservation input.order_id) _ db h) [
    | inl e ↦ unfold lock_reservation in ground (arith, e)
    | inr locked ↦
        let same = lock_reservation-same input.order_id db locked.first in
        elim (bind-Stopped
          (validate_reservation locked.value (terminal_of input) OperationType.transfer) _
          locked.between locked.then) [
            | inl e ↦ unfold validate_reservation in ground (arith, e)
            | inr validated ↦
                when_valid-backed locked.value validated.value validated.between inv
                  (subst (λ x. lock_reservation input.order_id db ≡ ok (locked.value, x)) same
                    locked.first)
                  (subst
                    (λ x.
                      validate_reservation locked.value (terminal_of input) OperationType.transfer x
                      ≡ ok (validated.value, validated.between))
                    same validated.first)
                  validated.then
          ]
  ]
