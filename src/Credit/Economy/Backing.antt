-- ===== src/Credit/Economy/Backing.antt =====
-- credit-service/src/credits/credit.repository.ts: the error "is not backed by reserved credit" of
-- `release` and `transfer` cannot occur in a closed economy.
use foc_app.Common.{
  ℕ, ◌≤◌, ◌≡◌, ◌≢◌, false, Option, some, none, arith, refl, subst, Option-cases, inl, inr,
}
use foc_app.Credit.Types.{ReleaseInput, TerminalRejection}
use foc_app.Credit.Db.{Operation, OperationType, Db, ok, err, not_backed, find_wallet}
use foc_app.Credit.Measures.{reserved_in, settled}
use foc_app.Credit.Repository.Checks.{find_terminal, lock_reservation, validate_reservation}
use foc_app.Credit.Repository.Release
use foc_app.Credit.Repository.Release.{release, settle_release, replay_release}
use foc_app.Credit.Repository.Effects.Checks.{
  bind-Stopped, Reserved, lock_reservation-same, validate_reservation-same,
  validate_reservation-Reserved,
}
use foc_app.Credit.Repository.Effects.Release.{release_transaction}
use foc_app.Credit.Economy.Invariant.{Economy}
use foc_app.Credit.Economy.Lists.{open_reserved-settle, unsettled_of_count}

-- An unsettled reservation is part of its requester's reserved balance.
pub reserved-covers :
    (input : ReleaseInput) (db : Db)
    → Economy db
    → Reserved input db
    → find_terminal input.order_id db.operations ≡ none
    → input.amount ≤ reserved_in (find_wallet input.requester_id db.wallets)
reserved-covers input db inv r unmade =
    let unsettled : settled (some input.order_id) db.transactions ≡ false =
      unsettled_of_count input.order_id db.transactions
        (ground (arith, unmade, inv.terminals input.order_id)) in
    ground (
      arith,
      inv.backed input.requester_id,
      inv.amounts input.requester_id input.order_id,
      r.found,
      r.active,
      r.requester,
      r.amount,
      open_reserved-settle input.requester_id input.order_id (release_transaction input 0)
          db.transactions db.transactions refl refl unsettled,
    )

module _ (input : ReleaseInput) (uuid : ℕ) (db : Db) (k : ℕ) where
  settle_release-backed :
      input.amount ≤ reserved_in (find_wallet input.requester_id db.wallets)
      → settle_release input uuid db ≢ err (not_backed k)
  settle_release-backed covered h =
      elim (Option-cases (find_wallet input.requester_id db.wallets)) [
        | inl missing ↦ unfold settle_release in ground (arith, h, missing, covered)
        | inr (w, found) ↦ unfold settle_release in ground (arith, h, found, covered)
      ]

  replay_release-backed : (prior : Operation) → replay_release prior input db ≢ err (not_backed k)
  unfolding replay_release
  replay_release-backed prior h = ground (arith, h)

  when_prior-backed :
      (prior : Option Operation)
      → Economy db
      → Reserved input db
      → find_terminal input.order_id db.operations ≡ prior
      → Release.when_prior input uuid prior db ≢ err (not_backed k)
  when_prior-backed none inv r e h = settle_release-backed (reserved-covers input db inv r e) h
  when_prior-backed (some prior) inv r e h = replay_release-backed prior h

  when_valid-backed :
      (o : Operation) (invalid : Option TerminalRejection) (between : Db)
      → Economy db
      → lock_reservation input.order_id db ≡ ok (o, db)
      → validate_reservation o input OperationType.release db ≡ ok (invalid, between)
      → Release.when_valid input uuid invalid between ≢ err (not_backed k)
  when_valid-backed o (some reason) between inv locked validated h = cc
  when_valid-backed o none between inv locked validated h =
      when_prior-backed (find_terminal input.order_id db.operations) inv
        (validate_reservation-Reserved input OperationType.release o db locked validated) refl
        (subst
          (λ x.
            Release.when_prior input uuid (find_terminal input.order_id x.operations) x
            ≡ err (not_backed k))
          (validate_reservation-same input OperationType.release o db validated) h)

  -- `release` never fails for want of reserved credit.
  pub release-backed : Economy db → release input uuid db ≢ err (not_backed k)
  unfolding release
  release-backed inv h = elim (bind-Stopped (lock_reservation input.order_id) _ db h) [
    | inl e ↦ unfold lock_reservation in ground (arith, e)
    | inr locked ↦
        let same = lock_reservation-same input.order_id db locked.first in
        elim (bind-Stopped (validate_reservation locked.value input OperationType.release) _
          locked.between locked.then) [
            | inl e ↦ unfold validate_reservation in ground (arith, e)
            | inr validated ↦
                when_valid-backed locked.value validated.value validated.between inv
                  (subst (λ x. lock_reservation input.order_id db ≡ ok (locked.value, x)) same
                    locked.first)
                  (subst
                    (λ x.
                      validate_reservation locked.value input OperationType.release x
                      ≡ ok (validated.value, validated.between))
                    same validated.first)
                  validated.then
          ]
  ]
