-- ===== src/Credit/Economy/Reachable.antt =====
-- credit-service/src: in no reachable state does a settlement find its reserved credits missing.
use foc_app.Common.{ℕ, ◌≡◌, ◌≢◌, Bool, true, false, List, arith, inl, inr}
use foc_app.Credit.Db.{Db, Error, Result, ok, err, not_backed, insert_wallet}
use foc_app.Credit.Repository.Effects.Checks.{bind-Stopped}
use foc_app.Credit.Repository.Issue.{issue_initial, issue_new}
use foc_app.Credit.Repository.Reserve.{reserve}
use foc_app.Credit.Consumers.{
  Service, Delivery, ProcessedEvent, activation, reservation, completion, release_request, commit,
  process_once, process_replayable, handle_activation, handle_reservation, handle_completion,
  handle_release, handle_delivery, deliver_all, empty_service, transfer_input, release_input,
  reservation_input,
}
use foc_app.Credit.Economy.Invariant.{Economy}
use foc_app.Credit.Economy.Backing.{release-backed}
use foc_app.Credit.Economy.Payable.{transfer-backed}
use foc_app.Credit.Economy.Deliveries.{deliver_all-Economy, empty-Economy}

issue_new-backed :
    (allocation uuid user : ℕ) (inserted : Bool) (db : Db) (k : ℕ)
    → issue_new allocation uuid user inserted db ≢ err (not_backed k)
unfolding issue_new
issue_new-backed allocation uuid user true db k h = ground (arith, h)
issue_new-backed allocation uuid user false db k h = cc

issue_initial-backed :
    (allocation uuid user : ℕ) (db : Db) (k : ℕ)
    → issue_initial allocation uuid user db ≢ err (not_backed k)
unfolding issue_initial
issue_initial-backed allocation uuid user db k h =
    elim (bind-Stopped (insert_wallet user allocation) _ db h) [
      | inl e ↦ unfold insert_wallet in ground (arith, e)
      | inr run ↦ issue_new-backed allocation uuid user run.value run.between k run.then
    ]

reserve-backed :
    (input : _) (uuid : ℕ) (db : Db) (k : ℕ) → reserve input uuid db ≢ err (not_backed k)
unfolding reserve
reserve-backed input uuid db k h = ground (arith, h)

commit-backed :
    {A : Type 0} (flag : Bool) (rows : List ProcessedEvent) (r : Result (A × Db)) (e : Error)
    → commit flag rows r ≡ err e
    → r ≡ err e
commit-backed flag rows (ok (out, db)) e h = cc
commit-backed flag rows (err x) e h = ground (arith, h)

handle_delivery-backed :
    (allocation : ℕ) (d : Delivery) (s : Service) (k : ℕ)
    → Economy s.books
    → handle_delivery allocation d s ≢ err (not_backed k)
unfolding handle_delivery
handle_delivery-backed allocation (activation uuid e) s k inv h =
    issue_initial-backed allocation uuid e.payload.user_id s.books k (
      unfold process_once handle_activation in
      ground (
        arith,
        h,
        commit-backed true _ (handle_activation allocation uuid e s.books) (not_backed k),
      ))
handle_delivery-backed allocation (reservation uuid e) s k inv h =
    reserve-backed (reservation_input e) uuid s.books k (
      unfold process_replayable handle_reservation in
      ground (arith, h, commit-backed _ _ (handle_reservation uuid e s.books) (not_backed k)))
handle_delivery-backed allocation (completion uuid e) s k inv h =
    transfer-backed (transfer_input e) uuid s.books k inv (
      unfold process_replayable handle_completion in
      ground (arith, h, commit-backed _ _ (handle_completion uuid e s.books) (not_backed k)))
handle_delivery-backed allocation (release_request uuid e) s k inv h =
    release-backed (release_input e) uuid s.books k inv (
      unfold process_replayable handle_release in
      ground (arith, h, commit-backed _ _ (handle_release uuid e s.books) (not_backed k)))

-- After any sequence of messages, handling a further one never fails because the reservation it settles
-- is not backed by reserved credit.
pub always_backed :
    (allocation : ℕ) (ds : List Delivery) (d : Delivery) (order : ℕ)
    → handle_delivery allocation d (deliver_all allocation ds empty_service)
      ≢ err (not_backed order)
always_backed allocation ds d order =
    handle_delivery-backed allocation d (deliver_all allocation ds empty_service) order
      (deliver_all-Economy allocation ds empty_service empty-Economy)
