-- ===== src/Credit/Economy/Deliveries.antt =====
-- credit-service/src: no order and no repetition of messages opens the closed economy.
use foc_app.Common.{ℕ, ◌≡◌, Bool, true, List, [], ◌∷◌, refl, arith, subst, Bool-cases, inl, inr}
use foc_app.Credit.Db.{Db, Result, ok, err, Tx}
use foc_app.Credit.Invariants.{ledger_audit}
use foc_app.Credit.Consumers.{
  Queue, ProcessedEvent, Service, Delivery, activation, reservation, completion, release_request,
  commit, first_delivery, mark_processed, process_once, process_replayable, handle_activation,
  handle_reservation, handle_completion, handle_release, handle_delivery, deliver, deliver_all,
  rolled_back, empty_service, reservation_input, release_input, transfer_input,
}
use foc_app.Credit.Economy.Invariant.{Economy}
use foc_app.Credit.Economy.Issue.{issue_initial-Economy}
use foc_app.Credit.Economy.Reserve.{reserve-Economy}
use foc_app.Credit.Economy.Release.{release-Economy}
use foc_app.Credit.Economy.Transfer.{transfer-Economy}
use foc_app.Credit.Economy.Audit.{ledger_audit-none}

-- An effect that keeps the economy closed whenever it returns.
abbrev IsSafe : {A : Type 0} → Tx A → Type 0
IsSafe {A} effect =
    (db : Db) (out : A) (db' : Db) → effect db ≡ ok (out, db') → Economy db → Economy db'

commit-Economy :
    {A : Type 0} (r : Result (A × Db)) (first flag : Bool) (rows : List ProcessedEvent)
    {s' : Service}
    → ((out : A) (db' : Db) → r ≡ ok (out, db') → Economy db')
    → commit flag rows r ≡ ok (first, s')
    → Economy s'.books
commit-Economy (ok (out, db)) first flag rows closed h =
    subst Economy (ground (arith, h)) (closed out db refl)
commit-Economy (err e) first flag rows closed h = cc

module _ {A : Type 0} (q : Queue) (id : ℕ) (effect : Tx A) (safe : IsSafe effect)
    (s : Service) where
  process_replayable-Economy :
      {first : Bool} {s' : Service}
      → process_replayable q id effect s ≡ ok (first, s')
      → Economy s.books
      → Economy s'.books
  unfolding process_replayable
  process_replayable-Economy {first} h inv =
      commit-Economy (effect s.books) first (first_delivery q id s) (mark_processed q id s)
        (λ out db' e. safe s.books out db' e inv) h

  process_once-Economy :
      {first : Bool} {s' : Service}
      → process_once q id effect s ≡ ok (first, s')
      → Economy s.books
      → Economy s'.books
  unfolding process_once
  process_once-Economy {first} {s'} h inv = elim (Bool-cases (first_delivery q id s)) [
    | inl new ↦
        commit-Economy (effect s.books) first true (mark_processed q id s) {s' = s'}
          (λ out db' e. safe s.books out db' e inv) (ground (arith, h, new))
    | inr seen ↦ let same : s'.books ≡ s.books = ground (arith, h, seen) in rw same inv
  ]

handle_activation-IsSafe :
    (allocation uuid : ℕ) (e : _) → IsSafe (handle_activation allocation uuid e)
unfolding handle_activation
handle_activation-IsSafe allocation uuid e db out db' h inv =
    issue_initial-Economy allocation uuid e.payload.user_id db {first = out} (ground (arith, h)) inv

handle_reservation-IsSafe : (uuid : ℕ) (e : _) → IsSafe (handle_reservation uuid e)
unfolding handle_reservation
handle_reservation-IsSafe uuid e db out db' h inv =
    reserve-Economy (reservation_input e) db db' uuid {out = out} (ground (arith, h)) inv

handle_completion-IsSafe : (uuid : ℕ) (e : _) → IsSafe (handle_completion uuid e)
unfolding handle_completion
handle_completion-IsSafe uuid e db out db' h inv =
    transfer-Economy (transfer_input e) uuid db db' {out = out} (ground (arith, h)) inv

handle_release-IsSafe : (uuid : ℕ) (e : _) → IsSafe (handle_release uuid e)
unfolding handle_release
handle_release-IsSafe uuid e db out db' h inv =
    release-Economy (release_input e) uuid db db' {out = out} (ground (arith, h)) inv

handle_delivery-Economy :
    (allocation : ℕ) (d : Delivery) (s : Service) {first : Bool} {s' : Service}
    → handle_delivery allocation d s ≡ ok (first, s')
    → Economy s.books
    → Economy s'.books
unfolding handle_delivery
handle_delivery-Economy allocation (activation uuid e) s h inv =
    process_once-Economy _ _ _ (handle_activation-IsSafe allocation uuid e) s h inv
handle_delivery-Economy allocation (reservation uuid e) s h inv =
    process_replayable-Economy _ _ _ (handle_reservation-IsSafe uuid e) s h inv
handle_delivery-Economy allocation (completion uuid e) s h inv =
    process_replayable-Economy _ _ _ (handle_completion-IsSafe uuid e) s h inv
handle_delivery-Economy allocation (release_request uuid e) s h inv =
    process_replayable-Economy _ _ _ (handle_release-IsSafe uuid e) s h inv

rolled_back-Economy :
    (s : Service) (r : Result (Bool × Service))
    → Economy s.books
    → ((first : Bool) (s' : Service) → r ≡ ok (first, s') → Economy s'.books)
    → Economy (rolled_back s r).books
rolled_back-Economy s (ok (first, s')) inv h = h first s' refl
rolled_back-Economy s (err e) inv h = inv

-- One delivered message, committed or rolled back, keeps a closed economy closed.
pub deliver-Economy :
    (allocation : ℕ) (d : Delivery) (s : Service)
    → Economy s.books
    → Economy (deliver allocation d s).books
unfolding deliver
deliver-Economy allocation d s inv =
    rolled_back-Economy s (handle_delivery allocation d s) inv
      (λ first s' h. handle_delivery-Economy allocation d s h inv)

pub deliver_all-Economy :
    (allocation : ℕ) (ds : List Delivery) (s : Service)
    → Economy s.books
    → Economy (deliver_all allocation ds s).books
unfolding deliver_all
deliver_all-Economy allocation [] s inv = inv
deliver_all-Economy allocation (d ∷ ds) s inv =
    deliver_all-Economy allocation ds (deliver allocation d s) (deliver-Economy allocation d s inv)

pub empty-Economy : Economy empty_service.books
empty-Economy = record {
  unique = tt;
  conserved = refl;
  backed = λ u. refl;
  available_ledger = λ u. refl;
  reserved_ledger = λ u. refl;
  balanced = λ id. refl;
  reserves = λ k. refl;
  terminals = λ k. refl;
  amounts = λ u k. refl;
  after = λ k. ground arith;
}

-- Whatever messages arrive, in whatever order and however often, the ledger audit reports no violation:
-- credits are conserved, every wallet agrees with its ledger and its open reservations, and each order
-- is reserved once and settled once at most.
pub audit_always_clean :
    (allocation : ℕ) (ds : List Delivery)
    → ledger_audit (deliver_all allocation ds empty_service).books ≡ []
audit_always_clean allocation ds =
    ledger_audit-none (deliver_all allocation ds empty_service).books
      (deliver_all-Economy allocation ds empty_service empty-Economy)
