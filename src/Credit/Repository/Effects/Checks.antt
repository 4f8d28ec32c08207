-- ===== src/Credit/Repository/Effects/Checks.antt =====
-- credit-service/src/credits/credit.repository.ts: what `release` and `transfer` have checked before they
-- settle.
use foc_app.Common.{ℕ, ◌≡◌, ◌⊎◌, inl, inr, true, none, some, find, refl, arith}
use foc_app.Credit.Types.{ReleaseInput, TerminalRejection}
use foc_app.Credit.Db.{
  Operation, OperationType, Db, Error, Result, ok, err, Tx, ◌>>=◌, is_operation,
}
use foc_app.Credit.Measures.{granted}
use foc_app.Credit.Repository.Checks.{lock_reservation, validate_reservation}
use foc_app.Credit.Repository.Effects.Reserve.{SameBooks}

-- The first step's value and tables, when two steps in a row return.
pub record Ran {A B : Type 0} (m : Tx A) (f : A → Tx B) (db : Db) (b : B) (db' : Db) : Type 0 where
  pub value : A
  pub between : Db
  pub first : m db ≡ ok (value, between)
  pub then : f value between ≡ ok (b, db')

bind_result-Ran :
    {A B : Type 0} {m : Tx A} {f : A → Tx B} {db : Db} {b : B} {db' : Db} (r : Result (A × Db))
    → m db ≡ r
    → (m >>= f) db ≡ ok (b, db')
    → Ran m f db b db'
bind_result-Ran (ok (a, db1)) e h = record {
  value = a;
  between = db1;
  first = e;
  then = ground (arith, e, h);
}
bind_result-Ran (err x) e h = absurd (ground (arith, e, h))

pub bind-Ran :
    {A B : Type 0} (m : Tx A) (f : A → Tx B) (db : Db) {b : B} {db' : Db}
    → (m >>= f) db ≡ ok (b, db')
    → Ran m f db b db'
bind-Ran m f db h = bind_result-Ran (m db) refl h

-- The first step's value and tables, when the second step raises.
pub record Stopped {A B : Type 0} (m : Tx A) (f : A → Tx B) (db : Db) (e : Error) : Type 0 where
  pub value : A
  pub between : Db
  pub first : m db ≡ ok (value, between)
  pub then : f value between ≡ err e

bind_result-Stopped :
    {A B : Type 0} {m : Tx A} {f : A → Tx B} {db : Db} {e : Error} (r : Result (A × Db))
    → m db ≡ r
    → (m >>= f) db ≡ err e
    → (m db ≡ err e) ⊎ Stopped m f db e
bind_result-Stopped (ok (a, db1)) q h =
    inr (record { value = a; between = db1; first = q; then = ground (arith, q, h) })
bind_result-Stopped (err x) q h = inl (ground (arith, q, h))

pub bind-Stopped :
    {A B : Type 0} (m : Tx A) (f : A → Tx B) (db : Db) {e : Error}
    → (m >>= f) db ≡ err e
    → (m db ≡ err e) ⊎ Stopped m f db e
bind-Stopped m f db h = bind_result-Stopped (m db) refl h

-- The reservation that an input names: granted, to this requester, of this amount.
pub record Reserved (input : ReleaseInput) (db : Db) : Type 0 where
  pub row : Operation
  pub found : find (is_operation input.order_id OperationType.reserve) db.operations ≡ some row
  pub active : granted (some row) ≡ true
  pub requester : row.requester_id ≡ input.requester_id
  pub amount : row.amount ≡ input.amount

module _ (input : ReleaseInput) (kind : OperationType) (o : Operation) (db : Db) {db' : Db} where
  pub validate_reservation-Reserved :
      lock_reservation input.order_id db ≡ ok (o, db)
      → validate_reservation o input kind db ≡ ok (none, db')
      → Reserved input db
  unfolding lock_reservation validate_reservation
  validate_reservation-Reserved locked h = record {
    row = o;
    found = ground arith;
    active = ground arith;
    requester = ground arith;
    amount = ground arith;
  }

  pub validate_reservation-same : validate_reservation o input kind db ≡ ok (none, db') → db' ≡ db
  unfolding validate_reservation
  validate_reservation-same h = ground arith

  pub validate_reservation-SameBooks :
      {reason : TerminalRejection}
      → validate_reservation o input kind db ≡ ok (some reason, db')
      → SameBooks db db'
  unfolding validate_reservation
  validate_reservation-SameBooks h = record {
    wallets = ground arith;
    transactions = ground arith;
    entries = ground arith;
    operations = ground arith;
  }

pub lock_reservation-same :
    (k : ℕ) (db : Db) {o : Operation} {db' : Db} → lock_reservation k db ≡ ok (o, db') → db' ≡ db
unfolding lock_reservation
lock_reservation-same k db h = ground arith
