-- ===== src/Credit/Economy/Settles.antt =====
-- credit-service/src/credits/credit.repository.ts: a first settlement of a granted reservation succeeds.
use foc_app.Common.{
  ℕ, ◌≤◌, ◌≡◌, true, false, Option, some, none, List, [], ◌∷◌, any, find, ◌==◌, ◌&&◌, arith, refl,
  ap, ◌∙◌,
}
use foc_app.Credit.Types.{ReleaseInput, released}
use foc_app.Credit.Db.{
  Wallet, Transaction, LedgerEntry, Operation, OperationType, Db, Result, ok, err, Tx, ◌>>=◌,
  pending, clashes, operation_clash, is_terminal_of, valid_amount, in_range, find_wallet,
  put_wallet, insert_operation,
}
use foc_app.Credit.Measures.{settled}
use foc_app.Credit.Repository.Checks.{find_terminal, lock_reservation, validate_reservation}
use foc_app.Credit.Repository.Release
use foc_app.Credit.Repository.Release.{release, settle_release, return_reserved, record_release}
use foc_app.Credit.Repository.Effects.Checks.{Reserved}
use foc_app.Credit.Repository.Effects.Release.{
  settlement, returned, release_transaction, release_result,
}
use foc_app.Credit.Economy.Invariant.{Economy}
use foc_app.Credit.Economy.Lists.{unsettled_of_count, find_wallet-put_wallet}
use foc_app.Credit.Economy.Backing.{reserved-covers}

-- The answer of a call that returned.
abbrev pub answer : {A : Type 0} → Result (A × Db) → Option A
answer (ok (out, db)) = some out
answer (err e) = none

-- No row carries the identifier.
abbrev pub IsFresh : ℕ → Db → Type 0
IsFresh uuid db =
    (any (λ t. t.transaction_id == uuid) db.transactions ≡ false)
    × (any (λ e. e.transaction_id == uuid) db.entries ≡ false)

bind-step :
    {A B : Type 0} (m : Tx A) (f : A → Tx B) (db : Db) {a : A} {db1 : Db}
    → m db ≡ ok (a, db1)
    → (m >>= f) db ≡ f a db1
bind-step m f db h = ground (arith, h)

clashes-release :
    (input : ReleaseInput) (uuid : ℕ) (ts : List Transaction)
    → any (λ t. t.transaction_id == uuid) ts ≡ false
    → settled (some input.order_id) ts ≡ false
    → any (clashes (release_transaction input uuid)) ts ≡ false
unfolding clashes
clashes-release input uuid [] fresh open_order = refl
clashes-release input uuid (t ∷ ts) fresh open_order = ground (arith, clashes-release input uuid ts)

operation_clash-release :
    (input : ReleaseInput) (os : List Operation)
    → find (is_terminal_of input.order_id) os ≡ none
    → any (operation_clash (settlement input pending none)) os ≡ false
operation_clash-release input [] h = refl
operation_clash-release input (o ∷ os) h = ground (arith, operation_clash-release input os)

entry-fresh :
    (uuid n : ℕ) (es : List LedgerEntry)
    → any (λ e. e.transaction_id == uuid) es ≡ false
    → any (λ r. (r.transaction_id == uuid) && (r.entry_no == n)) es ≡ false
entry-fresh uuid n [] h = refl
entry-fresh uuid n (e ∷ es) h = ground (arith, entry-fresh uuid n es)

module _ (input : ReleaseInput) (uuid : ℕ) (db : Db) (w : Wallet) where
  -- The tables once the settlement is claimed, and once the credits are back.
  abbrev entered : Db
  entered = record db { operations = settlement input pending none ∷ db.operations }

  abbrev paid_back : Db
  paid_back = record entered { wallets = put_wallet (returned input w) db.wallets }

  insert_operation-entered :
      find_terminal input.order_id db.operations ≡ none
      → valid_amount input.amount ≡ true
      → insert_operation (settlement input pending none) db ≡ ok (tt, entered)
  unfolding insert_operation
  insert_operation-entered unmade valid =
      ground (arith, unmade, valid, operation_clash-release input db.operations unmade)

  return_reserved-paid_back :
      find_wallet input.requester_id db.wallets ≡ some w
      → input.amount ≤ w.reserved
      → in_range (returned input w) ≡ true
      → return_reserved input entered ≡ ok (some (returned input w), paid_back)
  unfolding return_reserved
  return_reserved-paid_back found covered fits = ground (arith, found, covered, fits)

  record_release-answer :
      IsFresh uuid db
      → settled (some input.order_id) db.transactions ≡ false
      → valid_amount input.amount ≡ true
      → find_wallet input.requester_id db.wallets ≡ some w
      → answer (record_release input uuid (returned input w) paid_back)
        ≡ some (released (release_result input uuid w))
  unfolding record_release
  record_release-answer fresh unsettled valid found = ground (
    arith,
    valid,
    found,
    clashes-release input uuid db.transactions fresh.0 unsettled,
    entry-fresh uuid 1 db.entries fresh.1,
    entry-fresh uuid 2 db.entries fresh.1,
    find_wallet-put_wallet input.requester_id w (returned input w) db.wallets input.requester_id
        found refl,
  )

  settle_release-answer :
      IsFresh uuid db
      → settled (some input.order_id) db.transactions ≡ false
      → find_terminal input.order_id db.operations ≡ none
      → valid_amount input.amount ≡ true
      → find_wallet input.requester_id db.wallets ≡ some w
      → input.amount ≤ w.reserved
      → in_range (returned input w) ≡ true
      → answer (settle_release input uuid db) ≡ some (released (release_result input uuid w))
  unfolding settle_release
  settle_release-answer fresh unsettled unmade valid found covered fits =
      ap answer (
        bind-step (insert_operation (settlement input pending none)) _ db
          (insert_operation-entered unmade valid)
        ∙ bind-step (return_reserved input) _ entered
            (return_reserved-paid_back found covered fits))
      ∙ record_release-answer fresh unsettled valid found

  unsettled :
      Economy db
      → find_terminal input.order_id db.operations ≡ none
      → settled (some input.order_id) db.transactions ≡ false
  unsettled inv unmade =
      unsettled_of_count input.order_id db.transactions
        (ground (arith, unmade, inv.terminals input.order_id))

  release-settle :
      Reserved input db
      → find_terminal input.order_id db.operations ≡ none
      → release input uuid db ≡ settle_release input uuid db
  unfolding release
  release-settle r unmade =
      bind-step (lock_reservation input.order_id) _ db {a = r.row} {db1 = db}
        (unfold lock_reservation in ground (arith, r.found, r.active))
      ∙ bind-step (validate_reservation r.row input OperationType.release) _ db {a = none}
          {db1 = db}
          (unfold validate_reservation in ground (arith, r.active, r.requester, r.amount))
      ∙ ap (λ x. Release.when_prior input uuid x db) unmade

  -- In a closed economy, the release of a granted reservation that nothing settled answers with the two
  -- new balances, if its transaction identifier is new, its amount is valid, the requester has a
  -- wallet and the balance with the amount returned stays in the range of the column.
  pub release_settles :
      Economy db
      → Reserved input db
      → find_terminal input.order_id db.operations ≡ none
      → IsFresh uuid db
      → valid_amount input.amount ≡ true
      → find_wallet input.requester_id db.wallets ≡ some w
      → in_range (returned input w) ≡ true
      → answer (release input uuid db) ≡ some (released (release_result input uuid w))
  release_settles inv r unmade fresh valid found fits =
      ap answer (release-settle r unmade)
      ∙ settle_release-answer fresh (unsettled inv unmade) unmade valid found
          (ground (arith, found, reserved-covers input db inv r unmade)) fits
