-- ===== src/Credit/Wallets.antt =====
-- credit-service/src/credits/wallets.service.ts and `listLedger` of credits/credit.repository.ts: a user's
-- ledger in pages. A transaction's `occurred_at` is a function of its id, in microseconds, which is
-- what the column keeps; base64 and JSON of a cursor are parameters.
pub mod Sorted
pub mod Pages
use foc_app.Common.{
  ℕ, zero, suc, ◌+◌, ◌*◌, ◌/◌, ◌&&◌, ◌||◌, Bool, true, false, Option, none, some, List, [], ◌∷◌,
  ◌++◌, leb, ltb, ◌==◌, any, filter, length, if◌then◌else◌,
}
use foc_app.Credit.Types.{TransactionType}
use foc_app.Credit.Db.{Db, Wallet, Transaction, LedgerEntry, Direction, credit, debit}

-- A row of `activity`. `SUM` is kept as what was credited and what was debited.
pub record ActivityRow : Type 0 where
  pub transaction_id : ℕ
  pub transaction_type : TransactionType
  pub amount : ℕ
  pub order_id : Option ℕ
  pub occurred_at : ℕ
  pub resulting_available : Option ℕ
  pub resulting_reserved : Option ℕ
  pub credited : ℕ
  pub debited : ℕ

abbrev is_user : ℕ → Option ℕ → Bool
is_user u none = false
is_user u (some w) = w == u

-- The JOIN and the WHERE of `activity`.
abbrev joins : (user_id transaction_id : ℕ) → LedgerEntry → Bool
joins u t e = (e.transaction_id == t) && is_user u e.wallet_user_id

abbrev later_entry : LedgerEntry → Option LedgerEntry → LedgerEntry
later_entry e none = e
later_entry e (some f) = if leb e.entry_no f.entry_no then f else e

-- `DISTINCT ON (transaction_id) … ORDER BY entry_no DESC`
abbrev last_entry : List LedgerEntry → Option LedgerEntry
last_entry [] = none
last_entry (e ∷ es) = some (later_entry e (last_entry es))

abbrev sum_of : (Direction → Bool) → List LedgerEntry → ℕ
sum_of p [] = 0
sum_of p (e ∷ es) = let rest = sum_of p es in if p e.direction then e.amount + rest else rest

abbrev is_credit : Direction → Bool
is_credit credit = true
is_credit debit = false

abbrev is_debit : Direction → Bool
is_debit credit = false
is_debit debit = true

abbrev activity_of :
    (occurred_at : ℕ → ℕ)
    → Transaction
    → List LedgerEntry
    → Option LedgerEntry
    → List ActivityRow
    → List ActivityRow
activity_of occurred_at t es none rest = rest
activity_of occurred_at t es (some e) rest =
    record {
      transaction_id = t.transaction_id;
      transaction_type = t.transaction_type;
      amount = t.amount;
      order_id = t.order_id;
      occurred_at = occurred_at t.transaction_id;
      resulting_available = e.resulting_available;
      resulting_reserved = e.resulting_reserved;
      credited = sum_of is_credit es;
      debited = sum_of is_debit es;
    }
    ∷ rest

-- `activity`
abbrev pub activity :
    (occurred_at : ℕ → ℕ) → (user_id : ℕ) → List LedgerEntry → List Transaction → List ActivityRow
activity occurred_at u es [] = []
activity occurred_at u es (t ∷ ts) =
    activity_of occurred_at t (filter (joins u t.transaction_id) es)
      (last_entry (filter (joins u t.transaction_id) es)) (activity occurred_at u es ts)

-- A place in the order of the ledger, in microseconds.
pub record Place : Type 0 where
  pub at_ : ℕ
  pub id : ℕ

abbrev pub place : ActivityRow → Place
place r = record { at_ = r.occurred_at; id = r.transaction_id }

-- `(a.occurred_at, a.transaction_id) < (b.occurred_at, b.transaction_id)`
abbrev pub before : Place → Place → Bool
before a b = ltb a.at_ b.at_ || ((a.at_ == b.at_) && ltb a.id b.id)

abbrev pub insert : ActivityRow → List ActivityRow → List ActivityRow
insert r [] = r ∷ []
insert r (s ∷ ss) =
    let rest = insert r ss in if before (place r) (place s) then s ∷ rest else r ∷ s ∷ ss

-- `ORDER BY occurred_at DESC, transaction_id DESC`
abbrev pub newest_first : List ActivityRow → List ActivityRow
newest_first [] = []
newest_first (r ∷ rs) = insert r (newest_first rs)

-- A cursor's time is an ISO string of milliseconds.
pub record Cursor : Type 0 where
  pub occurred_at_ms : ℕ
  pub transaction_id : ℕ

abbrev pub after_cursor : Option Cursor → List ActivityRow → List ActivityRow
after_cursor none rs = rs
after_cursor (some c) rs =
    filter
      (λ (r : ActivityRow).
        before (place r) (record { at_ = c.occurred_at_ms * 1000; id = c.transaction_id }))
      rs

abbrev pub first_rows : ℕ → List ActivityRow → List ActivityRow
first_rows zero rs = []
first_rows (suc n) [] = []
first_rows (suc n) (r ∷ rs) = r ∷ first_rows n rs

pub record Rows : Type 0 where
  pub rows : List ActivityRow
  pub has_more : Bool

-- `listLedger`, from the sorted rows.
abbrev pub list_ledger : (limit : ℕ) → Option Cursor → List ActivityRow → Rows
list_ledger limit cursor sorted =
    let found = first_rows (limit + 1) (after_cursor cursor sorted) in
    record { rows = first_rows limit found; has_more = ltb limit (length found) }

-- The millisecond of `iso(row.occurred_at)`.
abbrev pub cursor_of : ActivityRow → Cursor
cursor_of r = record { occurred_at_ms = r.occurred_at / 1000; transaction_id = r.transaction_id }

abbrev pub last_row : List ActivityRow → Option ActivityRow
last_row [] = none
last_row (r ∷ []) = some r
last_row (r ∷ s ∷ rs) = last_row (s ∷ rs)

-- The `limit` of a query.
pub data Numeral : Type 0 where
  whole : ℕ → Numeral
  other : Numeral

pub data LedgerError : Type 0 where
  wallet_not_found invalid_cursor invalid_page_size : LedgerError

pub data Reply : Type 0 where
  refused : LedgerError → Reply
  answered : (items : List ActivityRow) → (next_cursor : Option (List ℕ)) → Reply

-- `parseLimit`
abbrev pub parse_limit : Option Numeral → Option ℕ
parse_limit none = some 20
parse_limit (some other) = none
parse_limit (some (whole n)) = if leb 1 n && leb n 100 then some n else none

pub record CursorCode : Type 0 where
  pub encode : Cursor → List ℕ
  pub parse : List ℕ → Option Cursor

abbrev parsed_cursor : Option Cursor → Option (Option Cursor)
parsed_cursor none = none
parsed_cursor (some c) = some (some c)

-- `decodeCursor`, of an absent or empty text or of another: `none` is INVALID_CURSOR.
abbrev pub decode_cursor : CursorCode → Option (List ℕ) → Option (Option Cursor)
decode_cursor k none = some none
decode_cursor k (some text) = parsed_cursor (k.parse text)

abbrev next_of : CursorCode → Bool → Option ActivityRow → Option (List ℕ)
next_of k true (some r) = some (k.encode (cursor_of r))
next_of k true none = none
next_of k false r = none

abbrev pub page_of : CursorCode → Rows → Reply
page_of k p = answered p.rows (next_of k p.has_more (last_row p.rows))

abbrev pub ledger_at : CursorCode → List ActivityRow → (limit : ℕ) → Option (Option Cursor) → Reply
ledger_at k sorted limit none = refused invalid_cursor
ledger_at k sorted limit (some cursor) = page_of k (list_ledger limit cursor sorted)

abbrev pub ledger_limit : CursorCode → List ActivityRow → Option ℕ → Option (List ℕ) → Reply
ledger_limit k sorted none cursor = refused invalid_page_size
ledger_limit k sorted (some limit) cursor = ledger_at k sorted limit (decode_cursor k cursor)

abbrev ledger_found : Bool → Reply → Reply
ledger_found false page = refused wallet_not_found
ledger_found true page = page

-- `ledger`
unfoldable pub ledger :
    CursorCode
    → (occurred_at : ℕ → ℕ) → (user_id : ℕ) → Option Numeral
    → Option (List ℕ)
    → Db
    → Reply
ledger k occurred_at user_id limit cursor db =
    ledger_found (any (λ (w : Wallet). w.user_id == user_id) db.wallets) (
      ledger_limit k (newest_first (activity occurred_at user_id db.entries db.transactions))
        (parse_limit limit) cursor)

abbrev pub with_items : List ActivityRow → Option (List ActivityRow) → Option (List ActivityRow)
with_items items none = none
with_items items (some rest) = some (items ++ rest)

abbrev pub follow_reply : Reply → (List ℕ → Option (List ActivityRow)) → Option (List ActivityRow)
follow_reply (refused e) rest = none
follow_reply (answered items none) rest = some items
follow_reply (answered items (some cursor)) rest = with_items items (rest cursor)

-- The items that a client gets which follows `nextCursor` to the end. `none` is out of fuel, or a
-- request was refused.
unfoldable pub follow :
    CursorCode
    → (occurred_at : ℕ → ℕ) → (user_id : ℕ) → (limit fuel : ℕ) → Option (List ℕ)
    → Db
    → Option (List ActivityRow)
follow k occurred_at user_id limit zero cursor db = none
follow k occurred_at user_id limit (suc fuel) cursor db =
    follow_reply (ledger k occurred_at user_id (some (whole limit)) cursor db)
      (λ next. follow k occurred_at user_id limit fuel (some next) db)
