-- ===== src/Credit/Wallets/Pages.antt =====
-- credit-service/src/credits/wallets.service.ts: the pages of a ledger put together.
use foc_app.Common.{
  ℕ, zero, suc, ◌+◌, ◌*◌, ◌/◌, ◌<◌, ◌≤◌, true, false, Option, none, some, List, [], ◌∷◌, ◌++◌, ltb,
  ◌==◌, any, length, All, Pairwise, ◌≡◌, ◌≢◌, inl, inr, refl, sym, ap, ◌∙◌, subst, arith,
  Bool-cases,
}
use foc_app.Credit.Db.{Db, Wallet, Transaction}
use foc_app.Credit.Wallets.{
  ActivityRow, activity, newest_first, Cursor, cursor_of, after_cursor, first_rows, last_row, whole,
  answered, CursorCode, parse_limit, decode_cursor, ledger_at, ledger, follow,
}
use foc_app.Credit.Wallets.Sorted.{Newer, after_row, sorted-Newer}

all_rows : (n : ℕ) (rs : List ActivityRow) → length rs ≤ n → first_rows n rs ≡ rs
all_rows zero [] h = refl
all_rows zero (r ∷ rs) h = absurd (omega arith)
all_rows (suc n) [] h = refl
all_rows (suc n) (r ∷ rs) h = ap (◌∷◌ r) (all_rows n rs (omega arith))

first_first :
    (n : ℕ) (rs : List ActivityRow) → first_rows n (first_rows (suc n) rs) ≡ first_rows n rs
first_first zero rs = refl
first_first (suc n) [] = refl
first_first (suc n) (r ∷ rs) = ap (◌∷◌ r) (first_first n rs)

length_first :
    (n : ℕ) (rs : List ActivityRow) → n < length rs → length (first_rows (suc n) rs) ≡ suc n
length_first zero [] h = absurd (omega arith)
length_first zero (r ∷ rs) h = refl
length_first (suc n) [] h = absurd (omega arith)
length_first (suc n) (r ∷ rs) h = omega (arith, length_first n rs (omega arith))

-- A page that is not the last one: its rows, the last of them, and the rows that follow.
record Cut (n : ℕ) (rs : List ActivityRow) : Type 0 where
  front : List ActivityRow
  last : ActivityRow
  rest : List ActivityRow
  whole_list : rs ≡ front ++ last ∷ rest
  page : first_rows (suc n) rs ≡ front ++ last ∷ []
  shorter : length rest < length rs

cut : (n : ℕ) (rs : List ActivityRow) → suc n < length rs → Cut n rs
cut zero [] h = absurd (omega arith)
cut zero (r ∷ rs) h = record {
  front = [];
  last = r;
  rest = rs;
  whole_list = refl;
  page = refl;
  shorter = omega arith;
}
cut (suc n) [] h = absurd (omega arith)
cut (suc n) (r ∷ rs) h =
    let c = cut n rs (omega arith) in
    record {
      front = r ∷ c.front;
      last = c.last;
      rest = c.rest;
      whole_list = ap (◌∷◌ r) c.whole_list;
      page = ap (◌∷◌ r) c.page;
      shorter = omega (arith, c.shorter);
    }

last_of : (front : List ActivityRow) (r : ActivityRow) → last_row (front ++ r ∷ []) ≡ some r
last_of [] r = refl
last_of (s ∷ []) r = refl
last_of (s ∷ t ∷ front) r = last_of (t ∷ front) r

append_assoc : (xs ys zs : List ActivityRow) → (xs ++ ys) ++ zs ≡ xs ++ (ys ++ zs)
append_assoc [] ys zs = refl
append_assoc (x ∷ xs) ys zs = ap (◌∷◌ x) (append_assoc xs ys zs)

-- What `encode` writes, `parse` reads.
abbrev pub Decodes : CursorCode → Type 0
Decodes k = (c : Cursor) → k.parse (k.encode c) ≡ some c

-- The time is a whole number of milliseconds.
abbrev pub IsWhole : ActivityRow → Type 0
IsWhole r = (r.occurred_at / 1000) * 1000 ≡ r.occurred_at

middle_row :
    (P : ActivityRow → Type 0) (front : List ActivityRow) (r : ActivityRow)
    (rest : List ActivityRow)
    → All P (front ++ r ∷ rest)
    → P r
middle_row P [] r rest h = h.0
middle_row P (s ∷ front) r rest h = middle_row P front r rest h.1

-- The cursor that `text` stands for leaves the rows `rs` at the end of the ledger.
record Leaves (k : CursorCode) (sorted : List ActivityRow) (text : Option (List ℕ))
    (rs : List ActivityRow) : Type 0 where
  cursor : Option Cursor
  front : List ActivityRow
  decoded : decode_cursor k text ≡ some cursor
  left : after_cursor cursor sorted ≡ rs
  split : sorted ≡ front ++ rs

module _ (k : CursorCode) (decodes : Decodes k) (n : ℕ) (sorted : List ActivityRow)
    (order : Pairwise Newer sorted) (whole_times : All IsWhole sorted) where
  last_page :
      (text : Option (List ℕ)) (rs : List ActivityRow)
      → Leaves k sorted text rs
      → length rs ≤ suc n
      → ledger_at k sorted (suc n) (decode_cursor k text) ≡ answered rs none
  last_page text rs l h =
      let fits : ltb (suc n) (length rs) ≡ false = ground arith in
      rw (l.decoded, l.left, all_rows (suc n + 1) rs (omega arith), all_rows (suc n) rs h, fits)
        refl

  full_page :
      (text : Option (List ℕ)) (rs : List ActivityRow)
      → Leaves k sorted text rs
      → (c : Cut n rs) → suc n < length rs
      → ledger_at k sorted (suc n) (decode_cursor k text)
        ≡ answered (c.front ++ c.last ∷ []) (some (k.encode (cursor_of c.last)))
  full_page text rs l c h =
      let more : ltb (suc n) (suc (suc n)) ≡ true = ground arith in
      let one_more : suc n + 1 ≡ suc (suc n) = omega arith in
      rw
        (
          l.decoded,
          l.left,
          one_more,
          length_first (suc n) rs h,
          first_first (suc n) rs,
          c.page,
          last_of c.front c.last,
        )
        (rw more refl)

  next-Leaves :
      (text : Option (List ℕ)) (rs : List ActivityRow)
      → Leaves k sorted text rs
      → (c : Cut n rs) → Leaves k sorted (some (k.encode (cursor_of c.last))) c.rest
  next-Leaves text rs l c =
      let parts : sorted ≡ (l.front ++ c.front) ++ c.last ∷ c.rest =
        l.split
        ∙ (ap (◌++◌ l.front) c.whole_list ∙ sym (append_assoc l.front c.front (c.last ∷ c.rest))) in
      let at_end : IsWhole c.last =
        middle_row IsWhole (l.front ++ c.front) c.last c.rest
          (subst (All IsWhole) parts whole_times) in
      record {
        cursor = some (cursor_of c.last);
        front = (l.front ++ c.front) ++ c.last ∷ [];
        decoded = rw (decodes (cursor_of c.last)) refl;
        left =
            rw (at_end, parts)
              (after_row (l.front ++ c.front) c.last c.rest (subst (Pairwise Newer) parts order));
        split = parts ∙ sym (append_assoc (l.front ++ c.front) (c.last ∷ []) c.rest);
      }

module _ (k : CursorCode) (decodes : Decodes k) (occurred_at : ℕ → ℕ) (u n : ℕ) (db : Db) where
  abbrev sorted_ledger : List ActivityRow
  sorted_ledger = newest_first (activity occurred_at u db.entries db.transactions)

  follow_rest :
      (fuel : ℕ) (text : Option (List ℕ)) (rs : List ActivityRow)
      → suc n ≤ 100
      → any (λ (w : Wallet). w.user_id == u) db.wallets ≡ true
      → Pairwise Newer sorted_ledger
      → All IsWhole sorted_ledger
      → Leaves k sorted_ledger text rs
      → length rs < fuel
      → follow k occurred_at u (suc n) fuel text db ≡ some rs
  unfolding follow ledger
  follow_rest zero text rs small found order whole_times l h = absurd (omega arith)
  follow_rest (suc fuel) text rs small found order whole_times l h =
      let limit_read : parse_limit (some (whole (suc n))) ≡ some (suc n) = ground arith in
      elim (Bool-cases (ltb (suc n) (length rs))) [
        | inr f ↦
            rw
              (
                found,
                limit_read,
                last_page k decodes n sorted_ledger order whole_times text rs l (ground arith),
              )
              refl
        | inl t ↦
            let c = cut n rs (ground arith) in
            let next = next-Leaves k decodes n sorted_ledger order whole_times text rs l c in
            let rest =
              follow_rest fuel (some (k.encode (cursor_of c.last))) c.rest small found order
                whole_times next (omega (arith, c.shorter)) in
            rw
              (
                found,
                limit_read,
                full_page k decodes n sorted_ledger order whole_times text rs l c (ground arith),
                rest,
              )
              (ap some (append_assoc c.front (c.last ∷ []) c.rest ∙ sym c.whole_list))
      ]

-- A client that follows `nextCursor` from the first page gets every row of the ledger once, newest
-- first, whatever the size of a page, if the times are whole milliseconds and a cursor is read
-- as it was written.
pub follow-newest_first :
    (k : CursorCode)
    → Decodes k
    → (occurred_at : ℕ → ℕ) (u limit : ℕ) (db : Db) (fuel : ℕ) → 1 ≤ limit
    → limit ≤ 100
    → any (λ (w : Wallet). w.user_id == u) db.wallets ≡ true
    → Pairwise (λ (s t : Transaction). s.transaction_id ≢ t.transaction_id) db.transactions
    → All IsWhole (newest_first (activity occurred_at u db.entries db.transactions))
    → length (newest_first (activity occurred_at u db.entries db.transactions)) < fuel
    → follow k occurred_at u limit fuel none db
      ≡ some (newest_first (activity occurred_at u db.entries db.transactions))
follow-newest_first k decodes occurred_at u zero db fuel some_rows small found ids whole_times
      enough =
    absurd (omega arith)
follow-newest_first k decodes occurred_at u (suc n) db fuel some_rows small found ids whole_times
      enough =
    follow_rest k decodes occurred_at u n db fuel none
      (newest_first (activity occurred_at u db.entries db.transactions)) small found
      (sorted-Newer occurred_at u db.entries db.transactions ids) whole_times
      (record { cursor = none; front = []; decoded = refl; left = refl; split = refl }) enough
