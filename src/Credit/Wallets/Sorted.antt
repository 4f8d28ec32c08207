-- ===== src/Credit/Wallets/Sorted.antt =====
-- credit-service/src/credits/credit.repository.ts: the order of the ledger, and the rows after a place in it.
use foc_app.Common.{
  ℕ, true, false, List, [], ◌∷◌, ◌++◌, filter, All, Pairwise, ◌≡◌, ◌≢◌, inl, inr, refl, ap, arith,
  All-implies, Bool-cases, Option-cases,
}
use foc_app.Credit.Db.{Transaction, LedgerEntry}
use foc_app.Credit.Wallets.{
  ActivityRow, activity, last_entry, joins, place, before, insert, newest_first,
}

-- Newest first.
abbrev pub Newer : ActivityRow → ActivityRow → Type 0
Newer r s = before (place s) (place r) ≡ true

abbrev OtherTransaction : ActivityRow → ActivityRow → Type 0
OtherTransaction r s = r.transaction_id ≢ s.transaction_id

Newer-through : (r s t : ActivityRow) → Newer r s → Newer s t → Newer r t
Newer-through r s t a b = ground arith

insert-All :
    (P : ActivityRow → Type 0) (r : ActivityRow) (rs : List ActivityRow)
    → P r
    → All P rs
    → All P (insert r rs)
insert-All P r [] p h = (p, tt)
insert-All P r (s ∷ ss) p h = elim (Bool-cases (before (place r) (place s))) [
  | inl t ↦ rw t (h.0, insert-All P r ss p h.1)
  | inr f ↦ rw f (p, h)
]

insert-Newer :
    (r : ActivityRow) (rs : List ActivityRow)
    → All (OtherTransaction r) rs
    → Pairwise Newer rs
    → Pairwise Newer (insert r rs)
insert-Newer r [] d v = (tt, tt)
insert-Newer r (s ∷ ss) d v = elim (Bool-cases (before (place r) (place s))) [
  | inl t ↦ rw t (insert-All (Newer s) r ss t v.0, insert-Newer r ss d.1 v.1)
  | inr f ↦
      let newer : Newer r s = ground arith in
      rw f ((newer, All-implies (Newer s) (Newer r) (λ x. Newer-through r s x newer) ss v.0), v)
]

newest_first-All :
    (P : ActivityRow → Type 0) (rs : List ActivityRow) → All P rs → All P (newest_first rs)
newest_first-All P [] h = tt
newest_first-All P (r ∷ rs) h = insert-All P r (newest_first rs) h.0 (newest_first-All P rs h.1)

newest_first-Newer :
    (rs : List ActivityRow) → Pairwise OtherTransaction rs → Pairwise Newer (newest_first rs)
newest_first-Newer [] d = tt
newest_first-Newer (r ∷ rs) d =
    insert-Newer r (newest_first rs) (newest_first-All (OtherTransaction r) rs d.0)
      (newest_first-Newer rs d.1)

activity-All :
    (occurred_at : ℕ → ℕ) (u : ℕ) (es : List LedgerEntry) (P : ℕ → Type 0) (ts : List Transaction)
    → All (λ (t : Transaction). P t.transaction_id) ts
    → All (λ (r : ActivityRow). P r.transaction_id) (activity occurred_at u es ts)
activity-All occurred_at u es P [] h = tt
activity-All occurred_at u es P (t ∷ ts) h =
    elim (Option-cases (last_entry (filter (joins u t.transaction_id) es))) [
      | inl n ↦ rw n (activity-All occurred_at u es P ts h.1)
      | inr (e, k) ↦ rw k (h.0, activity-All occurred_at u es P ts h.1)
    ]

activity-OtherTransaction :
    (occurred_at : ℕ → ℕ) (u : ℕ) (es : List LedgerEntry) (ts : List Transaction)
    → Pairwise (λ (s t : Transaction). s.transaction_id ≢ t.transaction_id) ts
    → Pairwise OtherTransaction (activity occurred_at u es ts)
activity-OtherTransaction occurred_at u es [] v = tt
activity-OtherTransaction occurred_at u es (t ∷ ts) v =
    elim (Option-cases (last_entry (filter (joins u t.transaction_id) es))) [
      | inl n ↦ rw n (activity-OtherTransaction occurred_at u es ts v.1)
      | inr (e, k) ↦ rw k (
        activity-All occurred_at u es (λ i. t.transaction_id ≢ i) ts v.0,
        activity-OtherTransaction occurred_at u es ts v.1,
      )
    ]

-- A user's sorted activity is strictly in order.
pub sorted-Newer :
    (occurred_at : ℕ → ℕ) (u : ℕ) (es : List LedgerEntry) (ts : List Transaction)
    → Pairwise (λ (s t : Transaction). s.transaction_id ≢ t.transaction_id) ts
    → Pairwise Newer (newest_first (activity occurred_at u es ts))
sorted-Newer occurred_at u es ts v =
    newest_first-Newer (activity occurred_at u es ts)
      (activity-OtherTransaction occurred_at u es ts v)

kept_all :
    (r : ActivityRow) (rs : List ActivityRow)
    → All (Newer r) rs
    → filter (λ (s : ActivityRow). before (place s) (place r)) rs ≡ rs
kept_all r [] h = refl
kept_all r (s ∷ ss) h = rw h.0 (ap (◌∷◌ s) (kept_all r ss h.1))

-- The rows below a row of a sorted list are those that follow it.
pub after_row :
    (front : List ActivityRow) (r : ActivityRow) (rest : List ActivityRow)
    → Pairwise Newer (front ++ r ∷ rest)
    → filter (λ (s : ActivityRow). before (place s) (place r)) (front ++ r ∷ rest) ≡ rest
after_row [] r rest v =
    let self : before (place r) (place r) ≡ false = ground arith in rw self (kept_all r rest v.0)
after_row (s ∷ front) r rest v =
    let newer = last_of front v.0 in
    let above : before (place s) (place r) ≡ false = ground arith in
    rw above (after_row front r rest v.1)
  where
    last_of : (xs : List ActivityRow) → All (Newer s) (xs ++ r ∷ rest) → Newer s r
    last_of [] h = h.0
    last_of (x ∷ xs) h = last_of xs h.1
