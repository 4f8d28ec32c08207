-- ===== src/Platform/Outbox/Backlog.antt =====
-- platform/src/events/outbox.ts: what a claim takes out of the backlog.
use foc_app.Common.{
  ℕ, zero, suc, ◌+◌, ◌&&◌, Bool, true, false, List, [], ◌∷◌, ◌==◌, filter, any, if◌then◌else◌,
  update_where, All, Pairwise, ◌≡◌, ◌≢◌, inl, inr, refl, sym, ◌∙◌, subst, arith, Memᴰ, All-Mem,
  filter-All, Pairwise-both, update_where-Pairwise, Bool-cases,
}
use foc_app.Platform.Outbox.{
  OutboxRow, Outbox, Answer, confirmed, unroutable, failed, FailureReason, unroutable_event, Claim,
  Relay, is_unpublished, is_claimable, take, claim_rows, publish, published_row, failed_row,
  retry_in_ms, settle, publish_each, claim_and_publish,
}
use foc_app.Platform.Outbox.Sequence.{Apart, OutboxValid, has_id, sent_rows}
use foc_app.Platform.Outbox.Claims.{take-All}

-- The rows that are not published yet.
abbrev pub backlog : List OutboxRow → ℕ
backlog [] = 0
backlog (r ∷ rs) = let rest = backlog rs in if is_unpublished r then rest + 1 else rest

abbrev OtherIds : OutboxRow → OutboxRow → Type 0
OtherIds a b = a.id ≢ b.id

abbrev waits : ℕ → OutboxRow → Bool
waits id r = (r.id == id) && is_unpublished r

other_backlog :
    (now id : ℕ) (rows : List OutboxRow)
    → All (λ (o : OutboxRow). id ≢ o.id) rows
    → backlog (update_where (has_id id) (published_row now) rows) ≡ backlog rows
other_backlog now id [] h = refl
other_backlog now id (r ∷ rows) h = ground (arith, other_backlog now id rows)

none_waits :
    (id : ℕ) (rows : List OutboxRow)
    → All (λ (o : OutboxRow). id ≢ o.id) rows
    → any (waits id) rows ≡ false
none_waits id [] h = refl
none_waits id (r ∷ rows) h = ground (arith, none_waits id rows)

-- Publishing a row that waits takes one from the backlog.
published_backlog :
    (now id : ℕ) (rows : List OutboxRow)
    → Pairwise OtherIds rows
    → any (waits id) rows ≡ true
    → backlog (update_where (has_id id) (published_row now) rows) + 1 ≡ backlog rows
published_backlog now id [] v e = absurd (ground arith)
published_backlog now id (r ∷ rows) v e = elim (Bool-cases (r.id == id)) [
  | inl t ↦
      let here : r.id ≡ id = ground arith in
      let rest = subst (λ (i : ℕ). All (λ (o : OutboxRow). i ≢ o.id) rows) here v.0 in
      ground (arith, other_backlog now id rows rest, none_waits id rows rest)
  | inr f ↦ ground (arith, published_backlog now id rows v.1)
]

failed_backlog :
    (now ms id : ℕ) (why : FailureReason) (rows : List OutboxRow)
    → backlog (update_where (has_id id) (failed_row now ms why) rows) ≡ backlog rows
failed_backlog now ms id why [] = refl
failed_backlog now ms id why (r ∷ rows) = ground (arith, failed_backlog now ms id why rows)

still_waits :
    (id other : ℕ) (f : OutboxRow → OutboxRow) (rows : List OutboxRow)
    → ((r : OutboxRow) → (f r).id ≡ r.id)
    → id ≢ other
    → any (waits id) (update_where (has_id other) f rows) ≡ any (waits id) rows
still_waits id other f [] same differs = refl
still_waits id other f (r ∷ rows) same differs =
    ground (arith, same r, still_waits id other f rows same differs)

update-OtherIds :
    (id : ℕ) (f : OutboxRow → OutboxRow) (rows : List OutboxRow)
    → ((r : OutboxRow) → (f r).id ≡ r.id)
    → Pairwise OtherIds rows
    → Pairwise OtherIds (update_where (has_id id) f rows)
update-OtherIds id f rows same v =
    update_where-Pairwise OtherIds (has_id id) f (λ a b d. ground (arith, same a, same b)) rows v

-- What the loop of a claim keeps: the table's ids are distinct and the row waits.
record Waiting (rs : List OutboxRow) (rows : List OutboxRow) : Type 0 where
  ids : Pairwise OtherIds rows
  others : Pairwise OtherIds rs
  waiting : All (λ (r : OutboxRow). any (waits r.id) rows ≡ true) rs

update-Waiting :
    (r : OutboxRow) (rs : List OutboxRow) (f : OutboxRow → OutboxRow) (rows : List OutboxRow)
    → ((r : OutboxRow) → (f r).id ≡ r.id)
    → Waiting (r ∷ rs) rows
    → Waiting rs (update_where (has_id r.id) f rows)
update-Waiting r rs f rows same w = record {
  ids = update-OtherIds r.id f rows same w.ids;
  others = w.others.1;
  waiting = each rs w.others.0 w.waiting.1;
}
  where
    each :
        (ss : List OutboxRow)
        → All (OtherIds r) ss
        → All (λ (s : OutboxRow). any (waits s.id) rows ≡ true) ss
        → All (λ (s : OutboxRow). any (waits s.id) (update_where (has_id r.id) f rows) ≡ true) ss
    each [] d h = tt
    each (s ∷ ss) d h =
        (rw (still_waits s.id r.id f rows same (λ e. absurd (d.0 (sym e)))) h.0, each ss d.1 h.1)

-- Rows out of the backlog are the rows counted as published.
abbrev total : Claim → ℕ
total c = backlog c.outbox.rows + c.published

module _ (k : Relay) (now : ℕ) where
  settle-total :
      (r : OutboxRow) (rs : List OutboxRow) (a : Answer) (c : Claim)
      → Waiting (r ∷ rs) c.outbox.rows
      → total (settle k now r a c) ≡ total c
  settle-total r rs confirmed c w =
      ground (arith, published_backlog now r.id c.outbox.rows w.ids w.waiting.0)
  settle-total r rs unroutable c w =
      ground (arith, failed_backlog now (retry_in_ms k r) r.id unroutable_event c.outbox.rows)
  settle-total r rs (failed reached why) c w =
      rw (sent_rows reached r.id c.outbox)
        (ground (arith, failed_backlog now (retry_in_ms k r) r.id why c.outbox.rows))

  settle-Waiting :
      (r : OutboxRow) (rs : List OutboxRow) (a : Answer) (c : Claim)
      → Waiting (r ∷ rs) c.outbox.rows
      → Waiting rs (settle k now r a c).outbox.rows
  settle-Waiting r rs confirmed c w =
      update-Waiting r rs (published_row now) c.outbox.rows (λ s. refl) w
  settle-Waiting r rs unroutable c w =
      update-Waiting r rs (failed_row now (retry_in_ms k r) unroutable_event) c.outbox.rows
        (λ s. refl) w
  settle-Waiting r rs (failed reached why) c w =
      rw (sent_rows reached r.id c.outbox)
        (update-Waiting r rs (failed_row now (retry_in_ms k r) why) c.outbox.rows (λ s. refl) w)

  publish_each-total :
      (rs : List OutboxRow) (c : Claim)
      → Waiting rs c.outbox.rows
      → total (publish_each k now rs c) ≡ total c
  unfolding publish_each
  publish_each-total [] c w = refl
  publish_each-total (r ∷ rs) c w = elim (Bool-cases (settle k now r (publish k now r) c).halted) [
    | inl t ↦ rw t (settle-total r rs (publish k now r) c w)
    | inr f ↦ rw f (
        publish_each-total rs (settle k now r (publish k now r) c)
          (settle-Waiting r rs (publish k now r) c w)
        ∙ settle-total r rs (publish k now r) c w)
  ]

filter-Pairwise :
    (p : OutboxRow → Bool) (rows : List OutboxRow)
    → Pairwise OtherIds rows
    → Pairwise OtherIds (filter p rows)
filter-Pairwise p [] v = tt
filter-Pairwise p (r ∷ rows) v = elim (Bool-cases (p r)) [
  | inl t ↦ rw t (
    filter-All (OtherIds r) p rows (λ x m e. All-Mem (OtherIds r) rows v.0 m),
    filter-Pairwise p rows v.1,
  )
  | inr f ↦ rw f (filter-Pairwise p rows v.1)
]

take-Pairwise :
    (n : ℕ) (rows : List OutboxRow) → Pairwise OtherIds rows → Pairwise OtherIds (take n rows)
take-Pairwise zero rows v = tt
take-Pairwise (suc n) [] v = tt
take-Pairwise (suc n) (r ∷ rows) v = (take-All (OtherIds r) n rows v.0, take-Pairwise n rows v.1)

waits_Mem :
    (r : OutboxRow) (rows : List OutboxRow)
    → Memᴰ r rows
    → is_unpublished r ≡ true
    → any (waits r.id) rows ≡ true
waits_Mem r [] m u = elim m [ ]
waits_Mem r (o ∷ rows) (Memᴰ.head e) u =
    let here : waits r.id o ≡ true = subst (λ x. waits r.id x ≡ true) e (ground arith) in
    ground arith
waits_Mem r (o ∷ rows) (Memᴰ.tail m) u = ground (arith, waits_Mem r rows m u)

claim-Waiting :
    (k : Relay) (now : ℕ) (locked : ℕ → Bool) (o : Outbox)
    → OutboxValid o
    → Waiting (claim_rows now locked k.batch_size o) o.rows
claim-Waiting k now locked o v =
    let ids = Pairwise-both Apart Apart OtherIds (λ a b x y. x.0) o.rows v.apart v.apart in
    record {
      ids = ids;
      others =
          take-Pairwise k.batch_size _
            (filter-Pairwise (is_claimable now locked o.rows) o.rows ids);
      waiting =
          take-All (λ (r : OutboxRow). any (waits r.id) o.rows ≡ true) k.batch_size _
            (filter-All (λ (r : OutboxRow). any (waits r.id) o.rows ≡ true)
              (is_claimable now locked o.rows) o.rows
              (λ r m e. waits_Mem r o.rows m (ground arith)));
    }

-- What a claim publishes leaves the backlog.
pub claim-total :
    (k : Relay) (now : ℕ) (locked : ℕ → Bool) (o : Outbox)
    → OutboxValid o
    → backlog (claim_and_publish k now locked o).outbox.rows
        + (claim_and_publish k now locked o).published
      ≡ backlog o.rows
unfolding claim_and_publish
claim-total k now locked o v =
    omega (arith, publish_each-total k now (claim_rows now locked k.batch_size o) start waiting)
  where
    start : Claim
    start = record { published = 0; failures = 0; halted = false; outbox = o }

    waiting : Waiting (claim_rows now locked k.batch_size o) o.rows
    waiting = claim-Waiting k now locked o v
