-- ===== src/Platform/Outbox/Drained.antt =====
-- platform/src/events/outbox.ts: an outbox whose every event the broker confirms is drained by one tick.
use foc_app.Common.{
  ℕ, zero, suc, ◌+◌, ◌<◌, Bool, true, false, Option, some, List, [], ◌∷◌, leb, ◌==◌, filter, any,
  length, updated, All, Pairwise, ◌≡◌, inl, inr, refl, ap, ◌∙◌, subst, arith, Memᴰ, All-Mem,
  filter-All, update_where-All, Bool-cases,
}
use foc_app.Platform.Outbox.{
  OutboxRow, Outbox, confirmed, Claim, Relay, Surroundings, is_unpublished, holds_back,
  is_claimable, take, claim_rows, publish, published_row, settle, publish_each, claim_and_publish,
  tick,
}
use foc_app.Platform.Outbox.Sequence.{Apart, OutboxValid, has_id}
use foc_app.Platform.Outbox.Claims.{claim-OutboxValid, take-All}
use foc_app.Platform.Outbox.Backlog.{backlog, claim-total}
use foc_app.Platform.Outbox.Ticks.{done}

-- The row is due at every claim, nobody else holds it, and the broker confirms it.
pub record GoesOut (k : Relay) (w : Surroundings) (r : OutboxRow) : Type 0 where
  pub due : (round : ℕ) → leb r.next_attempt_at (w.clock round) ≡ true
  pub free : (round : ℕ) → w.locked round r.id ≡ false
  pub confirmed : (round : ℕ) → publish k (w.clock round) r ≡ confirmed

published-GoesOut :
    (k : Relay) (w : Surroundings) (now id : ℕ) (r : OutboxRow)
    → GoesOut k w r
    → GoesOut k w (updated (has_id id) (published_row now) r)
published-GoesOut k w now id r g = elim (Bool-cases (r.id == id)) [
  | inl t ↦ rw t (record { due = g.due; free = g.free; confirmed = g.confirmed })
  | inr f ↦ rw f g
]

none_hold :
    (x : OutboxRow) (rows : List OutboxRow) → All (Apart x) rows → any (holds_back x) rows ≡ false
none_hold x [] h = refl
none_hold x (r ∷ rows) h = ground (arith, none_hold x rows)

-- The first unpublished row is not held back.
first_waiting :
    (rows : List OutboxRow)
    → Pairwise Apart rows
    → 0 < backlog rows
    → (r : OutboxRow) × Memᴰ r rows × (is_unpublished r ≡ true) × (any (holds_back r) rows ≡ false)
first_waiting [] v h = absurd (omega arith)
first_waiting (x ∷ rows) v h = elim (Bool-cases (is_unpublished x)) [
  | inl t ↦ (x, Memᴰ.head refl, t, ground (arith, none_hold x rows v.0))
  | inr f ↦
      let later : 0 < backlog rows = ground arith in
      let found = first_waiting rows v.1 later in
      (found.0, Memᴰ.tail found.1, found.2, ground (arith, found.3))
]

filter_some :
    (p : OutboxRow → Bool) (r : OutboxRow) (rows : List OutboxRow)
    → Memᴰ r rows
    → p r ≡ true
    → 0 < length (filter p rows)
filter_some p r [] m e = elim m [ ]
filter_some p r (x ∷ rows) (Memᴰ.head h) e =
    let here : p x ≡ true = subst (λ y. p y ≡ true) h e in rw here (omega arith)
filter_some p r (x ∷ rows) (Memᴰ.tail m) e = ground (arith, filter_some p r rows m e)

take_some : (n : ℕ) (rows : List OutboxRow) → 0 < n → 0 < length rows → 0 < length (take n rows)
take_some zero rows h k = absurd (omega arith)
take_some (suc n) [] h k = absurd (omega arith)
take_some (suc n) (r ∷ rows) h k = omega arith

-- A loop over rows that the broker confirms publishes them all.
publish_each_confirmed :
    (k : Relay) (now : ℕ) (rs : List OutboxRow) (c : Claim)
    → All (λ (r : OutboxRow). publish k now r ≡ confirmed) rs
    → c.halted ≡ false
    → ((publish_each k now rs c).published ≡ c.published + length rs)
      × ((publish_each k now rs c).halted ≡ false)
unfolding publish_each
publish_each_confirmed k now [] c h e = (omega arith, e)
publish_each_confirmed k now (r ∷ rs) c h e =
    let rest =
      publish_each_confirmed k now rs (record (settle k now r confirmed c) { halted = false }) h.1
        refl in
    rw (h.0, e) (omega (arith, rest.0), rest.1)

publish_each-GoesOut :
    (k : Relay) (w : Surroundings) (now : ℕ) (rs : List OutboxRow) (c : Claim)
    → All (λ (r : OutboxRow). publish k now r ≡ confirmed) rs
    → c.halted ≡ false
    → All (GoesOut k w) c.outbox.rows
    → All (GoesOut k w) (publish_each k now rs c).outbox.rows
unfolding publish_each
publish_each-GoesOut k w now [] c h e g = g
publish_each-GoesOut k w now (r ∷ rs) c h e g =
    rw (h.0, e)
      (publish_each-GoesOut k w now rs (record (settle k now r confirmed c) { halted = false }) h.1
        refl
        (update_where-All (GoesOut k w) (GoesOut k w) (has_id r.id) (published_row now)
          (published-GoesOut k w now r.id) c.outbox.rows g))

same_count :
    (a b : ℕ) (o : Outbox) → a ≡ b → ◌≡◌ {A = Option (ℕ × Outbox)} (some (a, o)) (some (b, o))
same_count a b o e = ap (λ (n : ℕ). some (n, o)) e

module _ (k : Relay) (w : Surroundings) (batch : 0 < k.batch_size) where
  confirmed_claim :
      (round : ℕ) (o : Outbox)
      → All (GoesOut k w) o.rows
      → All
          (λ (r : OutboxRow). publish k (w.clock round) r ≡ confirmed)
          (claim_rows (w.clock round) (w.locked round) k.batch_size o)
  confirmed_claim round o g = take-All _ k.batch_size _ (
      filter-All _ (is_claimable (w.clock round) (w.locked round) o.rows) o.rows
        (λ r m e. (All-Mem (GoesOut k w) o.rows g m).confirmed round))

  -- A claim on a table with a backlog publishes something.
  claim_publishes :
      (round : ℕ) (o : Outbox)
      → OutboxValid o
      → All (GoesOut k w) o.rows
      → 0 < backlog o.rows
      → 0 < length (claim_rows (w.clock round) (w.locked round) k.batch_size o)
  claim_publishes round o v g some_left =
      let first = first_waiting o.rows v.apart some_left in
      let goes = All-Mem (GoesOut k w) o.rows g first.1 in
      take_some k.batch_size _ batch (
        filter_some (is_claimable (w.clock round) (w.locked round) o.rows) first.0 o.rows first.1
          (rw (first.2, goes.due round, first.3, goes.free round) refl))

  claimed_all :
      (round : ℕ) (o : Outbox)
      → All (GoesOut k w) o.rows
      → ((claim_and_publish k (w.clock round) (w.locked round) o).published
          ≡ length (claim_rows (w.clock round) (w.locked round) k.batch_size o))
        × ((claim_and_publish k (w.clock round) (w.locked round) o).halted ≡ false)
        × All (GoesOut k w) (claim_and_publish k (w.clock round) (w.locked round) o).outbox.rows
  unfolding claim_and_publish
  claimed_all round o g =
      let goes = confirmed_claim round o g in
      let rows = claim_rows (w.clock round) (w.locked round) k.batch_size o in
      let each = publish_each_confirmed k (w.clock round) rows start goes refl in
      (
        omega (arith, each.0),
        each.1,
        publish_each-GoesOut k w (w.clock round) rows start goes refl g,
      )
    where
      start : Claim
      start = record { published = 0; failures = 0; halted = false; outbox = o }

  -- When every row is due, free and confirmed by the broker, and nobody stops the relay, one
  -- `tick` publishes the whole backlog and returns its size.
  pub tick_drains :
      (fuel round total : ℕ) (o : Outbox)
      → OutboxValid o
      → All (GoesOut k w) o.rows
      → ((n : ℕ) → w.stopping n ≡ false)
      → backlog o.rows < fuel
      → (o' : Outbox) × (tick k w fuel round total o ≡ some (total + backlog o.rows, o'))
        × (backlog o'.rows ≡ 0)
  unfolding tick
  tick_drains zero round total o v g goes_on h = absurd (omega arith)
  tick_drains (suc fuel) round total o v g goes_on h =
      let counted = claim-total k (w.clock round) (w.locked round) o v in
      let all = claimed_all round o g in
      elim (Bool-cases (done (claim_and_publish k (w.clock round) (w.locked round) o))) [
        | inl t ↦
            let empty : backlog o.rows ≡ 0 = ground (arith, claim_publishes round o v g) in
            rw (goes_on round, t)
              (
                (claim_and_publish k (w.clock round) (w.locked round) o).outbox,
                same_count _ _ _ (omega (arith, counted, empty)),
                omega (arith, counted, empty),
              )
        | inr f ↦
            let some_left : backlog
                  (claim_and_publish k (w.clock round) (w.locked round) o).outbox.rows
                < fuel =
              ground (arith, counted) in
            let rest =
              tick_drains fuel (round + 1)
                (total + (claim_and_publish k (w.clock round) (w.locked round) o).published)
                (claim_and_publish k (w.clock round) (w.locked round) o).outbox
                (claim-OutboxValid k (w.clock round) (w.locked round) o v) all.2 goes_on
                some_left in
            rw (goes_on round, f)
              (rest.0, rest.1 ∙ same_count _ _ _ (omega (arith, counted)), rest.2)
      ]
